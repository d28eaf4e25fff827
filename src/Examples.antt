-- ===== src/Examples.antt =====
-- Concrete runs: each theorem with hypotheses at an input that meets them, and tests of definitions.
mod Fuzzers
mod Transport
pub mod Clients
mod Servers
pub mod Rooms
mod Programs
pub mod Talks
pub mod Reads
mod Loops
mod Packets

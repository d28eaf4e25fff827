-- ===== src/Lib.antt =====
-- The C chat server: its wire protocol, its clients' buffers and queues, its commands, and its event loop.
--
-- The program. Clients send frames over TCP: a packed header of six bytes (length in network order, type,
-- a flag for the last frame of a message) and a payload. The server runs one epoll loop over nonblocking
-- sockets. The reader puts frames together from partial reads, appends each payload to the client's message
-- buffer, and hands a message that is done to `process_payload`: the first one is the client's name, one
-- that begins with a slash is a command, and every other one is broadcast. A broadcast makes a packet for
-- each other client, queues it, tries to send it at once, and else waits for EPOLLOUT. A client with an error
-- is marked closed, and swept out before the next wait.
--
-- The files, and the code that each is about:
--   Base               helpers: byte buffers with checked copies, lists, tests, and the monad of the model
--   Os                 the system calls, the allocator, the clock and epoll, as a parameter `os`; Os/Laws has what
--                      the code relies on of them; Os/Script and Os/Steady are concrete ones
--   Protocol, Transfer src/common/protocol.c, include/protocol.h; Transfer/Sending and Transfer/Receiving are about
--                      packets on a stream
--   Io                 src/common/io.c
--   Text               src/common/utils.c, and the string functions of the C library
--   Command            src/common/command.c, include/command.h, include/command_table.h
--   Epoll              src/common/epoll_mod.c
--   Client             include/client_info.h, src/server/client_info_init.c, src/server/client_utils.c
--   Queue              include/msg_queue.h, src/server/msg_packet.c, src/server/client_try_write.c, and
--                      `client_enqueue_msg_packet` of src/server/client_utils.c
--   Format             src/server/formatting.c
--   Server             include/server_state.h, src/server/client_list.c
--   Broadcast          src/server/broadcast.c
--   Handlers           src/server/server_handle_command.c; Handlers/Room has the invariant of the server between events
--   Payload            src/server/process_payload.c
--   Reader             src/server/handle_client_read.c; Reader/Decode has the specification of the framing, Reader/Serve
--                      is about the whole loop with the messages that it handles
--   Loop               src/server/server_loop.c, src/server/accept_new_clients.c; Loop/Hall has the invariant of the
--                      whole loop, Loop/Input, Accept, Sweep and Shutdown that each part keeps it, and
--                      Loop/Run that the loop does
--   Setup              src/common/common_setup.c, src/server/server_setup.c, src/server/server_state.c,
--                      src/client/client_setup.c, and `main` of src/server/server.c
--   ClientApp          src/client/client.c, src/client/client_handle_command.c, src/client/client_listen.c,
--                      src/common/common_thread.c
--   Fuzzer             tests/fuzzer_valid.c, tests/fuzzer_raw.c
--   Examples           runs at concrete inputs
-- Functions keep the names of the code. A function that changes a client takes and returns the client's
-- record; a function that reaches other clients works on the `Server` record, where `clients` is the memory of
-- client structs by address, so that two pointers to one client are one address.
--
-- The operating system of the examples hands out an inbound stream in chunks of given sizes (Os/Script), or never
-- interrupts a `send` or `write`, or takes all bytes (Os/Steady).
--
-- The monad. A run takes a world and gives a result with the next world, or `none`: an access out of
-- bounds, a use of NULL or of freed memory, a lock of the locked mutex, or out of fuel. A theorem that a
-- run gives `some` thus rules all of these out. The contents of memory that the C code leaves uninitialised are
-- what the allocator, or the argument `garbage`, gives.
--
-- Numbers. Lengths and counters are natural numbers; where `size_t` can wrap, the wrap-around is
-- written out (% 2 ^ 64), and so is the cast of a length to 32 bits.
--
-- Fuel. A round of `read_all`, `write_all`, `client_try_write`, `accept_new_clients` and
-- `handle_client_read` is one system call; the theorems say how much is enough (the bytes to move and the
-- interruptions that the stream still has; for `accept_new_clients`, the places left in the list).
-- `grow_cap` has 65 rounds, as 64 doublings pass any `size_t`.
-- The sweep has one round for each entry of the list and one for its end. For a run of the whole loop, `n` is
-- the number of rounds that the reader of one client may take at one event; then a message grows by at most 4096 * `n`
-- bytes at an event, and there are at most ten events at a wait.
--
-- The surroundings. What the loop relies on beyond single calls is not a hypothesis but a case of its theorem
-- (`Breach` in Loop/Batch): epoll reports only clients of the list, a new block is not one that is in use, and no
-- client sends without end.
--
-- A fuzzing client is a run of its own too, on the arrays that it finds on its stack.
--
-- The two threads of the client share only `client_shutdown` and the socket. Each is a run of its own: what
-- the other one does is among the answers of its surroundings (`Terminal` for the flag).
--
-- Not modelled: printing, the logging of errors, the join of the client's threads, and the
-- build files. The field write_buffer, which nothing uses, is left out. The epoll file
-- descriptor is part of the calls. An event is the listening socket's or a client's; the code tells them
-- apart by the union `data`.
mod Base
pub mod Os
pub mod Protocol
pub mod Io
pub mod Client
pub mod Epoll
pub mod Queue
pub mod Text
pub mod Command
pub mod Format
pub mod Transfer
pub mod Server
pub mod Broadcast
pub mod Handlers
pub mod Payload
pub mod Reader
pub mod Loop
pub mod Setup
pub mod ClientApp
pub mod Fuzzer
mod Examples

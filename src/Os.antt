-- ===== src/Os.antt =====
-- The operating system as the program calls it: POSIX sockets, epoll, the allocator and the clock
-- are the parameter `os`. A call takes the state of the world and returns its answer with the next
-- state. `new_struct` is a `malloc` of a struct, answered by its address; `local_time` is
-- `localtime` with the `strftime` of its result as `[%H:%M:%S]`.
pub mod Laws
pub mod Script
pub mod Steady
use c_chat_server.Base.{ℕ, Option, Bytes, Bool, List, M, some}

-- What a call on a file descriptor comes to: a result, or -1 with the `errno` that the code tests.
pub data Io (A : Type 0) : Type 0 where
  ok : A → Io A
  again : Io A
  interrupted : Io A
  failed : Io A

-- An `int` return code that is 0 or -1.
pub data Status : Type 0 where
  success failure : Status

-- An `ssize_t` return value: a count or -1.
pub data Count : Type 0 where
  count : ℕ → Count
  error : Count

-- The memory order of the machine that runs the code.
pub data Endian : Type 0 where
  little big : Endian

pub data EpollOp : Type 0 where
  epoll_add epoll_del epoll_in epoll_in_out : EpollOp

-- One ready descriptor: the listening socket, or a client by the address that `data.ptr` holds, with
-- the bits of `events` that the loop tests.
pub data Event : Type 0 where
  listening : Event
  ready : (client : ℕ) → (hangup input output : Bool) → Event

pub record Os : Type 1 where
  pub World : Type 0
  pub byte_order : Endian
  pub read : (fd n : ℕ) → World → Io Bytes × World
  pub write : (fd : ℕ) → Bytes → World → Io ℕ × World
  pub send : (fd : ℕ) → Bytes → World → Io ℕ × World
  pub close : (fd : ℕ) → World → Status × World
  pub epoll_ctl : EpollOp → (fd : ℕ) → World → Status × World
  pub malloc : ℕ → World → Option Bytes × World
  pub realloc : Bytes → ℕ → World → Option Bytes × World
  pub new_struct : World → Option ℕ × World
  pub shutdown : (fd : ℕ) → World → Status × World
  pub local_time : World → Option Bytes × World
  pub accept : (fd : ℕ) → World → Io ℕ × World
  pub set_nonblocking : (fd : ℕ) → World → Status × World
  pub epoll_wait : World → Option (List Event) × World

abbrev pub call : {W A : Type 0} → (W → A × W) → M W A
call f w = some (f w)

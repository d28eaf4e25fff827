-- ===== src/Client.antt =====
-- client_info.h, client_info_init.c and client_utils.c: the per-client state and its message buffer.
-- The message queue's operations are in Queue.
pub mod Capacity
pub mod Buffer
pub mod Name
use c_chat_server.Base.{
  ℕ, zero, suc, ◌+◌, ◌*◌, ◌%◌, ◌^◌, Bytes, List, [], ◌∷◌, Option, none, some, Bool, true, false, M,
  pure, fault, checked, ◌>>=◌, ltb, leb, if◌then◌else◌, memcpy, slice, replicate,
}
use c_chat_server.Os.{Os, Status, success, failure, call}

abbrev pub buf_size : ℕ
buf_size = 4096

abbrev pub name_max : ℕ
name_max = 64

pub data ReadState : Type 0 where
  read_header read_payload : ReadState

-- A queued packet: the address of its struct, its bytes, and how many of them are sent.
pub record MsgPacket : Type 0 where
  pub address : ℕ
  pub packet_data : Bytes
  pub len : ℕ
  pub offset : ℕ

-- The chain from `head` along `next` to `tail`, as a list; `head` and `tail` are NULL when it is
-- empty.
pub record MsgQueue : Type 0 where
  pub packets : List MsgPacket
  pub queued_bytes : ℕ
  pub queued_count : ℕ

-- `partial_msg` is `none` for NULL.
pub record ClientInfo : Type 0 where
  pub client_fd : ℕ
  pub state : ReadState
  pub header_buffer : Bytes
  pub header_bytes_read : ℕ
  pub expected_payload_len : ℕ
  pub msg_type : ℕ
  pub msg_done : ℕ
  pub payload_buffer : Bytes
  pub payload_bytes_read : ℕ
  pub write_len : ℕ
  pub write_offset : ℕ
  pub msg_queue : MsgQueue
  pub epollout_enabled : Bool
  pub name : Bytes
  pub name_len : ℕ
  pub has_name : Bool
  pub partial_msg : Option Bytes
  pub partial_len : ℕ
  pub partial_cap : ℕ
  pub closed : Bool

abbrev pub empty_queue : MsgQueue
empty_queue = record { packets = []; queued_bytes = 0; queued_count = 0 }

-- `while (cap < needed) cap *= 2;` on a `size_t`
pub grow_cap : (fuel cap needed : ℕ) → Option ℕ
grow_cap zero cap needed = none
grow_cap (suc fuel) cap needed =
    let rest = grow_cap fuel (cap * 2 % 2 ^ 64) needed in if ltb cap needed then rest else some cap

-- Rounds of doubling after which a capacity has passed any `size_t`.
abbrev pub cap_fuel : ℕ
cap_fuel = 65

-- `name[name_len] = '\0'` and the bytes before it are what `store_client_name` writes.
pub store_client_name : {W : Type 0} → ClientInfo → M W (Status × ClientInfo)
store_client_name c = do
  let len = if leb name_max c.partial_len then 63 else c.partial_len
  msg ← checked c.partial_msg
  bytes ← checked (slice msg 0 len)
  copied ← checked (memcpy c.name 0 bytes)
  ended ← checked (memcpy copied len (0 ∷ []))
  pure (success, record c { partial_len = len; name = ended; name_len = len })

pub clear_client_buffer : {W : Type 0} → ClientInfo → M W (Status × ClientInfo)
clear_client_buffer c = do
  msg ← checked c.partial_msg
  cleared ← checked (memcpy msg 0 (replicate c.partial_len 0))
  pure (success, record c { partial_msg = some cleared; partial_len = 0; partial_cap = buf_size })

-- `memcpy` of the payload behind the message so far.
pub copy_payload : {W : Type 0} → ClientInfo → M W (Status × ClientInfo)
copy_payload c = do
  msg ← checked c.partial_msg
  bytes ← checked (slice c.payload_buffer 0 c.payload_bytes_read)
  longer ← checked (memcpy msg c.partial_len bytes)
  pure (
    success,
    record c { partial_msg = some longer; partial_len = c.partial_len + c.payload_bytes_read },
  )

module _ (os : Os) where
  -- `realloc` of NULL is `malloc`.
  realloc_msg : Option Bytes → ℕ → os.World → Option Bytes × os.World
  realloc_msg none n w = os.malloc n w
  realloc_msg (some block) n w = os.realloc block n w

  copy_if_allocated : Option Bytes → ClientInfo → M os.World (Status × ClientInfo)
  copy_if_allocated none c = pure (failure, record c { partial_msg = none })
  copy_if_allocated (some block) c = copy_payload (record c { partial_msg = some block })

  unfoldable pub append_to_client_buffer : ClientInfo → M os.World (Status × ClientInfo)
  unfolding realloc_msg copy_if_allocated
  append_to_client_buffer c =
      let needed_bytes = (c.partial_len + c.payload_bytes_read) % 2 ^ 64 in
      let enlarge : M os.World (Status × ClientInfo) = do
        cap ← checked (grow_cap cap_fuel c.partial_cap needed_bytes)
        block ← call (realloc_msg c.partial_msg cap)
        copy_if_allocated block (record c { partial_cap = cap })
      in if ltb c.partial_cap needed_bytes then enlarge else copy_payload c

  -- `client_out` is a block from `malloc`: the fields that are not set keep what stands there.
  unfoldable pub client_info_init : ClientInfo → ℕ → M os.World (Status × ClientInfo)
  client_info_init client_out client_fd = do
    block ← call (os.malloc buf_size)
    elim block [
      | none ↦ pure (failure, record client_out { partial_msg = none })
      | some b ↦ pure (
        success,
        record client_out {
          partial_msg = some b;
          partial_len = 0;
          partial_cap = buf_size;
          client_fd = client_fd;
          state = read_header;
          header_bytes_read = 0;
          payload_bytes_read = 0;
          expected_payload_len = 0;
          write_len = 0;
          write_offset = 0;
          name_len = 0;
          has_name = false;
          epollout_enabled = false;
          closed = false;
          msg_queue = empty_queue;
        },
      )
    ]

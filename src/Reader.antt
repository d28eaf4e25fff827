-- ===== src/Reader.antt =====
-- handle_client_read.c: the state machine that puts headers and payloads together from partial reads.
pub mod Chunks
pub mod Complete
pub mod Decode
pub mod Finish
pub mod Frames
pub mod Going
pub mod Position
pub mod Returns
pub mod Rounds
pub mod Sent
pub mod Serve
pub mod Steps
use c_chat_server.Base.{
  ℕ, zero, suc, ◌+◌, ◌-◌, Bytes, List, [], ◌∷◌, Option, none, some, Bool, true, false, M, pure,
  fault, checked, ◌>>=◌, ◌>>◌, ltb, ◌==◌, if◌then◌else◌, length, memcpy,
}
use c_chat_server.Os.{
  Os, Endian, Io, ok, again, interrupted, failed, Status, success, failure, call,
}
use c_chat_server.Protocol.{header_size, header_at, ntohl}
use c_chat_server.Client.{
  ClientInfo, ReadState, read_header, read_payload, buf_size, append_to_client_buffer,
  clear_client_buffer,
}
use c_chat_server.Text.{copy_buffer}
use c_chat_server.Payload.{process_payload}
use c_chat_server.Server.{Server, get_client, put_client, lift}

-- What a round of the loop comes to: the function returns, the loop goes on, or a payload is
-- complete.
pub data Round : Type 0 where
  stop : Status → Round
  next complete : Round

-- The number of bytes that the round asks for.
wanted_in : ClientInfo → ReadState → ℕ
wanted_in c read_header = header_size - c.header_bytes_read
wanted_in c read_payload = c.expected_payload_len - c.payload_bytes_read

unfoldable pub wanted : ClientInfo → ℕ
unfolding wanted_in
wanted c = wanted_in c c.state

-- All six header bytes are there.
parse_header : Endian → ClientInfo → Round × ClientInfo
parse_header order c =
    let header = header_at order c.header_buffer in
    let parsed = record c {
      expected_payload_len = ntohl order header.msg_len;
      msg_type = header.msg_type;
      msg_done = header.msg_done;
    } in
    if ltb buf_size parsed.expected_payload_len then (stop failure, parsed) else (
      next,
      record parsed { state = read_payload; header_bytes_read = 0; payload_bytes_read = 0 },
    )

-- `bs` came in for the header.
header_bytes_in : Endian → ClientInfo → Bytes → Option (Round × ClientInfo)
header_bytes_in order c bs = elim (memcpy c.header_buffer c.header_bytes_read bs) [
  | none ↦ none
  | some buffer ↦
      let c' = record c {
        header_buffer = buffer;
        header_bytes_read = c.header_bytes_read + length bs;
      } in
      some (
        if length bs == 0
        then (stop failure, c)
        else if ltb c'.header_bytes_read header_size
        then (stop success, c')
        else if ltb header_size c'.header_bytes_read
        then (stop failure, c')
        else parse_header order c')
]

-- `bs` came in for the payload; no bytes are as good as any.
payload_bytes_in : ClientInfo → Bytes → Option (Round × ClientInfo)
payload_bytes_in c bs = elim (memcpy c.payload_buffer c.payload_bytes_read bs) [
  | none ↦ none
  | some buffer ↦
      let c' = record c {
        payload_buffer = buffer;
        payload_bytes_read = c.payload_bytes_read + length bs;
      } in
      some (
        if ltb c'.payload_bytes_read c'.expected_payload_len
        then (stop success, c')
        else if ltb c'.expected_payload_len c'.payload_bytes_read
        then (stop failure, c')
        else (complete, c'))
]

-- `bs` came in.
bytes_in : Endian → ClientInfo → Bytes → ReadState → Option (Round × ClientInfo)
bytes_in order c bs read_header = header_bytes_in order c bs
bytes_in order c bs read_payload = payload_bytes_in c bs

-- A round of the loop on the answer of `read`.
unfoldable pub receive : Endian → ClientInfo → Io Bytes → Option (Round × ClientInfo)
unfolding bytes_in header_bytes_in payload_bytes_in parse_header
receive order c again = some (stop success, c)
receive order c interrupted = some (stop failure, c)
receive order c failed = some (stop failure, c)
receive order c (ok bs) = bytes_in order c bs c.state

-- Back to the next header.
unfoldable pub next_header : ClientInfo → ClientInfo
next_header c = record c { state = read_header; header_bytes_read = 0; expected_payload_len = 0 }

module _ (os : Os) (fuel : ℕ) where
  -- A message is done: it is copied, processed, and the buffer cleared.
  pub finish_message : (info : ℕ) → M (Server os.World) Status
  finish_message info = do
    c ← get_client info
    payload_copy ← lift (copy_buffer os c.partial_msg c.partial_len)
    r ← process_payload os fuel info payload_copy
    elim r [
      | failure ↦ pure failure
      | success ↦ do
        c' ← get_client info
        cleared ← lift (clear_client_buffer c')
        put_client info cleared.1
        pure success
    ]

  -- A payload is complete. A failed append is only logged.
  unfoldable pub payload_complete : (info : ℕ) → M (Server os.World) Status
  unfolding finish_message
  payload_complete info = do
    c ← get_client info
    appended ← lift (append_to_client_buffer os c)
    put_client info appended.1
    r ← if c.msg_done == 0 then pure success else finish_message info
    elim r [
      | failure ↦ pure failure
      | success ↦ do c' ← get_client info; put_client info (next_header c'); pure success
    ]

  -- One round of fuel is one call of `read`.
  pub handle_client_read : (rounds info : ℕ) → M (Server os.World) Status
  handle_client_read zero info = fault
  handle_client_read (suc rounds) info = do
    c ← get_client info
    answer ← lift (call (os.read c.client_fd (wanted c)))
    step ← checked (receive os.byte_order c answer)
    put_client info step.1
    elim step.0 [
      | stop r ↦ pure r
      | next ↦ handle_client_read rounds info
      | complete ↦ do
        r ← payload_complete info
        elim r [ failure ↦ pure failure | success ↦ handle_client_read rounds info ]
    ]

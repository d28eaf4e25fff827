-- ===== src/Transfer.antt =====
-- protocol.c: headers, payloads and packets over `read_all` and `write_all`.
pub mod Sending
pub mod Receiving
use c_chat_server.Base.{
  ℕ, ◌+◌, Bytes, [], ◌∷◌, Option, none, some, M, pure, checked, ◌>>=◌, memcpy, ◌==◌, if◌then◌else◌,
}
use c_chat_server.Os.{Os, Count, count, error, call}
use c_chat_server.Protocol.{MsgHeader, header_size, header_bytes, header_at, ntohl}
use c_chat_server.Io.{read_all, write_all}

module _ (os : Os) (fuel : ℕ) where
  -- The struct is its six bytes in memory.
  unfoldable pub read_header : (fd : ℕ) → (header_out : Bytes) → M os.World (Count × Bytes)
  read_header fd header_out = read_all os fuel fd header_out header_size

  -- The payload and its NUL; `payload_out` is NULL when there is no memory.
  unfoldable pub read_payload : (fd msg_len : ℕ) → M os.World (Count × Option Bytes)
  read_payload fd msg_len = do
    block ← call (os.malloc (msg_len + 1))
    elim block [
      | none ↦ pure (error, none)
      | some b ↦ do
        ended ← checked (memcpy b msg_len (0 ∷ []))
        r ← read_all os fuel fd ended msg_len
        pure (r.0, some r.1)
    ]

  -- A count of 0 or an error after the payload frees it; `payload_out` then dangles, here `none`.
  read_body : (fd : ℕ) → Bytes → M os.World (Count × Bytes × Option Bytes)
  unfolding read_payload
  read_body fd header = do
    let msg_len = ntohl os.byte_order (header_at os.byte_order header).msg_len
    block ← call (os.malloc msg_len)
    elim block [
      | none ↦ pure (error, header, none)
      | some _ ↦ do
        r ← read_payload fd msg_len
        pure (elim r.0 [
          | error ↦ (error, header, none)
          | count n ↦ if n == 0 then (count n, header, none) else (count n, header, r.1)
        ])
    ]

  unfoldable pub read_packet :
      (fd : ℕ) → (header_out : Bytes) → M os.World (Count × Bytes × Option Bytes)
  unfolding read_header read_body
  read_packet fd header_out = do
    r ← read_header fd header_out
    elim r.0 [
      | error ↦ pure (error, r.1, none)
      | count n ↦ if n == 0 then pure (count n, r.1, none) else read_body fd r.1
    ]

  unfoldable pub write_header : (fd : ℕ) → MsgHeader → M os.World Count
  write_header fd header = write_all os fuel fd (header_bytes os.byte_order header) header_size

  unfoldable pub write_payload : (fd : ℕ) → Bytes → (msg_len : ℕ) → M os.World Count
  write_payload fd payload msg_len = write_all os fuel fd payload msg_len

  unfoldable pub write_packet : (fd : ℕ) → MsgHeader → Bytes → (msg_len : ℕ) → M os.World Count
  unfolding write_header write_payload
  write_packet fd header payload msg_len = do
    r ← write_header fd header
    elim r [ error ↦ pure error | count _ ↦ write_payload fd payload msg_len ]

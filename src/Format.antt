-- ===== src/Format.antt =====
-- formatting.c: the chat and whisper lines, built byte by byte in a block of the computed size.
pub mod Lines
use c_chat_server.Base.{
  ℕ, ◌+◌, Bytes, List, [], ◌∷◌, ◌++◌, Option, none, some, M, pure, fault, checked, ◌>>=◌, length,
  leb, if◌then◌else◌, memcpy, slice,
}
use c_chat_server.Os.{Os, call}
use c_chat_server.Client.{ClientInfo}

-- `memcpy(dst + index, piece, n); index += n;` for each piece in turn.
pub put_pieces : Bytes → (index : ℕ) → List Bytes → Option (Bytes × ℕ)
put_pieces dst index [] = some (dst, index)
put_pieces dst index (piece ∷ pieces) = elim (memcpy dst index piece) [
  | none ↦ none
  | some dst' ↦ put_pieces dst' (index + length piece) pieces
]

-- " [Whisper from: "
abbrev pub whisper_thing : Bytes
whisper_thing =
    32 ∷ b'[' ∷ b'W' ∷ b'h' ∷ b'i' ∷ b's' ∷ b'p' ∷ b'e' ∷ b'r' ∷ 32 ∷ b'f' ∷ b'r' ∷ b'o' ∷ b'm'
    ∷ b':' ∷ 32 ∷ []

abbrev pub newline : Bytes
newline = 10 ∷ []

-- The pieces, the final NUL, and the check of the index.
pub fill_line : {W : Type 0} → Bytes → (string_len : ℕ) → List Bytes → M W (Option Bytes)
fill_line block string_len pieces = do
  filled ← checked (put_pieces block 0 pieces)
  ended ← checked (memcpy filled.0 filled.1 (0 ∷ []))
  pure (if leb string_len filled.1 then none else some ended)

module _ (os : Os) where
  -- `get_timestamp`: on a failure the buffer that the callers read stays uninitialised.
  unfoldable pub get_timestamp : M os.World Bytes
  get_timestamp = do text ← call os.local_time; checked text

  unfoldable pub format_chat_message : ClientInfo → M os.World (Option Bytes)
  format_chat_message client = do
    timestamp ← get_timestamp
    let string_len = length timestamp + 1 + client.name_len + 2 + client.partial_len + 2
    block ← call (os.malloc string_len)
    elim block [
      | none ↦ pure none
      | some b ↦ do
        name ← checked (slice client.name 0 client.name_len)
        msg ← checked client.partial_msg
        text ← checked (slice msg 0 client.partial_len)
        fill_line b string_len
            (timestamp ∷ (32 ∷ []) ∷ name ∷ (b':' ∷ 32 ∷ []) ∷ text ∷ newline ∷ [])
    ]

  unfoldable pub format_whisper_message :
      ClientInfo → Bytes → (msg_len : ℕ) → M os.World (Option Bytes)
  format_whisper_message sender msg msg_len = do
    timestamp ← get_timestamp
    let string_len = length timestamp + 2 + length whisper_thing + sender.name_len + 3 + msg_len + 2
    block ← call (os.malloc string_len)
    elim block [
      | none ↦ pure none
      | some b ↦ do
        name ← checked (slice sender.name 0 sender.name_len)
        text ← checked (slice msg 0 msg_len)
        fill_line b string_len
            (timestamp ∷ whisper_thing ∷ name ∷ (b']' ∷ b':' ∷ 32 ∷ []) ∷ text ∷ newline ∷ [])
    ]

-- ===== src/Protocol.antt =====
-- protocol.c and protocol.h: the packed header, its bytes in memory, and `create_header`.
pub mod Wire
use c_chat_server.Base.{
  ℕ, zero, suc, ◌+◌, ◌*◌, ◌/◌, ◌%◌, ◌^◌, Bytes, [], ◌∷◌, ◌++◌, Option, none, some, Bool, true,
  false, get_or, if◌then◌else◌,
}
use c_chat_server.Os.{Endian, little, big, Status, success, failure}

abbrev pub msg_type_normal : ℕ
msg_type_normal = 0x00

abbrev pub msg_type_admin : ℕ
msg_type_admin = 0x01

abbrev pub msg_size_limit : ℕ
msg_size_limit = 65536

-- The packed struct: its fields hold what the machine reads, so `msg_len` is in network order.
pub record MsgHeader : Type 0 where
  pub msg_len : ℕ
  pub msg_type : ℕ
  pub msg_done : ℕ

-- `sizeof(struct msg_header)`
abbrev pub header_size : ℕ
header_size = 6

-- The four bytes of a `uint32_t` in memory.
pub u32_bytes : Endian → ℕ → Bytes
u32_bytes little x = (x % 256) ∷ (x / 256 % 256) ∷ (x / 65536 % 256) ∷ (x / 16777216 % 256) ∷ []
u32_bytes big x = (x / 16777216 % 256) ∷ (x / 65536 % 256) ∷ (x / 256 % 256) ∷ (x % 256) ∷ []

pub u32_of_bytes : Endian → (a b c d : ℕ) → ℕ
u32_of_bytes little a b c d = a + 256 * b + 65536 * c + 16777216 * d
u32_of_bytes big a b c d = d + 256 * c + 65536 * b + 16777216 * a

-- `htonl` and `ntohl` give the value whose bytes in memory are those of `x`, most significant first.
pub htonl : Endian → ℕ → ℕ
htonl little x =
    x / 16777216 % 256 + 256 * (x / 65536 % 256) + 65536 * (x / 256 % 256) + 16777216 * (x % 256)
htonl big x = x % 4294967296

unfoldable pub ntohl : Endian → ℕ → ℕ
unfolding htonl
ntohl e x = htonl e x

-- The bytes of the struct, as `memcpy` and `write` see them.
unfoldable pub header_bytes : Endian → MsgHeader → Bytes
unfolding u32_bytes
header_bytes e h = u32_bytes e h.msg_len ++ h.msg_type ∷ h.msg_done ∷ []

-- The struct at the start of a buffer: `(struct msg_header *)buffer`.
unfoldable pub header_at : Endian → Bytes → MsgHeader
unfolding u32_of_bytes
header_at e b = record {
  msg_len = u32_of_bytes e (get_or b 0 0) (get_or b 1 0) (get_or b 2 0) (get_or b 3 0);
  msg_type = get_or b 4 0;
  msg_done = get_or b 5 0;
}

abbrev pub flag : Bool → ℕ
flag true = 1
flag false = 0

-- `header_out` is `none` for NULL.
unfoldable pub create_header :
    Endian
    → Option MsgHeader
    → (msg_len msg_type : ℕ) → (msg_done : Bool) → Status × Option MsgHeader
unfolding htonl
create_header e none msg_len msg_type msg_done = (failure, none)
create_header e (some h) msg_len msg_type msg_done = (
  success,
  some (record {
    msg_len = htonl e (msg_len % 2 ^ 32);
    msg_type = msg_type;
    msg_done = flag msg_done;
  }),
)

-- ===== src/Protocol/Wire.antt =====
-- The header on the wire: what `create_header` writes is what the reader of another machine parses.
use c_chat_server.Base.{ℕ, ◌/◌, ◌%◌, ◌<◌, ◌^◌, ◌≡◌, refl, arith, [], ◌∷◌, ◌++◌, length, Bool, some}
use c_chat_server.Os.{Endian, little, big, success}
use c_chat_server.Protocol.{
  MsgHeader, header_size, htonl, ntohl, header_bytes, header_at, create_header, flag, u32_bytes,
}

pub length-header_bytes : (e : Endian) (h : MsgHeader) → length (header_bytes e h) ≡ header_size
unfolding header_bytes
length-header_bytes little h = refl
length-header_bytes big h = refl

-- The header that `create_header` makes of its arguments.
pub header_of : Endian → (msg_len msg_type : ℕ) → Bool → MsgHeader
unfolding htonl
header_of e n t d = record { msg_len = htonl e (n % 2 ^ 32); msg_type = t; msg_done = flag d }

pub create_header-some :
    (e : Endian) (h : MsgHeader) (n t : ℕ) (d : Bool)
    → create_header e (some h) n t d ≡ (success, some (header_of e n t d))
unfolding create_header header_of
create_header-some e h n t d = refl

-- The length stands on the wire most significant byte first, whatever the machine's order.
pub header_bytes-big :
    (e : Endian) (n t : ℕ) (d : Bool)
    → n < 2 ^ 32
    → header_bytes e (header_of e n t d)
      ≡ (n / 16777216) ∷ (n / 65536 % 256) ∷ (n / 256 % 256) ∷ (n % 256) ∷ t ∷ flag d ∷ []
unfolding header_bytes header_of
header_bytes-big little n t d h = ground arith
header_bytes-big big n t d h = ground arith

-- For a length below 2 ^ 32, the header that `create_header` makes on a machine of one byte order is
-- six bytes long, and a machine of any byte order that reads those bytes as a struct finds the type,
-- the flag and, through `ntohl`, the length.
pub header-roundtrip :
    (e e' : Endian) (h : MsgHeader) (n t : ℕ) (d : Bool)
    → n < 2 ^ 32
    → (out : MsgHeader) × (create_header e (some h) n t d ≡ (success, some out))
      × (length (header_bytes e out) ≡ header_size)
      × (ntohl e' (header_at e' (header_bytes e out)).msg_len ≡ n)
      × ((header_at e' (header_bytes e out)).msg_type ≡ t)
      × ((header_at e' (header_bytes e out)).msg_done ≡ flag d)
unfolding header_at ntohl
header-roundtrip e little h n t d lt = (
  header_of e n t d,
  create_header-some e h n t d,
  length-header_bytes e _,
  rw (header_bytes-big e n t d lt) (omega arith),
  rw (header_bytes-big e n t d lt),
  rw (header_bytes-big e n t d lt),
)
header-roundtrip e big h n t d lt = (
  header_of e n t d,
  create_header-some e h n t d,
  length-header_bytes e _,
  rw (header_bytes-big e n t d lt) (omega arith),
  rw (header_bytes-big e n t d lt),
  rw (header_bytes-big e n t d lt),
)

pub u32_bytes-four :
    (e : Endian) (x : ℕ)
    → (a : ℕ) × (b : ℕ) × (c : ℕ) × (d : ℕ) × (u32_bytes e x ≡ a ∷ b ∷ c ∷ d ∷ [])
unfolding u32_bytes
u32_bytes-four little x = (_, _, _, _, refl)
u32_bytes-four big x = (_, _, _, _, refl)

-- A length in network order, and any two bytes behind it, read by a machine of any byte order.
pub htonl-header_at :
    (e e' : Endian) (n t d : ℕ)
    → n < 2 ^ 32
    → ntohl e' (header_at e' (u32_bytes e (htonl e n) ++ t ∷ d ∷ [])).msg_len ≡ n
unfolding u32_bytes htonl header_at ntohl
htonl-header_at little little n t d less = ground arith
htonl-header_at little big n t d less = ground arith
htonl-header_at big little n t d less = ground arith
htonl-header_at big big n t d less = ground arith

-- ===== src/Client/Name.antt =====
-- `store_client_name`: the message becomes the name, cut to fit the field with its terminator.
use Prim.Native.Nat.{min}
use c_chat_server.Base.{
  take-min, ap, refl, ℕ, ◌+◌, ◌≤◌, ◌≡◌, refl, some, arith, leb, Bytes, length, take, [], ◌∷◌, ◌++◌,
  memcpy-some, slice-some, length-blit, take-blit, blit, length-take, ◌∙◌, if◌then◌else◌,
}
use c_chat_server.Os.{success}
use c_chat_server.Client.{ClientInfo, name_max, store_client_name}
use c_chat_server.Client.Buffer.{HasBuffer, message}

cut-min : (n : ℕ) → (if leb name_max n then 63 else n) ≡ min 63 n
cut-min n = ground arith

-- For a client with a valid message buffer and a name field of 64 bytes, `store_client_name`
-- returns 0 without an access out of bounds. The name field keeps its size and starts with the
-- message, cut to its first 63 bytes, and a NUL; `name_len` and `partial_len` are the length of the
-- cut message, and no other field changes.
pub store_client_name-take :
    {W : Type 0} (c : ClientInfo) (block : Bytes) (w : W)
    → HasBuffer c block
    → length c.name ≡ name_max
    → (name' : Bytes) × (store_client_name c w
        ≡ some (
          (
            success,
            record c {
              partial_len = min 63 c.partial_len;
              name = name';
              name_len = min 63 c.partial_len;
            },
          ),
          w,
        ))
      × (length name' ≡ name_max)
      × (take (min 63 c.partial_len + 1) name' ≡ take 63 (message c block) ++ 0 ∷ [])
unfolding store_client_name
store_client_name-take c block w b size =
    let len = min 63 c.partial_len in
    let bytes = take len block in
    let n : length bytes ≡ len = omega (arith, length-take len block, b.within, b.used) in
    let copied = blit c.name 0 bytes in
    let fits : 0 + length bytes ≤ length c.name = omega arith in
    let same_size : length copied ≡ name_max = length-blit c.name 0 bytes fits ∙ size in
    let ended = blit copied len (0 ∷ []) in
    let room : len + 1 ≤ length copied = omega arith in
    let is_len = cut-min c.partial_len in
    let source = slice-some block 0 len (omega (arith, b.within, b.used)) in
    let first = memcpy-some c.name 0 bytes fits in
    let second = memcpy-some copied len (0 ∷ []) room in
    (
      ended,
      rw (b.is_block, is_len, source, first, second),
      length-blit copied len (0 ∷ []) room ∙ same_size,
      take-blit copied len (0 ∷ []) (len + 1) room refl
          ∙ ap (λ x. x ++ 0 ∷ [])
              (take-blit c.name 0 bytes len fits (omega arith) ∙ take-min 63 c.partial_len block),
    )

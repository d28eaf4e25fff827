-- ===== src/Text.antt =====
-- The C library's functions on strings, as the program uses them, and utils.c. A string is the bytes
-- before its NUL.
pub mod Copies
pub mod Strings
pub mod Tokens
use c_chat_server.Base.{
  ℕ, zero, suc, ◌+◌, Bytes, [], ◌∷◌, Option, none, some, Bool, true, false, ◌&&◌, map, M, pure,
  checked, ◌>>=◌, length, leb, ◌==◌, if◌then◌else◌, memcpy, slice,
}
use c_chat_server.Os.{Os, call}

-- The string at the start of a buffer; `none` when there is no NUL in its bounds.
unfoldable pub c_string : Bytes → Option Bytes
c_string [] = none
c_string (b ∷ bs) = elim (b == 0) [
  | true ↦ some []
  | false ↦ elim (c_string bs) [ none ↦ none | some s ↦ some (b ∷ s) ]
]

-- `strcmp(s, t) == 0`
unfoldable pub str_eq : Bytes → Bytes → Bool
str_eq [] [] = true
str_eq [] (c ∷ t) = false
str_eq (b ∷ s) [] = false
str_eq (b ∷ s) (c ∷ t) = b == c && str_eq s t

abbrev pub space : ℕ
space = 32

pub skip_spaces : Bytes → Bytes
skip_spaces [] = []
skip_spaces (b ∷ s) = let rest = skip_spaces s in if b == space then rest else b ∷ s

-- The token up to the next space, and the string behind that space.
pub cut_token : Bytes → Bytes × Bytes
cut_token [] = ([], [])
cut_token (b ∷ s) = let rest = cut_token s in if b == space then ([], s) else (b ∷ rest.0, rest.1)

token_of : Bytes → Option Bytes × Bytes
token_of [] = (none, [])
token_of (b ∷ s) = let cut = cut_token (b ∷ s) in (some cut.0, cut.1)

-- `strtok_r(s, " ", &saveptr)`: the token, or `none` for NULL, and the string at `saveptr`.
unfoldable pub strtok_r : Bytes → Option Bytes × Bytes
unfolding token_of skip_spaces cut_token
strtok_r s = token_of (skip_spaces s)

lower : ℕ → ℕ
lower b = if leb b'A' b && leb b b'Z' then b + 32 else b

unfoldable pub make_lowercase : Bytes → Bytes
unfolding lower
make_lowercase s = map lower s

module _ (os : Os) where
  -- `buf_src` is `none` for NULL; so is the result.
  unfoldable pub copy_buffer : Option Bytes → (size : ℕ) → M os.World (Option Bytes)
  copy_buffer buf_src size = do
    block ← call (os.malloc (size + 1))
    elim block [
      | none ↦ pure none
      | some b ↦ do
        src ← checked buf_src
        bytes ← checked (slice src 0 size)
        copied ← checked (memcpy b 0 bytes)
        ended ← checked (memcpy copied size (0 ∷ []))
        pure (some ended)
    ]

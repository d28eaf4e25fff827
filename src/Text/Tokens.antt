-- ===== src/Text/Tokens.antt =====
-- Strings and tokens that exist.
use mathlib.Core.Option.{some-injective}
use c_chat_server.Base.{
  ℕ, ◌≤◌, ◌≡◌, refl, ap, Bytes, [], ◌∷◌, ◌++◌, some, false, length, Bool-cases, inl, inr,
  Option-cases, take, ◌==◌, arith, if◌then◌else◌,
}
use c_chat_server.Text.{c_string, strtok_r, skip_spaces, cut_token, token_of, space}

-- A NUL inside the block ends a string that is no longer than what is before it.
pub c_string-bound :
    (xs ys : Bytes) → (t : Bytes) × (c_string (xs ++ 0 ∷ ys) ≡ some t) × (length t ≤ length xs)
unfolding c_string
c_string-bound [] ys = ([], refl, omega arith)
c_string-bound (x ∷ xs) ys = elim (Bool-cases (x == 0)) [
  | inl hit ↦ ([], rw (hit, c_string), omega arith)
  | inr miss ↦
      let (t, is, short) = c_string-bound xs ys in
      (x ∷ t, rw (miss, c_string, is), omega (arith, short))
]

-- What is behind the NUL does not count.
pub c_string-behind : (xs ys : Bytes) → c_string (xs ++ 0 ∷ ys) ≡ c_string (xs ++ 0 ∷ [])
unfolding c_string
c_string-behind [] ys = refl
c_string-behind (x ∷ xs) ys = elim (Bool-cases (x == 0)) [
  | inl hit ↦ rw (hit, c_string)
  | inr miss ↦ rw (miss, c_string, c_string-behind xs ys)
]

-- The string is what the block begins with.
pub take-c_string : (xs t : Bytes) → c_string xs ≡ some t → take (length t) xs ≡ t
unfolding c_string
take-c_string [] t h = absurd (cc h)
take-c_string (x ∷ xs) t h = elim (Bool-cases (x == 0)) [
  | inl hit ↦ let e : [] ≡ t = some-injective _ _ (rw (hit, c_string) at h) in rw⁻¹ e
  | inr miss ↦ elim (Option-cases (c_string xs)) [
    | inl nothing ↦ absurd (cc (rw (miss, c_string, nothing) at h))
    | inr (u, is) ↦
        let e : x ∷ u ≡ t = some-injective _ _ (rw (miss, c_string, is) at h) in
        rw⁻¹ e (ap (◌∷◌ x) (take-c_string xs u is))
  ]
]

-- A string that begins with another byte than a space has a first token.
pub strtok_r-some :
    (b : ℕ) (s : Bytes) → (b == space) ≡ false → (t : Bytes) × ((strtok_r (b ∷ s)).0 ≡ some t)
unfolding strtok_r token_of skip_spaces
strtok_r-some b s miss =
    ((cut_token (b ∷ s)).0, rw (miss, skip_spaces, token_of, cut_token, miss, if◌then◌else◌))

-- Where something is left behind the token, there is one.
pub strtok_r-rest :
    (s : Bytes) (b : ℕ) (bs : Bytes)
    → (strtok_r s).1 ≡ b ∷ bs
    → (t : Bytes) × ((strtok_r s).0 ≡ some t)
unfolding strtok_r token_of
strtok_r-rest s b bs h = there (skip_spaces s) h
  where
    there : (x : Bytes) → (token_of x).1 ≡ b ∷ bs → (t : Bytes) × ((token_of x).0 ≡ some t)
    there [] e = absurd (cc e)
    there (x ∷ xs) e = (_, refl)

skip_spaces-bound : (s : Bytes) → length (skip_spaces s) ≤ length s
unfolding skip_spaces
skip_spaces-bound [] = omega arith
skip_spaces-bound (b ∷ s) = elim (Bool-cases (b == space)) [
  | inl hit ↦ rw (hit, skip_spaces) (omega (arith, skip_spaces-bound s))
  | inr miss ↦ rw (miss, skip_spaces) (omega arith)
]

cut_token-bound : (s : Bytes) → length (cut_token s).1 ≤ length s
unfolding cut_token
cut_token-bound [] = omega arith
cut_token-bound (b ∷ s) = elim (Bool-cases (b == space)) [
  | inl hit ↦ rw (hit, cut_token) (omega arith)
  | inr miss ↦ rw (miss, cut_token) (omega (arith, cut_token-bound s))
]

-- What is left behind the token is no longer than the string.
pub strtok_r-bound : (s : Bytes) → length (strtok_r s).1 ≤ length s
unfolding strtok_r token_of
strtok_r-bound s = let h = skip_spaces-bound s in behind (skip_spaces s) h
  where
    behind : (x : Bytes) → length x ≤ length s → length (token_of x).1 ≤ length s
    behind [] h = omega arith
    behind (x ∷ xs) h = omega (arith, cut_token-bound (x ∷ xs))

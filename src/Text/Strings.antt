-- ===== src/Text/Strings.antt =====
-- The laws of the string functions: where a string ends, equality, and tokens.
use c_chat_server.Base.{
  ℕ, suc, ◌≡◌, ◌≢◌, refl, arith, Bytes, [], ◌∷◌, ◌++◌, Option, some, none, All, ◌⊎◌, inl, inr,
  Bool-cases, ap, ◌==◌, true, false, replicate,
}
use c_chat_server.Text.{c_string, str_eq, space, cut_token, token_of, strtok_r}

-- `strlen` stops at the first NUL.
pub c_string-append : (xs ys : Bytes) → All (λ b. b ≢ 0) xs → c_string (xs ++ 0 ∷ ys) ≡ some xs
unfolding c_string
c_string-append [] ys h = refl
c_string-append (b ∷ xs) ys h =
    let e : (b == 0) ≡ false = ground (arith, h.0) in rw (e, c_string, c_string-append xs ys h.1)

pub eq_of_str_eq : (s t : Bytes) → str_eq s t ≡ true → s ≡ t
unfolding str_eq
eq_of_str_eq [] [] h = refl
eq_of_str_eq [] (c ∷ t) h = absurd (ground arith)
eq_of_str_eq (b ∷ s) [] h = absurd (ground arith)
eq_of_str_eq (b ∷ s) (c ∷ t) h = ground (arith, eq_of_str_eq s t)

pub str_eq_refl : (s : Bytes) → str_eq s s ≡ true
unfolding str_eq
str_eq_refl [] = refl
str_eq_refl (b ∷ s) = ground (arith, str_eq_refl s)

-- A token is cut off at the first space, which is dropped.
data Cuts (s token rest : Bytes) : Type 0 where
  at_space : s ≡ token ++ space ∷ rest → All (λ b. b ≢ space) token → Cuts s token rest
  at_end : s ≡ token → rest ≡ [] → All (λ b. b ≢ space) token → Cuts s token rest

cut_token-Cuts : (s : Bytes) → Cuts s (cut_token s).0 (cut_token s).1
unfolding cut_token
cut_token-Cuts [] = at_end refl refl tt
cut_token-Cuts (b ∷ s) = elim (Bool-cases (b == space)) [
  | inl hit ↦ let e : b ≡ space = ground arith in rw hit (at_space (rw e) tt)
  | inr miss ↦
      let ne : b ≢ space = ground arith in
      rw miss (elim (cut_token-Cuts s) [
        | at_space e h ↦ at_space (ap (◌∷◌ b) e) (ne, h)
        | at_end e r h ↦ at_end (ap (◌∷◌ b) e) r (ne, h)
      ])
]

-- What `strtok_r` comes to on the string `s`: no token, and nothing behind it, when there are only
-- spaces; or the first run of other bytes, with the string behind the space that ends it.
pub data Tokens (s : Bytes) : Option Bytes × Bytes → Type 0 where
  no_token :
      {r : Option Bytes × Bytes} (k : ℕ) → r ≡ (none, []) → s ≡ replicate k space → Tokens s r
  token :
      {r : Option Bytes × Bytes} (k : ℕ) (t rest : Bytes)
      → r ≡ (some t, rest)
      → t ≢ []
      → All (λ b. b ≢ space) t
      → (s ≡ replicate k space ++ (t ++ space ∷ rest))
        ⊎ ((s ≡ replicate k space ++ t) × (rest ≡ []))
      → Tokens s r

-- A string that does not start with a space.
token_of-Tokens : (b : ℕ) (s : Bytes) → b ≢ space → Tokens (b ∷ s) (token_of (b ∷ s))
unfolding token_of
token_of-Tokens b s ne =
    let kept : (cut_token (b ∷ s)).0 ≢ [] = λ h. first b s ne h in
    elim (cut_token-Cuts (b ∷ s)) [
      | at_space e h ↦ token 0 (cut_token (b ∷ s)).0 (cut_token (b ∷ s)).1 refl kept h (inl e)
      | at_end e r h ↦ token 0 (cut_token (b ∷ s)).0 (cut_token (b ∷ s)).1 refl kept h (inr (e, r))
    ]
  where
    first : (b : ℕ) (s : Bytes) → b ≢ space → (cut_token (b ∷ s)).0 ≡ [] → ⊥
    first b s ne h = unfold cut_token in ground arith

more-Tokens : (s : Bytes) (r : Option Bytes × Bytes) → Tokens s r → Tokens (space ∷ s) r
more-Tokens s r (no_token k e h) = no_token (suc k) e (ap (◌∷◌ space) h)
more-Tokens s r (token k t rest e ne h (inl split)) =
    token (suc k) t rest e ne h (inl (ap (◌∷◌ space) split))
more-Tokens s r (token k t rest e ne h (inr (split, done))) =
    token (suc k) t rest e ne h (inr (ap (◌∷◌ space) split, done))

-- For every string, `strtok_r` comes to one of `Tokens`: it returns NULL exactly for a string of
-- spaces only, with nothing left behind; and else the first token, which is not empty and has no
-- space, with the rest of the string behind the one space that ended it.
pub strtok_r-Tokens : (s : Bytes) → Tokens s (strtok_r s)
unfolding strtok_r
strtok_r-Tokens [] = no_token 0 refl refl
strtok_r-Tokens (b ∷ s) = elim (Bool-cases (b == space)) [
  | inl hit ↦
      let e : b ≡ space = ground arith in rw hit (rw e (more-Tokens s _ (strtok_r-Tokens s)))
  | inr miss ↦ rw miss (token_of-Tokens b s (ground arith))
]

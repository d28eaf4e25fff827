-- ===== src/Handlers/Target.antt =====
-- The target of a whisper: the first client of the list with that name.
use mathlib.Core.Option.{some-injective}
use c_chat_server.Base.{
  ℕ, ◌≡◌, ◌≢◌, refl, ap, sym, ◌∙◌, Bytes, List, [], ◌∷◌, ◌++◌, Option, none, some, All, inl, inr,
  Bool-cases, Option-cases, false, ◌>>=◌,
}
use c_chat_server.Client.{ClientInfo}
use c_chat_server.Text.{c_string, str_eq}
use c_chat_server.Text.Strings.{eq_of_str_eq, str_eq_refl}
use c_chat_server.Server.{Server, get_client-some}
use c_chat_server.Handlers.{find_target}
use c_chat_server.Os.{Os}

-- The name that the C library sees in the client at an address.
abbrev name_in : Option ClientInfo → Option Bytes
name_in none = none
name_in (some c) = c_string c.name

abbrev pub name_at : {W : Type 0} → Server W → ℕ → Option Bytes
name_at s p = name_in (s.clients p)

module _ {W : Type 0} (s : Server W) (target : Bytes) where
  -- The first entry with the name; or no entry has it.
  pub data Found (l : List ℕ) : Option ℕ → Type 0 where
    first :
        {r : Option ℕ} (before after : List ℕ) (p : ℕ)
        → r ≡ some p
        → l ≡ before ++ p ∷ after
        → All (λ q. name_at s q ≢ some target) before
        → name_at s p ≡ some target
        → Found l r
    nobody : {r : Option ℕ} → r ≡ none → All (λ q. name_at s q ≢ some target) l → Found l r

  more-Found :
      (q : ℕ) (l : List ℕ) (r : Option ℕ) → name_at s q ≢ some target → Found l r → Found (q ∷ l) r
  more-Found q l r ne (first before after p e split others here) =
      first (q ∷ before) after p e (ap (◌∷◌ q) split) (ne, others) here
  more-Found q l r ne (nobody e others) = nobody e (ne, others)

pub named-client :
    {W : Type 0} (s : Server W) (p : ℕ) {n : Bytes}
    → name_at s p ≡ some n
    → (c : ClientInfo) × (s.clients p ≡ some c) × (c_string c.name ≡ some n)
named-client s p h = elim (Option-cases (s.clients p)) [
  | inl nothing ↦ absurd (cc (rw nothing at h))
  | inr (c, here) ↦ (c, here, rw here at h)
]

-- When every client of the list is allocated and has a name that ends in a NUL inside its field,
-- `find_target` changes nothing, and returns the first client of the list whose name is exactly the
-- target, or none when no client has that name.
pub find_target-Found :
    (os : Os) (fuel : ℕ) (s : Server os.World) (target : Bytes) (l : List ℕ)
    → All (λ p. (n : Bytes) × (name_at s p ≡ some n)) l
    → (r : Option ℕ) × (find_target os fuel (some target) l s ≡ some (r, s)) × Found s target l r
unfolding find_target
find_target-Found os fuel s target [] h = (none, refl, nobody refl tt)
find_target-Found os fuel s target (p ∷ l) ((n, named), h) =
    let (c, here, is) = named-client s p named in
    elim (Bool-cases (str_eq target n)) [
      | inl hit ↦
          let same : target ≡ n = eq_of_str_eq target n hit in
          (
            some p,
            rw (get_client-some p s here, ◌>>=◌, is, hit),
            first [] l p refl refl tt (named ∙ ap some (sym same)),
          )
      | inr miss ↦
          let (r, run, found) = find_target-Found os fuel s target l h in
          let ne : name_at s p ≢ some target =
            λ e. different target n miss (some-injective _ _ (sym named ∙ e)) in
          (
            r,
            rw (get_client-some p s here, ◌>>=◌, is, miss) run,
            more-Found s target p l r ne found,
          )
    ]
  where
    different : (t n : Bytes) → str_eq t n ≡ false → n ≡ t → ⊥
    different t n miss e = let same = str_eq_refl t in cc (rw e at miss)

-- ===== src/Server/Distinct.antt =====
-- A list of addresses without doubles, when entries leave it.
use mathlib.Core.Option.{some-injective}
use mathlib.Core.Path.{subst}
use mathlib.Core.List.{reverse-cons}
use c_chat_server.Base.{
  ℕ, zero, suc, ◌≡◌, ◌+◌, refl, arith, ap, sym, List, [], ◌∷◌, ◌++◌, Option, some, none, true,
  false, All, ◌==◌, Bool-cases, inl, inr, ◌⊎◌, ==_refl, reverse, get_elem?, length,
}
use c_chat_server.Server.{swap_remove, replace_by_last, last_of, drop_last}
use c_chat_server.Server.RemoveAll.{IsNot, IsDistinct}

apart : (p q : ℕ) → (p == q) ≡ false → (q == p) ≡ false
apart p q ne = ground arith

pub snoc-All : (P : ℕ → Type 0) (l : List ℕ) (p : ℕ) → All P l → P p → All P (l ++ p ∷ [])
snoc-All P [] p h v = (v, tt)
snoc-All P (q ∷ qs) p h v = (h.0, snoc-All P qs p h.1 v)

-- Each entry has the property, after the last one has moved to the front.
last-All :
    (P : ℕ → Type 0) (y : ℕ) (ys : List ℕ)
    → All P (y ∷ ys)
    → P (last_of y ys) × All P (drop_last y ys)
unfolding last_of drop_last
last-All P y [] (h, t) = (h, tt)
last-All P y (z ∷ zs) (h, t) = let r = last-All P z zs t in (r.0, (h, r.1))

last-Distinct :
    (y : ℕ) (ys : List ℕ)
    → IsDistinct (y ∷ ys)
    → IsNot (last_of y ys) (drop_last y ys) × IsDistinct (drop_last y ys)
unfolding last_of drop_last
last-Distinct y [] d = (tt, tt)
last-Distinct y (z ∷ zs) (ne, d) =
    let r = last-Distinct z zs d in
    let n = last-All (λ p. (p == y) ≡ false) z zs ne in
    ((apart (last_of z zs) y n.0, r.0), (n.1, r.1))

replace-All : (P : ℕ → Type 0) (qs : List ℕ) → All P qs → All P (replace_by_last qs)
unfolding replace_by_last
replace-All P [] h = tt
replace-All P (y ∷ ys) h = last-All P y ys h

replace-Distinct : (qs : List ℕ) → IsDistinct qs → IsDistinct (replace_by_last qs)
unfolding replace_by_last
replace-Distinct [] d = tt
replace-Distinct (y ∷ ys) d = last-Distinct y ys d

-- How an entry leaves a list that has a first one.
parts :
    (p q : ℕ) (qs rest : List ℕ)
    → swap_remove p (q ∷ qs) ≡ some rest
    → (((q == p) ≡ true) × (replace_by_last qs ≡ rest))
      ⊎ (((q == p) ≡ false) × (xs : List ℕ) × (swap_remove p qs ≡ some xs) × (q ∷ xs ≡ rest))
unfolding swap_remove
parts p q qs rest e = elim (Bool-cases (q == p)) [
  | inl hit ↦ inl (hit, some-injective _ _ (rw (hit, swap_remove) at e))
  | inr miss ↦
      let (xs, found, same) = by_rest (swap_remove p qs) refl (rw (miss, swap_remove) at e) in
      inr (miss, xs, found, same)
]
  where
    by_rest :
        (r : Option (List ℕ))
        → swap_remove p qs ≡ r
        → elim r [ none ↦ none | some xs ↦ some (q ∷ xs) ] ≡ some rest
        → (xs : List ℕ) × (swap_remove p qs ≡ some xs) × (q ∷ xs ≡ rest)
    by_rest none e' run = absurd (cc run)
    by_rest (some xs) e' run = (xs, e', some-injective _ _ run)

none_left : (p : ℕ) (rest : List ℕ) → swap_remove p [] ≡ some rest → ⊥
unfolding swap_remove
none_left p rest e = cc e

-- What is left when an entry is swapped out: nothing new.
pub swap_remove-All :
    (P : ℕ → Type 0) (p : ℕ) (l rest : List ℕ) → swap_remove p l ≡ some rest → All P l → All P rest
swap_remove-All P p [] rest e h = absurd (none_left p rest e)
swap_remove-All P p (q ∷ qs) rest e h = elim (parts p q qs rest e) [
  | inl (hit, same) ↦ subst (All P) same (replace-All P qs h.1)
  | inr (miss, xs, found, same) ↦ subst (All P) same (h.0, swap_remove-All P p qs xs found h.1)
]

-- No double, and not the entry that left.
pub swap_remove-Distinct :
    (p : ℕ) (l rest : List ℕ)
    → swap_remove p l ≡ some rest
    → IsDistinct l
    → IsNot p rest × IsDistinct rest
swap_remove-Distinct p [] rest e d = absurd (none_left p rest e)
swap_remove-Distinct p (q ∷ qs) rest e (ne, d) = elim (parts p q qs rest e) [
  | inl (hit, same) ↦
      let is : q ≡ p = ground arith in
      (
        subst (IsNot p) same
            (replace-All (λ r. (r == p) ≡ false) qs (subst (λ x. IsNot x qs) is ne)),
        subst IsDistinct same (replace-Distinct qs d),
      )
  | inr (miss, xs, found, same) ↦
      let (gone, d') = swap_remove-Distinct p qs xs found d in
      (
        subst (IsNot p) same (miss, gone),
        subst IsDistinct same (swap_remove-All (λ r. (r == q) ≡ false) p qs xs found ne, d'),
      )
]

last-length : (y : ℕ) (ys : List ℕ) → length (drop_last y ys) ≡ length ys
unfolding drop_last
last-length y [] = refl
last-length y (z ∷ zs) = ap suc (last-length z zs)

replace-length : (qs : List ℕ) → length (replace_by_last qs) ≡ length qs
unfolding replace_by_last
replace-length [] = refl
replace-length (y ∷ ys) = ap suc (last-length y ys)

pub swap_remove-length :
    (p : ℕ) (l rest : List ℕ) → swap_remove p l ≡ some rest → 1 + length rest ≡ length l
swap_remove-length p [] rest e = absurd (none_left p rest e)
swap_remove-length p (q ∷ qs) rest e = elim (parts p q qs rest e) [
  | inl (hit, same) ↦ omega (arith, ap length same, replace-length qs)
  | inr (miss, xs, found, same) ↦ omega (arith, ap length same, swap_remove-length p qs xs found)
]

-- An entry of the list can be taken out.
pub swap_remove-some :
    (l : List ℕ) (i p : ℕ)
    → get_elem? l i ≡ some p
    → (rest : List ℕ) × (swap_remove p l ≡ some rest)
unfolding swap_remove
swap_remove-some [] i p e = absurd (cc e)
swap_remove-some (q ∷ qs) zero p e =
    let is : q ≡ p = some-injective _ _ e in (replace_by_last qs, rw (is, ==_refl p, swap_remove))
swap_remove-some (q ∷ qs) (suc i) p e = elim (Bool-cases (q == p)) [
  | inl hit ↦ (replace_by_last qs, rw (hit, swap_remove))
  | inr miss ↦
      let (xs, found) = swap_remove-some qs i p e in (q ∷ xs, rw (miss, swap_remove, found))
]

-- A new address goes behind the others.
pub snoc-Distinct : (l : List ℕ) (p : ℕ) → IsNot p l → IsDistinct l → IsDistinct (l ++ p ∷ [])
snoc-Distinct [] p ne d = (tt, tt)
snoc-Distinct (q ∷ qs) p (miss, ne) (gone, d) =
    (snoc-All (λ r. (r == q) ≡ false) qs p gone (apart q p miss), snoc-Distinct qs p ne d)

pub reverse-All : (P : ℕ → Type 0) (l : List ℕ) → All P l → All P (reverse l)
reverse-All P [] h = tt
reverse-All P (q ∷ qs) h =
    subst (All P) (sym (reverse-cons q qs)) (snoc-All P (reverse qs) q (reverse-All P qs h.1) h.0)

pub reverse-Distinct : (l : List ℕ) → IsDistinct l → IsDistinct (reverse l)
reverse-Distinct [] d = tt
reverse-Distinct (q ∷ qs) (ne, d) = subst IsDistinct (sym (reverse-cons q qs)) (
    snoc-Distinct (reverse qs) q (reverse-All (λ p. (p == q) ≡ false) qs ne)
      (reverse-Distinct qs d))

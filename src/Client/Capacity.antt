-- ===== src/Client/Capacity.antt =====
-- The doubling of a buffer's capacity: it ends, without overflow, at the least sufficient doubling.
use native.Mathlib.Nat.{pow-suc}
use c_chat_server.Base.{
  le→ltb, lt→ltb, ◌∙◌, ℕ, zero, suc, ◌*◌, ◌%◌, ◌^◌, ◌≤◌, ◌<◌, ◌≡◌, refl, some, arith, ltb,
  Bool-cases, inl, inr, ◌⊎◌,
}
use c_chat_server.Client.{grow_cap}

grow_cap-double :
    (fuel cap needed : ℕ)
    → cap < needed
    → needed ≤ 2 ^ 63
    → grow_cap (suc (suc fuel)) cap needed ≡ grow_cap (suc fuel) (cap * 2) needed
unfolding grow_cap
grow_cap-double fuel cap needed lt small =
    let fits : cap * 2 % 2 ^ 64 ≡ cap * 2 = omega arith in rw (lt→ltb cap needed lt, fits)

-- For a capacity that is not 0 and at most 2 ^ 63 bytes needed: when `fuel` doublings reach the
-- bytes needed, the loop ends with one round more than that. No doubling wraps around, and the new
-- capacity is at least what is needed and at least the old one, and is the old one or less than
-- twice what is needed.
pub grow_cap-bounds :
    (fuel cap needed : ℕ)
    → 0 < cap
    → needed ≤ 2 ^ 63
    → needed ≤ cap * 2 ^ fuel
    → (r : ℕ) × (grow_cap (suc fuel) cap needed ≡ some r)
      × (needed ≤ r)
      × (cap ≤ r)
      × ((r ≡ cap) ⊎ (r < 2 * needed))
unfolding grow_cap
grow_cap-bounds zero cap needed pos small reach =
    (cap, rw (le→ltb cap needed (omega arith)), omega arith, omega arith, inl refl)
grow_cap-bounds (suc fuel) cap needed pos small reach = elim (Bool-cases (ltb cap needed)) [
  | inr enough ↦ (cap, rw enough, ground arith, omega arith, inl refl)
  | inl more ↦
      let lt : cap < needed = ground arith in
      let (r, run, le, ge, least) =
        grow_cap-bounds fuel (cap * 2) needed (omega arith) small
          (let reach2 = simp pow-suc at reach in omega (arith, reach2)) in
      (
        r,
        grow_cap-double fuel cap needed lt small ∙ run,
        le,
        omega arith,
        inr (elim least [ inl e ↦ omega arith | inr h ↦ h ]),
      )
]

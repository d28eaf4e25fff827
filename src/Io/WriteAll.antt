-- ===== src/Io/WriteAll.antt =====
-- `write_all` returns, reads only inside its buffer, and sends a prefix of it in order.

use c_chat_server.Base.{
  ℕ, zero, suc, ◌+◌, ◌-◌, ◌≤◌, ◌<◌, ◌≡◌, refl, ap, ◌∙◌, arith, Bytes, take, drop, ◌++◌, length,
  some, length-take, append_assoc, append-nil, slice-some, Bool-cases, ◌⊎◌, inl, inr, ◌==◌, ltb,
  false, take-add, take-take, slice, sym, Option, none, Option-cases,
}
use mathlib.Core.Path.{subst}
use c_chat_server.Os.{Os, ok, again, interrupted, failed, Count, count, error}
use c_chat_server.Os.Laws.{IsOutbound, answered, is_ok, is_again, is_interrupted, is_failed}
use c_chat_server.Io.{write_all_loop, write_all}

module _ (os : Os) (fd n : ℕ) (buffer : Bytes) where
  -- The calls of `write` from one world to another that bring the first `k` of `n` bytes out: each
  -- offers all that is left, and takes some of it or is interrupted.
  pub data Puts : ℕ → os.World → os.World → Type 0 where
    no_call : {w : os.World} → Puts 0 w w
    took :
        {k : ℕ} {w : os.World} (j : ℕ) (v v' : os.World)
        → Puts k w v
        → 0 < j
        → os.write fd (take (n - k) (drop k buffer)) v ≡ (ok j, v')
        → Puts (k + j) w v'
    once_more :
        {k : ℕ} {w : os.World} (v v' : os.World)
        → Puts k w v
        → os.write fd (take (n - k) (drop k buffer)) v ≡ (interrupted, v')
        → Puts k w v'

  -- Behind the first `k` bytes, the next call fails.
  abbrev pub FailsAt : ℕ → os.World → os.World → Type 0
  FailsAt k w w' =
      (v : os.World) × (k < n)
      × Puts k w v
      × ((os.write fd (take (n - k) (drop k buffer)) v ≡ (again, w'))
          ⊎ (os.write fd (take (n - k) (drop k buffer)) v ≡ (failed, w')))

  -- Behind the first `k` bytes, the next call takes none of the others.
  abbrev pub RefusesAt : ℕ → os.World → os.World → Type 0
  RefusesAt k w w' =
      (v : os.World) × (k < n)
      × Puts k w v
      × (os.write fd (take (n - k) (drop k buffer)) v ≡ (ok 0, w'))

module _ (os : Os) {fd : ℕ} (s : IsOutbound os (os.write fd)) (n : ℕ) (buffer : Bytes)
    (w0 : os.World) where
  -- What a run that starts in `w0` comes to: the whole count; fewer bytes because the next call
  -- took none; or an error because the next call failed. What was sent in the meantime is a prefix
  -- of the buffer.
  pub data Writes (w' : os.World) : Count → Type 0 where
    full :
        {r : Count}
        → r ≡ count n
        → Puts os fd n buffer n w0 w'
        → s.sent w' ≡ s.sent w0 ++ take n buffer
        → Writes w' r
    refused :
        {r : Count} (k : ℕ)
        → r ≡ count k
        → RefusesAt os fd n buffer k w0 w'
        → s.sent w' ≡ s.sent w0 ++ take k buffer
        → Writes w' r
    broken :
        {r : Count} (k : ℕ)
        → r ≡ error
        → FailsAt os fd n buffer k w0 w'
        → s.sent w' ≡ s.sent w0 ++ take k buffer
        → Writes w' r

  abbrev Result : (fuel total : ℕ) → os.World → Type 0
  Result fuel total w =
      (r : Count) × (w' : os.World) × (write_all_loop os fuel fd n buffer total w ≡ some (r, w'))
      × Writes w' r

  loop-Writes :
      (fuel total : ℕ) (w : os.World)
      → total ≤ n
      → n ≤ length buffer
      → Puts os fd n buffer total w0 w
      → s.sent w ≡ s.sent w0 ++ take total buffer
      → n - total + s.patience w < fuel
      → Result fuel total w
  unfolding write_all_loop
  loop-Writes zero total w le fits puts now enough = absurd (omega arith)
  loop-Writes (suc fuel) total w le fits puts now enough = elim (Bool-cases (ltb total n)) [
    | inr all ↦ (
      count total,
      w,
      rw all,
      full (ap count (whole all)) (subst (λ k. Puts os fd n buffer k w0 w) (whole all) puts)
          (rw (← whole all) now),
    )
    | inl more ↦ elim (answered (os.write fd (offer) w)) [
      | is_ok k w' e ↦
          let (short, flow, calm) = s.put_ok _ _ _ _ e in
          let short' : k ≤ n - total =
            omega (arith, short, length-take (n - total) (drop total buffer)) in
          elim (Bool-cases (k == 0)) [
            | inl nothing ↦
                let zero_taken : k ≡ 0 = ground arith in
                (
                  count total,
                  w',
                  rw (more, offered (ground arith), e, nothing),
                  refused total refl (w, ground arith, puts, rw (← zero_taken) e)
                      (sent k w' flow short' (omega arith)),
                )
            | inr some_taken ↦
                let (r, v, run, writes) =
                  loop-Writes fuel (total + k) w' (ground arith) fits
                    (took k w w' puts (ground arith) e) (sent k w' flow short' refl)
                    (ground arith) in
                (r, v, rw (more, offered (ground arith), e, some_taken) run, writes)
          ]
      | is_again w' e ↦ (
        error,
        w',
        rw (more, offered (ground arith), e),
        broken total refl (w, ground arith, puts, inl e) (s.put_again _ _ _ e ∙ now),
      )
      | is_interrupted w' e ↦
          let (same, less) = s.put_interrupted _ _ _ e in
          let (r, v, run, writes) =
            loop-Writes fuel total w' le fits (once_more w w' puts e) (same ∙ now) (omega arith) in
          (r, v, rw (more, offered (ground arith), e) run, writes)
      | is_failed w' e ↦ (
        error,
        w',
        rw (more, offered (ground arith), e),
        broken total refl (w, ground arith, puts, inr e) (s.put_failed _ _ _ e ∙ now),
      )
    ]
  ]
    where
      whole : ltb total n ≡ false → total ≡ n
      whole h = ground arith

      offer : Bytes
      offer = take (n - total) (drop total buffer)

      offered : total ≤ n → slice buffer total (n - total) ≡ some offer
      offered h = slice-some buffer total (n - total) (omega arith)

      grown :
          (k : ℕ)
          → k ≤ n - total
          → (s.sent w0 ++ take total buffer) ++ take k offer ≡ s.sent w0 ++ take (total + k) buffer
      grown k h =
          rw (take-take k (n - total) (drop total buffer) h, take-add total k buffer, append_assoc)

      sent :
          (k : ℕ) (w' : os.World)
          → s.sent w' ≡ s.sent w ++ take k offer
          → k ≤ n - total
          → {j : ℕ} → total + k ≡ j
          → s.sent w' ≡ s.sent w0 ++ take j buffer
      sent k w' flow h e = rw (← e) (flow ∙ ap (λ x. x ++ take k offer) now ∙ grown k h)

-- On a stream whose calls are interrupted finitely often, given a buffer of at least `n` bytes and
-- more fuel than `n` and the interruptions together, `write_all` returns and stays inside the
-- buffer. It sends the first `n` bytes, or fewer because the next call took none, or returns -1 before
-- all were sent because the next call failed; and what it sent is a prefix of the buffer, behind what was sent before.
pub write_all-Writes :
    (os : Os) {fd : ℕ} (s : IsOutbound os (os.write fd)) (fuel n : ℕ) (buffer : Bytes)
    (w : os.World)
    → n ≤ length buffer
    → n + s.patience w < fuel
    → (r : Count) × (w' : os.World) × (write_all os fuel fd buffer n w ≡ some (r, w'))
      × Writes os s n buffer w w' r
unfolding write_all
write_all-Writes os s fuel n buffer w fits enough =
    loop-Writes os s n buffer w fuel 0 w (omega arith) fits no_call (rw append-nil) (omega arith)

module _ (os : Os) {fd : ℕ} {A : Type 0} (f : os.World → A)
    (kept : (bs : Bytes) (w : os.World) → f (os.write fd bs w).1 ≡ f w) where
  -- Of a run that returns.
  Kept : A → Option (Count × os.World) → Type 0
  Kept x none = Unit {0}
  Kept x (some (r, w')) = f w' ≡ x

  loop-Kept :
      (fuel n : ℕ) (buffer : Bytes) (total : ℕ) (w : os.World)
      → Kept (f w) (write_all_loop os fuel fd n buffer total w)
  unfolding write_all_loop Kept
  loop-Kept zero n buffer total w = tt
  loop-Kept (suc fuel) n buffer total w = elim (Bool-cases (ltb total n)) [
    | inr all ↦ rw all refl
    | inl more ↦ elim (Option-cases (slice buffer total (n - total))) [
      | inl outside ↦ rw (more, outside) tt
      | inr (bs, inside) ↦ elim (answered (os.write fd bs w)) [
        | is_ok k w1 e ↦
            let same : f w1 ≡ f w = ap (λ x. f x.1) (sym e) ∙ kept bs w in
            elim (Bool-cases (k == 0)) [
              | inl nothing ↦ rw (more, inside, e, nothing) same
              | inr some_bytes ↦
                  rw (more, inside, e, some_bytes)
                    (subst (λ x. Kept x (write_all_loop os fuel fd n buffer (total + k) w1)) same
                      (loop-Kept fuel n buffer (total + k) w1))
            ]
        | is_again w1 e ↦ rw (more, inside, e) (ap (λ x. f x.1) (sym e) ∙ kept bs w)
        | is_interrupted w1 e ↦
            let same : f w1 ≡ f w = ap (λ x. f x.1) (sym e) ∙ kept bs w in
            rw (more, inside, e)
              (subst (λ x. Kept x (write_all_loop os fuel fd n buffer total w1)) same
                (loop-Kept fuel n buffer total w1))
        | is_failed w1 e ↦ rw (more, inside, e) (ap (λ x. f x.1) (sym e) ∙ kept bs w)
      ]
    ]
  ]

  -- What no call of `write` changes, `write_all` does not change.
  pub write_all-Kept :
      (fuel n : ℕ) (buffer : Bytes) (w : os.World) {r : Count} {w' : os.World}
      → write_all os fuel fd buffer n w ≡ some (r, w')
      → f w' ≡ f w
  unfolding write_all Kept
  write_all-Kept fuel n buffer w run = subst (Kept (f w)) run (loop-Kept fuel n buffer 0 w)

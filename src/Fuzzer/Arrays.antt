-- ===== src/Fuzzer/Arrays.antt =====
-- The arrays of the fuzzers, and what their calls send.
use c_chat_server.Base.{
  ℕ, zero, suc, ◌+◌, ◌%◌, ◌≤◌, ◌≡◌, refl, arith, ◌∙◌, Bytes, [], ◌∷◌, ◌++◌, some, length, blit,
  length-blit, memcpy-some, ◌>>=◌, ltb, Bool-cases, inl, inr,
}
use c_chat_server.Os.{Os}
use c_chat_server.Setup.{Net}
use c_chat_server.Fuzzer.{FuzzArgs, Dice, fill, pause}

-- A connected blocking socket: `send` returns when it has taken all the bytes, and the other calls
-- send nothing.
pub record IsSending (os : Os) (dice : Dice os) (fd : ℕ) : Type 0 where
  pub sent : os.World → Bytes
  pub send_all : (bs : Bytes) (w : os.World) → sent (os.send fd bs w).1 ≡ sent w ++ bs
  pub rand_quiet : (w : os.World) → sent (dice.rand w).1 ≡ sent w
  pub usleep_quiet : (us : ℕ) (w : os.World) → sent (dice.usleep us w).1 ≡ sent w
  pub close_quiet : (w : os.World) → sent (os.close fd w).1 ≡ sent w

module _ (os : Os) (net : Net os) (dice : Dice os) (fd : ℕ) (line : IsSending os dice fd) where
  -- The array is filled inside its bounds, and nothing is sent.
  pub fill-some :
      (left j : ℕ) (buf : Bytes) (w : os.World)
      → j + left ≤ length buf
      → (filled : Bytes) × (w' : os.World) × (fill os net dice left j buf w ≡ some (filled, w'))
        × (length filled ≡ length buf)
        × (line.sent w' ≡ line.sent w)
  unfolding fill
  fill-some zero j buf w within = (buf, w, refl, refl, refl)
  fill-some (suc left) j buf w within =
      let r = dice.rand w in
      let b : Bytes = (r.0 % 256) ∷ [] in
      let fits : j + length b ≤ length buf = omega (arith, within) in
      let sized = length-blit buf j b fits in
      let (filled, w', run, same, quiet) =
        fill-some left (j + 1) (blit buf j b) (r.1) (omega (arith, within, sized)) in
      (
        filled,
        w',
        rw (◌>>=◌, memcpy-some buf j b fits) run,
        same ∙ sized,
        quiet ∙ line.rand_quiet w,
      )

  pub pause-some :
      (fa : FuzzArgs) (w : os.World)
      → (w' : os.World) × (pause os net dice fa w ≡ some (tt, w')) × (line.sent w' ≡ line.sent w)
  unfolding pause
  pause-some fa w = elim (Bool-cases (ltb 0 fa.delay_us)) [
    | inl some_time ↦
        ((dice.usleep fa.delay_us w).1, rw (some_time, ◌>>=◌), line.usleep_quiet fa.delay_us w)
    | inr no_time ↦ (w, rw (no_time, ◌>>=◌), refl)
  ]

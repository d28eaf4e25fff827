-- ===== src/Io/ReadAll.antt =====
-- `read_all` returns, writes only inside its buffer, and delivers the stream's bytes in order.
use c_chat_server.Base.{
  nil_of_length, blit-stream, drop-blit, drop, ℕ, zero, suc, ◌+◌, ◌-◌, ◌≤◌, ◌<◌, ◌≡◌, refl, ap, ◌∙◌,
  arith, Bytes, take, ◌++◌, length, some, blit, length-blit, memcpy-some, Bool-cases, ◌⊎◌, inl, inr,
  ◌==◌, ltb, false, [],
}
use c_chat_server.Os.{Os, ok, again, interrupted, failed, Count, count, error}
use c_chat_server.Os.Laws.{IsInbound, answered, is_ok, is_again, is_interrupted, is_failed}
use c_chat_server.Io.{read_all_loop, read_all}

module _ (os : Os) (fd n : ℕ) where
  -- The calls of `read` from one world to another that bring the first `k` of `n` bytes in: each
  -- asks for all that is left, and gives some of it or is interrupted.
  pub data Gets : ℕ → os.World → os.World → Type 0 where
    no_call : {w : os.World} → Gets 0 w w
    gave :
        {k : ℕ} {w : os.World} (bs : Bytes) (v v' : os.World)
        → Gets k w v
        → 0 < length bs
        → os.read fd (n - k) v ≡ (ok bs, v')
        → Gets (k + length bs) w v'
    once_more :
        {k : ℕ} {w : os.World} (v v' : os.World)
        → Gets k w v
        → os.read fd (n - k) v ≡ (interrupted, v')
        → Gets k w v'

  -- Behind the first `k` bytes, the next call fails.
  abbrev pub FailsAt : ℕ → os.World → os.World → Type 0
  FailsAt k w w' =
      (v : os.World) × (k < n)
      × Gets k w v
      × ((os.read fd (n - k) v ≡ (again, w')) ⊎ (os.read fd (n - k) v ≡ (failed, w')))

module _ (os : Os) {fd : ℕ} (s : IsInbound os fd) (n : ℕ) (tail : Bytes) (w0 : os.World) where
  -- What a run that starts in `w0` comes to: the whole count; fewer bytes because the stream ended;
  -- or an error because the next call failed. In each case the buffer keeps its size, and the bytes that it holds
  -- with those that are still pending are the stream.
  pub data Reads (size : ℕ) (w' : os.World) : Count → Bytes → Type 0 where
    full :
        {r : Count} {buffer : Bytes}
        → r ≡ count n
        → length buffer ≡ size
        → drop n buffer ≡ tail
        → s.pending w0 ≡ take n buffer ++ s.pending w'
        → Reads size w' r buffer
    ended :
        {r : Count} {buffer : Bytes} (k : ℕ) (w : os.World)
        → r ≡ count k
        → k < n
        → os.read fd (n - k) w ≡ (ok [], w')
        → length buffer ≡ size
        → drop n buffer ≡ tail
        → s.pending w0 ≡ take k buffer ++ s.pending w'
        → Reads size w' r buffer
    broken :
        {r : Count} {buffer : Bytes} (k : ℕ)
        → r ≡ error
        → FailsAt os fd n k w0 w'
        → length buffer ≡ size
        → drop n buffer ≡ tail
        → s.pending w0 ≡ take k buffer ++ s.pending w'
        → Reads size w' r buffer

  abbrev pub Result : (fuel size : ℕ) → Bytes → ℕ → os.World → Type 0
  Result fuel size buffer total w =
      (r : Count) × (b : Bytes) × (w' : os.World) × (read_all_loop os fuel fd n buffer total w
        ≡ some ((r, b), w'))
      × Reads size w' r b

  loop-Reads :
      (fuel size : ℕ) (buffer : Bytes) (total : ℕ) (w : os.World)
      → total ≤ n
      → n ≤ size
      → length buffer ≡ size
      → drop n buffer ≡ tail
      → Gets os fd n total w0 w
      → s.pending w0 ≡ take total buffer ++ s.pending w
      → n - total + s.patience w < fuel
      → Result fuel size buffer total w
  unfolding read_all_loop
  loop-Reads zero size buffer total w le fits len behind gets now enough = absurd (omega arith)
  loop-Reads (suc fuel) size buffer total w le fits len behind gets now enough =
      elim (Bool-cases (ltb total n)) [
        | inr all ↦ (
          count total,
          buffer,
          w,
          rw all,
          full (ap count (ground arith)) len behind (rw (← whole all) now),
        )
        | inl more ↦ elim (answered (os.read fd (n - total) w)) [
          | is_ok bs w' e ↦
              let (short, flow, calm) = s.read_ok _ _ _ _ e in
              let now' : s.pending w0 ≡ take total buffer ++ (bs ++ s.pending w') =
                rw (← flow) now in
              elim (Bool-cases (length bs == 0)) [
                | inl nothing ↦
                    let nil : bs ≡ [] = nil_of_length bs (ground arith) in
                    (
                      count total,
                      buffer,
                      w',
                      rw (more, e, nothing),
                      ended total w refl (ground arith) (rw (← nil) e) len behind (rw nil at now'),
                    )
                | inr some_bytes ↦
                    let fit : total + length bs ≤ length buffer = ground arith in
                    let (r, b, v, run, reads) =
                      loop-Reads fuel size (blit buffer total bs) (total + length bs) w'
                        (ground arith) fits (length-blit buffer total bs fit ∙ len)
                        (drop-blit buffer total bs n fit (ground arith) ∙ behind)
                        (gave bs w w' gets (ground arith) e)
                        (blit-stream (s.pending w0) buffer bs (s.pending w') total fit now')
                        (ground arith) in
                    (r, b, v, rw (more, e, some_bytes, memcpy-some buffer total bs fit) run, reads)
              ]
          | is_again w' e ↦ (
            error,
            buffer,
            w',
            rw (more, e),
            broken total refl (w, ground arith, gets, inl e) len behind
                (rw (← s.read_again _ _ _ e) now),
          )
          | is_interrupted w' e ↦
              let (same, less) = s.read_interrupted _ _ _ e in
              let (r, b, v, run, reads) =
                loop-Reads fuel size buffer total w' le fits len behind (once_more w w' gets e)
                  (rw (← same) now) (omega arith) in
              (r, b, v, rw (more, e) run, reads)
          | is_failed w' e ↦ (
            error,
            buffer,
            w',
            rw (more, e),
            broken total refl (w, ground arith, gets, inr e) len behind
                (rw (← s.read_failed _ _ _ e) now),
          )
        ]
      ]
    where
      whole : ltb total n ≡ false → total ≡ n
      whole h = ground arith

-- On a stream socket whose calls are interrupted finitely often, given a buffer with room for `n`
-- bytes and more fuel than `n` and the interruptions together, `read_all` returns and stays inside
-- the buffer. It delivers `n` bytes, or fewer because a call returned 0, or -1 before all `n` were
-- there because the next call failed; and the bytes that it put into the buffer, followed by those still pending, are those that
-- were pending before, in order. What stands behind the first `n` bytes of the buffer stays.
pub read_all-Reads :
    (os : Os) {fd : ℕ} (s : IsInbound os fd) (fuel n : ℕ) (buffer : Bytes) (w : os.World)
    → n ≤ length buffer
    → n + s.patience w < fuel
    → (r : Count) × (b : Bytes) × (w' : os.World) × (read_all os fuel fd buffer n w
        ≡ some ((r, b), w'))
      × Reads os s n (drop n buffer) w (length buffer) w' r b
unfolding read_all
read_all-Reads os s fuel n buffer w fits enough =
    loop-Reads os s n (drop n buffer) w fuel (length buffer) buffer 0 w (omega arith) fits refl refl
      no_call refl (omega arith)

-- ===== src/Transfer/Sending.antt =====
-- A header and then its payload on one stream: what `write_packet`, the direct messages and the
-- client program send.
use c_chat_server.Base.{
  ℕ, ◌+◌, ◌≤◌, ◌<◌, ◌≡◌, refl, ap, sym, ◌∙◌, arith, Bytes, ◌++◌, some, length, take, take-all,
  take-append_more, take-append_less, append_assoc, ◌>>=◌, take-take,
}
use c_chat_server.Os.{Os, Count, count, error}
use c_chat_server.Os.Laws.{IsOutbound}
use c_chat_server.Protocol.{MsgHeader, header_size, header_bytes}
use c_chat_server.Protocol.Wire.{length-header_bytes}
use c_chat_server.Io.{write_all}
use c_chat_server.Io.WriteAll.{
  Puts, FailsAt, RefusesAt, Writes, full, refused, broken, write_all-Writes,
}
use c_chat_server.Transfer.{write_header, write_payload, write_packet}

-- The bytes of a frame.
abbrev pub frame_bytes : Os → MsgHeader → Bytes → ℕ → Bytes
frame_bytes os header payload n = header_bytes os.byte_order header ++ take n payload

-- A stream with a limit on the interruptions of its calls.
abbrev pub Calm : (os : Os) {fd : ℕ} → IsOutbound os (os.write fd) → ℕ → Type 0
Calm os s bound = (w : os.World) → s.patience w ≤ bound

module _ (os : Os) {fd : ℕ} (s : IsOutbound os (os.write fd)) (header : MsgHeader) (payload : Bytes)
    (n : ℕ) (w : os.World) where
  front : Bytes
  front = header_bytes os.byte_order header

  -- The frame is not sent whole. A call for the header or one for the payload fails, and a proper
  -- prefix is sent; or one takes no byte: of the payload, which ends the run, or of the header,
  -- behind which the payload is written all the same.
  pub data Part (w' : os.World) (r : Count) : Type 0 where
    cut_header :
        (k : ℕ)
        → r ≡ error
        → FailsAt os fd header_size (header_bytes os.byte_order header) k w w'
        → s.sent w' ≡ s.sent w ++ take k (frame_bytes os header payload n)
        → Part w' r
    cut :
        (k : ℕ) (w1 : os.World)
        → r ≡ error
        → Puts os fd header_size (header_bytes os.byte_order header) header_size w w1
        → FailsAt os fd n payload k w1 w'
        → s.sent w' ≡ s.sent w ++ take (header_size + k) (frame_bytes os header payload n)
        → Part w' r
    stalled :
        (k : ℕ) (w1 : os.World)
        → r ≡ count k
        → Puts os fd header_size (header_bytes os.byte_order header) header_size w w1
        → RefusesAt os fd n payload k w1 w'
        → s.sent w' ≡ s.sent w ++ take (header_size + k) (frame_bytes os header payload n)
        → Part w' r
    stalled_header :
        (k : ℕ) (w1 : os.World)
        → RefusesAt os fd header_size (header_bytes os.byte_order header) k w w1
        → s.sent w1 ≡ s.sent w ++ take k (header_bytes os.byte_order header)
        → Writes os s n payload w1 w' r
        → Part w' r

  -- Both parts were written; or only a part of them.
  pub data Sent (w' : os.World) (r : Count) : Type 0 where
    whole : r ≡ count n → s.sent w' ≡ s.sent w ++ frame_bytes os header payload n → Sent w' r
    part : Part w' r → Sent w' r

  -- The calls of `write_header` and `write_payload`, one after the other.
  pub data Pair (fuel : ℕ) : Type 0 where
    no_header :
        (w1 : os.World)
        → write_header os fuel fd header w ≡ some (error, w1)
        → Sent w1 error
        → Pair fuel
    both :
        (k : ℕ) (w1 : os.World) (r : Count) (w2 : os.World)
        → write_header os fuel fd header w ≡ some (count k, w1)
        → write_payload os fuel fd payload n w1 ≡ some (r, w2)
        → Sent w2 r
        → Pair fuel

  front-size : length front ≡ header_size
  unfolding front
  front-size = length-header_bytes os.byte_order header

  behind :
      (w1 w2 : os.World) (k : ℕ)
      → k < n
      → s.sent w1 ≡ s.sent w ++ front
      → s.sent w2 ≡ s.sent w1 ++ take k payload
      → s.sent w2 ≡ s.sent w ++ take (header_size + k) (frame_bytes os header payload n)
  unfolding front
  behind w1 w2 k less now all =
      let cut_behind : take (header_size + k) (front ++ take n payload)
          ≡ front ++ take k (take n payload) =
        take-append_more front (take n payload) (header_size + k) k (omega (arith, front-size)) in
      all
      ∙ ap (λ x. x ++ take k payload) now
      ∙ append_assoc (s.sent w) front (take k payload)
      ∙ ap (λ x. s.sent w ++ (front ++ x)) (sym (take-take k n payload (omega arith)))
      ∙ ap (λ x. s.sent w ++ x) (sym cut_behind)

  -- The payload behind a whole header.
  payload-Sent :
      (w1 : os.World) (r : Count) (w2 : os.World)
      → Puts os fd header_size (header_bytes os.byte_order header) header_size w w1
      → s.sent w1 ≡ s.sent w ++ front
      → Writes os s n payload w1 w2 r
      → Sent w2 r
  unfolding front
  payload-Sent w1 r w2 puts now (full e calls all) =
      whole e
        (all ∙ ap (λ x. x ++ take n payload) now ∙ append_assoc (s.sent w) front (take n payload))
  payload-Sent w1 r w2 puts now (refused k e stop all) =
      part (stalled k w1 e puts stop (behind w1 w2 k stop.1 now all))
  payload-Sent w1 r w2 puts now (broken k e stop all) =
      part (cut k w1 e puts stop (behind w1 w2 k stop.1 now all))

  pub write-Pair :
      (fuel bound : ℕ)
      → Calm os s bound
      → n ≤ length payload
      → header_size + n + bound < fuel
      → Pair fuel
  unfolding write_header write_payload front
  write-Pair fuel bound calm within enough =
      let (h, w1, run, heads) =
        write_all-Writes os s fuel header_size front w (omega (arith, front-size))
          (omega (arith, calm w)) in
      head h w1 run heads
    where
      next :
          (h : ℕ) (w1 : os.World)
          → write_all os fuel fd front header_size w ≡ some (count h, w1)
          → ((r : Count) (w2 : os.World) → Writes os s n payload w1 w2 r → Sent w2 r)
          → Pair fuel
      next h w1 run follow =
          let (r, w2, run', bodies) =
            write_all-Writes os s fuel n payload w1 within (omega (arith, calm w1)) in
          both h w1 r w2 run run' (follow r w2 bodies)

      head :
          (h : Count) (w1 : os.World)
          → write_all os fuel fd front header_size w ≡ some (h, w1)
          → Writes os s header_size front w w1 h
          → Pair fuel
      head h w1 run (full e calls all) =
          next header_size w1 (run ∙ ap (λ x. some (x, w1)) e) (λ r w2 b.
            payload-Sent w1 r w2 calls
              (all
                ∙ ap (λ x. s.sent w ++ x) (take-all header_size front (omega (arith, front-size))))
              b)
      head h w1 run (refused k e stop all) =
          next k w1 (run ∙ ap (λ x. some (x, w1)) e)
            (λ r w2 b. part (stalled_header k w1 stop all b))
      head h w1 run (broken k e stop all) = no_header w1 (run ∙ ap (λ x. some (x, w1)) e) (
          part (
            cut_header k refl stop (
              all
              ∙ ap (λ x. s.sent w ++ x)
                  (sym (
                    take-append_less front (take n payload) k
                      (omega (arith, front-size, stop.1)))))))

  -- On a stream with a limit on the interruptions of its calls, for a payload inside its buffer
  -- and fuel for the header, the payload and the interruptions: `write_packet` returns with no
  -- access out of bounds. It returns the length of the payload, and the header and the payload
  -- are sent behind what was sent before; or -1 because the next call of `write` failed, or the count
  -- because the next call took none of the payload, and in both cases exactly the proper prefix of
  -- them is sent that the calls before took; or a call took none of the rest of the header, and then
  -- the payload is written behind the part of the header that is sent.
  pub write_packet-Sent :
      (fuel bound : ℕ)
      → Calm os s bound
      → n ≤ length payload
      → header_size + n + bound < fuel
      → (r : Count) × (w' : os.World) × (write_packet os fuel fd header payload n w ≡ some (r, w'))
        × Sent w' r
  unfolding write_packet
  write_packet-Sent fuel bound calm within enough =
      elim (write-Pair fuel bound calm within enough) [
        | no_header w1 run sent ↦ (error, w1, rw (run, ◌>>=◌), sent)
        | both k w1 r w2 run run' sent ↦ (r, w2, rw (run, ◌>>=◌) run', sent)
      ]

-- ===== src/Queue/TryWrite.antt =====
-- Draining a client's queue with `send`.
use c_chat_server.Base.{
  ◌>>=◌, slice, ℕ, zero, suc, ◌+◌, ◌-◌, ◌%◌, ◌^◌, ◌≤◌, ◌<◌, ◌≡◌, refl, sym, arith, Bytes, List, [],
  ◌∷◌, ◌++◌, some, Bool, false, length, length-append, append-nil, append_assoc, Bool-cases, ◌==◌,
  ◌⊎◌, inl, inr, ◌∙◌, take, drop, length-drop, length-take, ap, slice-some, take-all,
}
use c_chat_server.Os.{Os, ok, again, failed, Status, success, failure, epoll_in}
use c_chat_server.Os.Laws.{
  Status-cases, IsOutbound, answered, is_ok, is_again, is_interrupted, is_failed,
}
use c_chat_server.Client.{ClientInfo, MsgPacket, MsgQueue}
use c_chat_server.Epoll.{disable_epollout_for_client}
use c_chat_server.Queue.{client_try_write, advance}
use c_chat_server.Queue.Content.{IsQueue, unsent}
use c_chat_server.Queue.Advance.{advance-unsent, advance-IsQueue}

abbrev queue : List MsgPacket → ℕ → ℕ → MsgQueue
queue ps b n = record { packets = ps; queued_bytes = b; queued_count = n }

module _ (os : Os) (c : ClientInfo) (s : IsOutbound os (os.send c.client_fd)) (stream : Bytes)
    (most : ℕ) where
  -- How a run ends: with an empty queue; with packets left because a call would block; or in an
  -- error, because a call failed or took no byte. In each case the bytes that were sent, followed
  -- by those still queued, are the stream, at most `most` are queued, and only the queue (and at
  -- the end the epoll flag) has changed.
  pub data Drains (w' : os.World) : Status → ClientInfo → Type 0 where
    drained :
        (q : MsgQueue) (e : Bool)
        → IsQueue q
        → q.queued_bytes ≤ most
        → q.packets ≡ []
        → s.sent w' ≡ stream
        → Drains w' success (record c { msg_queue = q; epollout_enabled = e })
    blocked :
        (q : MsgQueue) (bytes : Bytes) (w : os.World)
        → 0 < length bytes
        → os.send c.client_fd bytes w ≡ (again, w')
        → IsQueue q
        → q.queued_bytes ≤ most
        → s.sent w' ++ unsent q.packets ≡ stream
        → Drains w' success (record c { msg_queue = q })
    broken :
        (q : MsgQueue) (bytes : Bytes) (w : os.World)
        → 0 < length bytes
        → (os.send c.client_fd bytes w ≡ (failed, w')) ⊎ (os.send c.client_fd bytes w ≡ (ok 0, w'))
        → IsQueue q
        → q.queued_bytes ≤ most
        → s.sent w' ++ unsent q.packets ≡ stream
        → Drains w' failure (record c { msg_queue = q })

  abbrev Outcome : ℕ → MsgQueue → os.World → Type 0
  Outcome fuel q w =
      (r : Status) × (c' : ClientInfo) × (w' : os.World) × (client_try_write os fuel
          (record c { msg_queue = q }) w
        ≡ some ((r, c'), w'))
      × Drains w' r c'

  disable-epollout :
      (d : ClientInfo) (w : os.World)
      → (e : Bool) × (w' : os.World) × (disable_epollout_for_client os d w
          ≡ some (record d { epollout_enabled = e }, w'))
        × (s.sent w' ≡ s.sent w)
  unfolding disable_epollout_for_client
  disable-epollout d w = elim (Bool-cases d.epollout_enabled) [
    | inr off ↦ (d.epollout_enabled, w, ground arith, refl)
    | inl on ↦ elim (Status-cases (os.epoll_ctl epoll_in d.client_fd w).0) [
      | inl done ↦ (
        false,
        (os.epoll_ctl epoll_in d.client_fd w).1,
        ground arith,
        s.epoll_sends_nothing _ _ w,
      )
      | inr not_done ↦ (
        d.epollout_enabled,
        (os.epoll_ctl epoll_in d.client_fd w).1,
        ground arith,
        s.epoll_sends_nothing _ _ w,
      )
    ]
  ]

  -- The loop ends at the empty queue.
  empty-Drains :
      (fuel b n : ℕ) (w : os.World)
      → IsQueue (queue [] b n)
      → b ≤ most
      → s.sent w ≡ stream
      → Outcome (suc fuel) (queue [] b n) w
  unfolding client_try_write
  empty-Drains fuel b n w v lim now =
      let (e, w', run, same) = disable-epollout (record c { msg_queue = queue [] b n }) w in
      (
        success,
        record c { msg_queue = queue [] b n; epollout_enabled = e },
        w',
        rw (run, ◌>>=◌),
        drained (queue [] b n) e v lim refl (same ∙ now),
      )

  loop-Drains :
      (fuel : ℕ) (ps : List MsgPacket) (b n : ℕ) (w : os.World)
      → IsQueue (queue ps b n)
      → b ≤ most
      → s.sent w ++ unsent ps ≡ stream
      → length (unsent ps) + s.patience w < fuel
      → Outcome fuel (queue ps b n) w
  unfolding client_try_write
  loop-Drains zero ps b n w v lim now enough = absurd (omega arith)
  loop-Drains (suc fuel) [] b n w v lim now enough =
      empty-Drains fuel b n w v lim (rw append-nil at now)
  loop-Drains (suc fuel) (p ∷ rest) b n w v lim now enough =
      elim (answered (os.send c.client_fd left w)) [
        | is_ok k w' e ↦
            let (short, flow, calm) = s.put_ok _ _ _ _ e in
            elim (Bool-cases (k == 0)) [
              | inl nothing ↦
                  let zero_taken : k ≡ 0 = ground arith in
                  (
                    failure,
                    _,
                    w',
                    rw (sliced, e, nothing),
                    broken q left w some_left (inr (rw (← zero_taken) e)) v lim (
                        ap (λ x. x ++ unsent (p ∷ rest)) (flow ∙ rw (zero_taken, append-nil))
                        ∙ now),
                  )
              | inr some_taken ↦
                  let pos : 0 < k = ground arith in
                  let fits : k ≤ p.len - p.offset = omega (arith, short, size) in
                  let less_left : (advance q p rest k).queued_bytes ≤ b = omega (
                    arith,
                    ap length (advance-unsent q p rest v refl k pos fits),
                    length-append (take k left) (unsent (advance q p rest k).packets),
                    (advance-IsQueue q p rest v refl k pos fits).bytes,
                    v.bytes,
                  ) in
                  let (r, c', v', run, drains) =
                    loop-Drains fuel (advance q p rest k).packets (advance q p rest k).queued_bytes
                      (advance q p rest k).queued_count w'
                      (advance-IsQueue q p rest v refl k pos fits) (omega (arith, less_left, lim))
                      (ap (λ x. x ++ unsent (advance q p rest k).packets) flow
                        ∙ append_assoc (s.sent w) (take k left)
                            (unsent (advance q p rest k).packets)
                        ∙ ap (λ x. s.sent w ++ x) (sym (advance-unsent q p rest v refl k pos fits))
                        ∙ now)
                      (omega (
                        arith,
                        ap length (advance-unsent q p rest v refl k pos fits),
                        length-append (take k left) (unsent (advance q p rest k).packets),
                        length-take k left,
                        size,
                      )) in
                  (r, c', v', rw (sliced, e, some_taken) run, drains)
            ]
        | is_again w' e ↦ (
          success,
          _,
          w',
          rw (sliced, e),
          blocked q left w some_left e v lim
              (ap (λ x. x ++ unsent (p ∷ rest)) (s.put_again _ _ _ e) ∙ now),
        )
        | is_interrupted w' e ↦
            let (same, less) = s.put_interrupted _ _ _ e in
            let (r, c', v', run, drains) =
              loop-Drains fuel (p ∷ rest) b n w' v lim (ap (λ x. x ++ unsent (p ∷ rest)) same ∙ now)
                (omega arith) in
            (r, c', v', rw (sliced, e) run, drains)
        | is_failed w' e ↦ (
          failure,
          _,
          w',
          rw (sliced, e),
          broken q left w some_left (inl e) v lim
              (ap (λ x. x ++ unsent (p ∷ rest)) (s.put_failed _ _ _ e) ∙ now),
        )
      ]
    where
      q : MsgQueue
      q = queue (p ∷ rest) b n

      left : Bytes
      left = drop p.offset p.packet_data

      size : length left ≡ p.len - p.offset
      size = length-drop p.offset p.packet_data ∙ ap (λ x. x - p.offset) v.packets.0.sized

      some_left : 0 < length left
      some_left = omega (arith, size, v.packets.0.unfinished)

      sliced : slice p.packet_data p.offset ((p.len + 2 ^ 64 - p.offset) % 2 ^ 64) ≡ some left
      sliced =
          let exact : (p.len + 2 ^ 64 - p.offset) % 2 ^ 64 ≡ p.len - p.offset = omega (
            arith,
            v.packets.0.unfinished,
            v.packets.0.sized,
            v.bytes,
            v.small,
            length-append left (unsent rest),
            size,
          ) in
          rw exact (
            slice-some p.packet_data p.offset (p.len - p.offset)
              (omega (arith, v.packets.0.unfinished, v.packets.0.sized))
            ∙ ap some (take-all (p.len - p.offset) left (omega (arith, size))))

-- On a stream whose calls are interrupted finitely often, for a client with a valid queue and more
-- fuel than the queued bytes and the interruptions together, `client_try_write` returns with no
-- access out of bounds. It returns 0 with the queue empty, or 0 because `send` would block, or -1
-- because `send` failed or took no byte. In each case the queue is valid and holds no more bytes
-- than before, what was sent before the call, then what is sent by it and what is still queued is
-- what was sent and queued before, in order, and no field but the queue changes, except the epoll
-- flag when the queue is empty.
pub client_try_write-Drains :
    (os : Os) (c : ClientInfo) (s : IsOutbound os (os.send c.client_fd)) (fuel : ℕ) (w : os.World)
    → IsQueue c.msg_queue
    → length (unsent c.msg_queue.packets) + s.patience w < fuel
    → (r : Status) × (c' : ClientInfo) × (w' : os.World) × (client_try_write os fuel c w
        ≡ some ((r, c'), w'))
      × Drains os c s (s.sent w ++ unsent c.msg_queue.packets) c.msg_queue.queued_bytes w' r c'
client_try_write-Drains os c s fuel w v enough =
    loop-Drains os c s (s.sent w ++ unsent c.msg_queue.packets) c.msg_queue.queued_bytes fuel
      c.msg_queue.packets c.msg_queue.queued_bytes c.msg_queue.queued_count w v (omega arith) refl
      enough

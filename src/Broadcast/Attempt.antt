-- ===== src/Broadcast/Attempt.antt =====
-- The end of a delivery: the first attempt to write, and the wait for output.
use c_chat_server.Base.{
  ℕ, ◌+◌, ◌≤◌, ◌<◌, ◌≡◌, refl, arith, ap, ◌∙◌, Bytes, ◌++◌, some, Bool, true, false, append-nil,
  Bool-cases, ◌⊎◌, inl, inr, M, ◌>>=◌, bind-some,
}
use c_chat_server.Base.{List, [], ◌∷◌}
use c_chat_server.Os.{failure}
use c_chat_server.Os.{Os, Status, epoll_in_out}
use c_chat_server.Os.Laws.{IsServing, Status-cases}
use c_chat_server.Protocol.{msg_size_limit}
use c_chat_server.Client.{ClientInfo, MsgPacket, MsgQueue}
use c_chat_server.Epoll.{enable_epollout_for_client}
use c_chat_server.Queue.{client_try_write}
use c_chat_server.Queue.Content.{IsQueue, unsent}
use c_chat_server.Queue.TryWrite.{Drains, drained, blocked, broken, client_try_write-Drains}
use c_chat_server.Broadcast.{try_now, wait_for_output, is_empty}

-- A client with another queue and other flags.
abbrev pub with_queue : ClientInfo → MsgQueue → Bool → Bool → ClientInfo
with_queue c q e b = record c { msg_queue = q; epollout_enabled = e; closed = b }

nil_of_is_empty : (ps : List MsgPacket) → is_empty ps ≡ true → ps ≡ []
unfolding is_empty
nil_of_is_empty [] h = refl
nil_of_is_empty (p ∷ ps) h = absurd (ground arith)

module _ (os : Os) where
  -- Nothing waits in the queue, or EPOLLOUT is asked for, or the call that asks for it failed.
  abbrev pub Woken : ClientInfo → Type 0
  Woken c =
      (c.msg_queue.packets ≡ [])
      ⊎ (c.epollout_enabled ≡ true)
      ⊎ ((w0 : os.World) × ((os.epoll_ctl epoll_in_out c.client_fd w0).0 ≡ failure))

module _ {os : Os} {bound : ℕ} (serve : IsServing os bound) where
  -- What is sent to the client, and then what waits in its queue.
  abbrev pub stream : ClientInfo → os.World → Bytes
  stream c w = (serve.out c.client_fd).sent w ++ unsent c.msg_queue.packets

  -- A step that returns, changes at most the queue and the two flags, keeps the stream, and
  -- queues nothing.
  abbrev pub Settles : M os.World ClientInfo → ClientInfo → os.World → Type 0
  Settles m c w =
      (q : MsgQueue) × (e : Bool) × (b : Bool) × (w' : os.World) × (m w
        ≡ some (with_queue c q e b, w'))
      × IsQueue q
      × (q.queued_bytes ≤ c.msg_queue.queued_bytes)
      × (stream (with_queue c q e b) w' ≡ stream c w)

  -- The same of the step that ends a delivery.
  abbrev pub Waits : M os.World ClientInfo → ClientInfo → os.World → Type 0
  Waits m c w =
      (q : MsgQueue) × (e : Bool) × (b : Bool) × (w' : os.World) × (m w
        ≡ some (with_queue c q e b, w'))
      × IsQueue q
      × (q.queued_bytes ≤ c.msg_queue.queued_bytes)
      × (stream (with_queue c q e b) w' ≡ stream c w)
      × Woken os (with_queue c q e b)

module _ (os : Os) (bound : ℕ) (serve : IsServing os bound) (fuel : ℕ)
    (enough : msg_size_limit + bound < fuel) where
  -- The result of the attempt.
  attempt-Settles :
      (c : ClientInfo) (w : os.World) (r : Status) (c' : ClientInfo) (w' : os.World)
      → client_try_write os fuel c w ≡ some ((r, c'), w')
      → Drains os c (serve.out c.client_fd) (stream serve c w) c.msg_queue.queued_bytes w' r c'
      → Settles serve (try_now os fuel true c) c w
  unfolding try_now
  attempt-Settles c w r c' w' run (drained q e v lim nil all) = (
    q,
    e,
    c.closed,
    w',
    rw (run, ◌>>=◌),
    v,
    lim,
    ap (λ ps. (serve.out c.client_fd).sent w' ++ unsent ps) nil ∙ append-nil _ ∙ all,
  )
  attempt-Settles c w r c' w' run (blocked q bytes w0 n e v lim all) =
      (q, c.epollout_enabled, c.closed, w', rw (run, ◌>>=◌), v, lim, all)
  attempt-Settles c w r c' w' run (broken q bytes w0 n e v lim all) =
      (q, c.epollout_enabled, true, w', rw (run, ◌>>=◌), v, lim, all)

  try_now-Settles :
      (first : Bool) (c : ClientInfo) (w : os.World)
      → IsQueue c.msg_queue
      → c.msg_queue.queued_bytes ≤ msg_size_limit
      → Settles serve (try_now os fuel first c) c w
  unfolding try_now
  try_now-Settles false c w v lim =
      (c.msg_queue, c.epollout_enabled, c.closed, w, refl, v, omega arith, refl)
  try_now-Settles true c w v lim =
      let (r, c', w', run, drains) =
        client_try_write-Drains os c (serve.out c.client_fd) fuel w v
          (omega (arith, serve.calm c.client_fd w, v.bytes, lim, enough)) in
      attempt-Settles c w r c' w' run drains

  wait_for_output-Waits :
      (c : ClientInfo) (w : os.World)
      → IsQueue c.msg_queue
      → Waits serve (wait_for_output os fuel c) c w
  unfolding wait_for_output enable_epollout_for_client
  wait_for_output-Waits c w v = elim (Bool-cases (is_empty c.msg_queue.packets)) [
    | inl nothing ↦ (
      c.msg_queue,
      c.epollout_enabled,
      c.closed,
      w,
      rw nothing,
      v,
      omega arith,
      refl,
      inl (nil_of_is_empty c.msg_queue.packets nothing),
    )
    | inr waiting ↦ elim (Bool-cases c.epollout_enabled) [
      | inl on ↦ (
        c.msg_queue,
        c.epollout_enabled,
        c.closed,
        w,
        rw (waiting, on),
        v,
        omega arith,
        refl,
        inr (inl on),
      )
      | inr off ↦
          let quiet =
            ap (λ x. x ++ unsent c.msg_queue.packets)
              ((serve.out c.client_fd).epoll_sends_nothing epoll_in_out c.client_fd w) in
          elim (Status-cases (os.epoll_ctl epoll_in_out c.client_fd w).0) [
            | inl done ↦ (
              c.msg_queue,
              true,
              c.closed,
              _,
              rw (waiting, off, ◌>>=◌, done),
              v,
              omega arith,
              quiet,
              inr (inl refl),
            )
            | inr not_done ↦ (
              c.msg_queue,
              c.epollout_enabled,
              c.closed,
              _,
              rw (waiting, off, ◌>>=◌, not_done)
                  (ap
                    (λ e. some (
                      with_queue c c.msg_queue e c.closed,
                      (os.epoll_ctl epoll_in_out c.client_fd w).1,
                    ))
                    off),
              v,
              omega arith,
              quiet,
              inr (inr (w, not_done)),
            )
          ]
    ]
  ]

  -- The attempt and then the wait.
  pub tail-Waits :
      (first : Bool) (c : ClientInfo) (w : os.World)
      → IsQueue c.msg_queue
      → c.msg_queue.queued_bytes ≤ msg_size_limit
      → Waits serve (try_now os fuel first c >>= wait_for_output os fuel) c w
  tail-Waits first c w v lim =
      let (q, e, b, w1, run, v1, less, same) = try_now-Settles first c w v lim in
      let (q', e', b', w2, run', v2, less', same', woken) =
        wait_for_output-Waits (with_queue c q e b) w1 v1 in
      (
        q',
        e',
        b',
        w2,
        bind-some (try_now os fuel first c) (wait_for_output os fuel) run ∙ run',
        v2,
        omega (arith, less, less'),
        same' ∙ same,
        woken,
      )

-- ===== src/Loop/Input.antt =====
-- Any event of a client: hangup, input and output.
use mathlib.Core.Path.{subst}
use c_chat_server.Base.{
  ℕ, ◌+◌, ◌*◌, ◌-◌, ◌≤◌, ◌<◌, ◌≡◌, ◌^◌, refl, arith, ap, sym, ◌∙◌, Bytes, Bool, some, true, false,
  Bool-cases, inl, inr, ◌>>=◌, ==_refl,
}
use c_chat_server.Os.{Os, Status, success, failure, ready}
use c_chat_server.Os.Laws.{IsAllocator, IsPlentiful, HasClock, IsServing, IsReadable, Status-cases}
use c_chat_server.Protocol.{msg_size_limit}
use c_chat_server.Client.{ClientInfo, buf_size}
use c_chat_server.Queue.TryWrite.{client_try_write-Drains}
use c_chat_server.Server.{Server}
use c_chat_server.Broadcast.Kept.{Holds}
use c_chat_server.Broadcast.Rounds.{after}
use c_chat_server.Broadcast.Direct.{IsDirect}
use c_chat_server.Handlers.Room.{IsMember, IsRoom, closing-IsMember}
use c_chat_server.Reader.{handle_client_read}
use c_chat_server.Reader.Going.{IsReading, Goes, Goes-same, Rests, put-Goes}
use c_chat_server.Reader.Serve.{Trace, returned, going, handle_client_read-Outcome}
use c_chat_server.Loop.{handle_event, write_side, close_on}
use c_chat_server.Loop.Hall.{
  IsActive, with_queue-IsReading, IsActive-weaken, IsHall, Keeps, hall-IsRoom, Goes-Keeps,
}
use c_chat_server.Loop.Sides.{
  Leaves, Leaves-trans, phase-1, Drains-with_queue, write-run, closing, read-run, event-closed,
  event-hangup, event-rest, event-write, event-refused, event-read, event-both,
}

module _ (os : Os) (bound : ℕ) (serve : IsServing os bound) (direct : IsDirect os bound) (fuel : ℕ)
    (enough : msg_size_limit + bound < fuel) (laws : IsAllocator os) (reads : IsReadable os)
    (rich : IsPlentiful os) (clock : HasClock os) (garbage : ClientInfo) (p : ℕ) where
  -- The client is marked closed.
  closes :
      (limit : ℕ) (s : Server os.World) (d : ClientInfo)
      → s.clients p ≡ some d
      → IsMember d
      → IsRoom s
      → (s' : Server os.World) × (close_on os fuel garbage p failure s ≡ some (false, s'))
        × Leaves os p limit s s'
  closes limit s d there m room = (
    after s p (record d { closed = true }) s.world,
    closing os fuel garbage p s there,
    (
      put-Goes s s p (record d { closed = true }) s.world (Goes-same room) (closing-IsMember d m),
      record d { closed = true },
      rw (==_refl p),
      (closing-IsMember d m, inl refl),
    ),
  )

  -- The queue is drained as far as it goes.
  writes :
      (limit : ℕ) (s : Server os.World) (d : ClientInfo) (block : Bytes)
      → s.clients p ≡ some d
      → IsReading os d block
      → d.partial_len ≤ limit
      → IsRoom s
      → (s' : Server os.World) × (write_side os fuel garbage p s ≡ some (tt, s'))
        × Leaves os p limit s s'
  unfolding close_on
  writes limit s d block there v short room =
      let (r, c', w', run, drains) =
        client_try_write-Drains os d (serve.out d.client_fd) fuel s.world v.member.queue (
          omega (
            arith,
            serve.calm d.client_fd s.world,
            v.member.queue.bytes,
            v.member.limit,
            enough,
          )) in
      let (q, e, same, w, lim) = Drains-with_queue os bound serve d drains in
      let lim' : q.queued_bytes ≤ msg_size_limit = omega (arith, lim, v.member.limit) in
      let v' : IsReading os c' block =
        subst (λ x. IsReading os x block) (sym same)
          (with_queue-IsReading d block q e d.closed w lim' v) in
      let s1 : Server os.World = after s p c' w' in
      let g : Goes p s s1 = put-Goes s s p c' w' (Goes-same room) v'.member in
      let short' : c'.partial_len ≤ limit = omega (arith, ap (λ x. x.partial_len) same, short) in
      elim (Status-cases r) [
        | inl fine ↦ (
          s1,
          write-run os fuel garbage p s there (run ∙ ap (λ x. some ((x, c'), w')) fine),
          (g, c', rw (==_refl p), (v'.member, inr (block, v', short'))),
        )
        | inr broke ↦
            let (s', shut, leaves) = closes limit s1 c' (rw (==_refl p)) v'.member g.room in
            (
              s',
              write-run os fuel garbage p s there (run ∙ ap (λ x. some ((x, c'), w')) broke)
                  ∙ ap-closed s1 s' shut,
              (Leaves-trans g leaves),
            )
      ]
    where
      ap-closed :
          (s1 s' : Server os.World)
          → close_on os fuel garbage p failure s1 ≡ some (false, s')
          → (close_on os fuel garbage p failure >>= λ _ w. some (tt, w)) s1 ≡ some (tt, s')
      ap-closed s1 s' shut = rw (◌>>=◌, shut)

  -- The event is over; or so many rounds of `handle_client_read` have all gone on.
  pub data Handles (n limit : ℕ) (hangup input output : Bool) (s : Server os.World) : Type 0 where
    handled :
        (s' : Server os.World)
        → handle_event os fuel garbage (ready p hangup input output) s ≡ some (tt, s')
        → Keeps os limit (limit + buf_size * n) s s'
        → Handles n limit hangup input output s
    still_reading :
        (c e : ClientInfo) (s' : Server os.World) (taken : ℕ)
        → s.clients p ≡ some c
        → c.closed ≡ false
        → hangup ≡ false
        → input ≡ true
        → Trace os bound serve direct fuel enough laws reads rich clock p n taken s c s' e
        → n ≤ 2 * taken + 1
        → Handles n limit hangup input output s

  module _ (n limit : ℕ) (s : Server os.World) (hall : IsHall os limit s) (c : ClientInfo)
      (here : s.clients p ≡ some c) where
    longer : ℕ
    longer = limit + buf_size * n

    more : limit ≤ longer
    unfolding longer
    more = omega arith

    -- An event that is over.
    over :
        (hangup input output : Bool) (s' : Server os.World)
        → handle_event os fuel garbage (ready p hangup input output) s ≡ some (tt, s')
        → Leaves os p longer s s'
        → Handles n limit hangup input output s
    unfolding longer
    over hangup input output s' run (g, d, there, a) =
        handled s' run (Goes-Keeps (omega arith) hall g there a)

    module _ (open_ : c.closed ≡ false) (block : Bytes) (v : IsReading os c block)
        (short : c.partial_len ≤ limit) where
      without_input : (output : Bool) → Handles n limit false false output s
      unfolding longer
      without_input false =
          over false false false s (event-rest os fuel garbage p s here open_) (
            Goes-same (hall-IsRoom hall),
            c,
            here,
            (v.member, inr (block, v, omega (arith, short))),
          )
      without_input true =
          let (s', run, leaves) =
            writes longer s c block here v (omega (arith, short)) (hall-IsRoom hall) in
          over false false true s' (event-write os fuel garbage p s here open_ run) leaves

      -- The reader returns 0.
      read_on :
          (output : Bool) (s1 : Server os.World) (d : ClientInfo) (block' : Bytes)
          → handle_client_read os fuel fuel p s ≡ some (success, s1)
          → Goes p s s1
          → s1.clients p ≡ some d
          → IsReading os d block'
          → d.partial_len ≤ longer
          → Handles n limit false true output s
      unfolding close_on
      read_on false s1 d block' run g there v' short' =
          over false true false s1
            (event-read os fuel garbage p s here open_ (read-run os fuel garbage p s run))
            (g, d, there, (v'.member, inr (block', v', short')))
      read_on true s1 d block' run g there v' short' =
          let (s', written, leaves) = writes longer s1 d block' there v' short' g.room in
          over false true true s'
            (event-both os fuel garbage p s here open_ (read-run os fuel garbage p s run) ∙ written)
            (Leaves-trans g leaves)

      with_input :
          limit + buf_size * n < 2 ^ 61
          → limit + buf_size * n + 130 + bound < fuel
          → (output : Bool) → Handles n limit false true output s
      unfolding longer
      with_input small enough' output =
          elim (handle_client_read-Outcome os bound serve direct fuel enough laws reads rich clock p
            n s c block here v (hall-IsRoom hall) (omega (arith, short, small))
            (omega (arith, short, enough'))) [
              | going s' e taken run t g counts ↦
                  still_reading c e s' taken here open_ refl refl t
                    (omega (arith, counts, phase-1 c.state))
              | returned r s1 run g rests ↦
                  returns r s1
                    (ap (λ k. handle_client_read os fuel k p s) (omega (arith, enough'))
                      ∙ run (fuel - n))
                    g rests
            ]
        where
          returns :
              (r : Status) (s1 : Server os.World)
              → handle_client_read os fuel fuel p s ≡ some (r, s1)
              → Goes p s s1
              → Rests os p (c.partial_len + buf_size * n) r s1
              → Handles n limit false true output s
          returns failure s1 run g rests =
              let (d, there, m) = g.moves p (c, here, v.member) in
              let (s', shut, leaves) = closes longer s1 d there m g.room in
              over false true output s'
                (event-refused os fuel garbage p s here open_ output
                  (read-run os fuel garbage p s run ∙ shut))
                (Leaves-trans g leaves)
          returns success s1 run g rests = elim (rests.valid) [
            | inl refused ↦ absurd (cc refused)
            | inr (block', v', short') ↦
                read_on output s1 rests.client block' run g rests.there v'
                  (omega (arith, short', short))
          ]

    -- A hangup of an open client.
    hangs :
        (input output : Bool) → c.closed ≡ false → IsMember c → Handles n limit true input output s
    hangs input output open_ m =
        let (s', shut, leaves) = closes longer s c here m (hall-IsRoom hall) in
        over true input output s' (event-hangup os fuel garbage p s here input output open_ shut)
          leaves

  -- With the sockets, the allocator and the clock as documented, memory, and more fuel than the
  -- queue's limit, or `limit` with 4096 bytes for each of `n` rounds and 130 more, and the
  -- interruptions, for a server whose mutex is free and whose clients, and the client of the event,
  -- are active (a valid queue within the limit, a name field with a NUL, and, unless it is closed, a
  -- valid reader and a valid message buffer with at most `limit` bytes): whatever the flags of the
  -- event are, whatever bytes come in and whatever messages and commands they are, `handle_event`
  -- either returns, with no access out of bounds, no use of NULL or of freed memory, and no lock of
  -- the locked mutex, and the server is one of these again, with the same list, all clients that
  -- were active active, and messages of at most 4096 bytes more for each round; or the client is
  -- open, the event has input and no hangup, and the calls of `n` rounds of the reader in a row all
  -- succeed and go on, each in the server that the last one left, by reads that give at least
  -- (n - 1) / 2 bytes together.
  pub handle_event-Keeps :
      (n limit : ℕ) (s : Server os.World)
      → IsHall os limit s
      → Holds (IsActive os limit) s p
      → limit + buf_size * n < 2 ^ 61
      → limit + buf_size * n + 130 + bound < fuel
      → (hangup input output : Bool) → Handles n limit hangup input output s
  unfolding longer
  handle_event-Keeps n limit s hall (c, here, a) small enough' hangup input output =
      elim (Bool-cases c.closed) [
        | inl shut ↦
            over n limit s hall c here hangup input output s
              (event-closed os fuel garbage p s here input output hangup shut)
              (Goes-same (hall-IsRoom hall), c, here, IsActive-weaken (omega arith) c a)
        | inr open_ ↦ elim (a.1) [
          | inl shut ↦ absurd (cc (open_, shut))
          | inr (block, v, short) ↦ by_flags hangup input output open_ block v short
        ]
      ]
    where
      by_flags :
          (hangup input output : Bool)
          → c.closed ≡ false
          → (block : Bytes) → IsReading os c block
          → c.partial_len ≤ limit
          → Handles n limit hangup input output s
      by_flags true input output open_ block v short =
          hangs n limit s hall c here input output open_ v.member
      by_flags false false output open_ block v short =
          without_input n limit s hall c here open_ block v short output
      by_flags false true output open_ block v short =
          with_input n limit s hall c here open_ block v short small enough' output

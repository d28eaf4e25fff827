-- ===== src/Loop/Events.antt =====
-- An event of a client without input: a hangup, and room for output.
use c_chat_server.Base.{
  ℕ, ◌+◌, ◌<◌, ◌≡◌, refl, arith, Bytes, ◌++◌, Bool, some, true, false, Bool-cases, inl, inr, ◌>>=◌,
  if◌then◌else◌, ==_refl,
}
use c_chat_server.Os.{Os, Status, success, failure}
use c_chat_server.Os.Laws.{IsServing}
use c_chat_server.Protocol.{msg_size_limit}
use c_chat_server.Client.{ClientInfo}
use c_chat_server.Queue.{client_try_write}
use c_chat_server.Queue.Content.{unsent}
use c_chat_server.Queue.TryWrite.{Drains, drained, blocked, broken, client_try_write-Drains}
use c_chat_server.Server.{Server, get_client-some}
use c_chat_server.Broadcast.Rounds.{after}
use c_chat_server.Handlers.Room.{IsMember, IsRoom, closing-IsMember}
use c_chat_server.Reader.Going.{Goes, Goes-same, put-Goes}
use c_chat_server.Loop.{handle_event}
use c_chat_server.Os.{ready}

-- The client behind a write: a failure marks it closed.
abbrev pub marked : Status → ClientInfo → ClientInfo
marked success c = c
marked failure c = record c { closed = true }

module _ (os : Os) (bound : ℕ) (serve : IsServing os bound) where
  -- A closed client is left alone; a hangup only marks it; without room for output nothing
  -- happens; else its queue is drained, and a failure marks it.
  pub data Handled (c : ClientInfo) (w : os.World) (hangup output : Bool) (d : ClientInfo)
      (w' : os.World) : Type 0 where
    was_closed : c.closed ≡ true → d ≡ c → w' ≡ w → Handled c w hangup output d w'
    hung_up :
        c.closed ≡ false
        → hangup ≡ true
        → d ≡ record c { closed = true }
        → w' ≡ w
        → Handled c w hangup output d w'
    nothing :
        c.closed ≡ false
        → hangup ≡ false
        → output ≡ false
        → d ≡ c
        → w' ≡ w
        → Handled c w hangup output d w'
    wrote :
        (r : Status) (c' : ClientInfo)
        → c.closed ≡ false
        → hangup ≡ false
        → output ≡ true
        → Drains os c
            (serve.out c.client_fd)
            ((serve.out c.client_fd).sent w ++ unsent c.msg_queue.packets)
            c.msg_queue.queued_bytes
            w'
            r
            c'
        → d ≡ marked r c'
        → Handled c w hangup output d w'

  module _ (fuel : ℕ) (garbage : ClientInfo) (enough : msg_size_limit + bound < fuel) (p : ℕ)
      (s : Server os.World) (c : ClientInfo) (here : s.clients p ≡ some c) (m : IsMember c)
      (room : IsRoom s) where
    Leaves : (hangup output : Bool) → Type 0
    Leaves hangup output =
        (d : ClientInfo) × (w' : os.World) × (s' : Server os.World) × (handle_event os fuel garbage
            (ready p hangup false output) s
          ≡ some (tt, s'))
        × Goes p s s'
        × (s'.clients p ≡ some d)
        × (s'.world ≡ w')
        × Handled c s.world hangup output d w'

    same : Goes p s s
    same = Goes-same room

    Drains-IsMember :
        {w' : os.World} {r : Status} {c' : ClientInfo} {stream : Bytes}
        → Drains os c (serve.out c.client_fd) stream c.msg_queue.queued_bytes w' r c'
        → IsMember c'
    Drains-IsMember (drained q e v lim nil all) = record {
      queue = v;
      limit = omega (arith, m.limit);
      named = m.named;
      sized = m.sized;
      ended = m.ended;
    }
    Drains-IsMember (blocked q bytes w n e v lim all) = record {
      queue = v;
      limit = omega (arith, m.limit);
      named = m.named;
      sized = m.sized;
      ended = m.ended;
    }
    Drains-IsMember (broken q bytes w n e v lim all) = record {
      queue = v;
      limit = omega (arith, m.limit);
      named = m.named;
      sized = m.sized;
      ended = m.ended;
    }

    writes : c.closed ≡ false → Leaves false true
    unfolding Leaves handle_event
    writes open_ =
        let (r, c', w', run, drains) =
          client_try_write-Drains os c (serve.out c.client_fd) fuel s.world m.queue
            (omega (arith, serve.calm c.client_fd s.world, m.queue.bytes, m.limit, enough)) in
        by_result r c' w' run drains
      where
        by_result :
            (r : Status) (c' : ClientInfo) (w' : os.World)
            → client_try_write os fuel c s.world ≡ some ((r, c'), w')
            → Drains os c
                (serve.out c.client_fd)
                ((serve.out c.client_fd).sent s.world ++ unsent c.msg_queue.packets)
                c.msg_queue.queued_bytes
                w'
                r
                c'
            → Leaves false true
        by_result success c' w' run drains = (
          c',
          w',
          after s p c' w',
          rw (get_client-some p s here, ◌>>=◌, open_, if◌then◌else◌, get_client-some p s here, run),
          put-Goes s s p c' w' same (Drains-IsMember drains),
          rw (==_refl p),
          refl,
          wrote success c' open_ refl refl drains refl,
        )
        by_result failure c' w' run drains =
            let there : (after s p c' w').clients p ≡ some c' = rw (==_refl p) in
            (
              record c' { closed = true },
              w',
              after (after s p c' w') p (record c' { closed = true }) w',
              rw (
                get_client-some p s here,
                ◌>>=◌,
                open_,
                if◌then◌else◌,
                get_client-some p s here,
                run,
                get_client-some p (after s p c' w') there,
              ),
              put-Goes s (after s p c' w') p (record c' { closed = true }) w'
                  (put-Goes s s p c' w' same (Drains-IsMember drains))
                  (closing-IsMember c' (Drains-IsMember drains)),
              rw (==_refl p),
              refl,
              wrote failure c' open_ refl refl drains refl,
            )

    quiet : (hangup output : Bool) → c.closed ≡ true → Leaves hangup output
    unfolding Leaves handle_event
    quiet hangup output shut = (
      c,
      s.world,
      s,
      rw (get_client-some p s here, ◌>>=◌, shut, if◌then◌else◌),
      same,
      here,
      refl,
      was_closed shut refl refl,
    )

    hangs : (output : Bool) → c.closed ≡ false → Leaves true output
    unfolding Leaves handle_event
    hangs output open_ =
        let d : ClientInfo = record c { closed = true } in
        (
          d,
          s.world,
          after s p d s.world,
          rw (get_client-some p s here, ◌>>=◌, open_, if◌then◌else◌, get_client-some p s here),
          put-Goes s s p d s.world same (closing-IsMember c m),
          rw (==_refl p),
          refl,
          hung_up open_ refl refl refl,
        )

    rests : c.closed ≡ false → Leaves false false
    unfolding Leaves handle_event
    rests open_ = (
      c,
      s.world,
      s,
      rw (get_client-some p s here, ◌>>=◌, open_, if◌then◌else◌),
      same,
      here,
      refl,
      nothing open_ refl refl refl refl,
    )

    -- With the sockets as documented, more fuel than the queue's limit and the interruptions
    -- together, for an allocated client of the room: `handle_event` on an event without input
    -- returns with no access out of bounds, and the server is a room again with the same list.
    -- A closed client is left as it was; else a hangup marks the client closed and nothing else
    -- happens; else, if there is room for output, its queue is drained as far as the socket
    -- takes bytes, in order and with none lost, and the client is marked closed exactly when a
    -- call of `send` failed or took no byte.
    pub handle_event-Handled :
        (hangup output : Bool)
        → (d : ClientInfo) × (w' : os.World) × (s' : Server os.World) × (handle_event os fuel
              garbage
              (ready p hangup false output)
              s
            ≡ some (tt, s'))
          × Goes p s s'
          × (s'.clients p ≡ some d)
          × (s'.world ≡ w')
          × Handled c s.world hangup output d w'
    unfolding Leaves
    handle_event-Handled hangup output = elim (Bool-cases c.closed) [
      | inl shut ↦ quiet hangup output shut
      | inr open_ ↦ by_flags hangup output open_
    ]
      where
        by_flags : (hangup output : Bool) → c.closed ≡ false → Leaves hangup output
        by_flags true output open_ = hangs output open_
        by_flags false false open_ = rests open_
        by_flags false true open_ = writes open_

-- ===== src/Loop/Shutdown.antt =====
-- What follows the loop: the last message, and the end of all clients.
use mathlib.Core.Path.{subst}
use c_chat_server.Base.{
  ℕ, ◌+◌, ◌≤◌, ◌<◌, ◌≡◌, ◌^◌, refl, arith, ap, sym, ◌∙◌, List, [], ◌∷◌, ◌++◌, some, none, true,
  false, Bool-cases, inl, inr, ◌==◌, All, length, reverse, ◌>>=◌, ◌>>◌,
}
use c_chat_server.Os.{Os, Status, success, failure, epoll_del}
use c_chat_server.Os.Laws.{IsAllocator, IsServing}
use c_chat_server.Protocol.{header_size, msg_size_limit}
use c_chat_server.Client.{ClientInfo}
use c_chat_server.Server.{Server, get_client-some, remove_each, remove_all_clients}
use c_chat_server.Server.RemoveAll.{
  IsDistinct, IsAllocated, RemovesEach, all_freed, left_over, remove_all_clients-RemovesEach,
}
use c_chat_server.Server.Distinct.{reverse-All, reverse-Distinct}
use c_chat_server.Broadcast.Rounds.{
  Served, Deliveries, after, update-other, map-All, out_header, broadcast-Sends,
}
use c_chat_server.Loop.{free_queue, free_queues, shut_down, shutdown_message}
use c_chat_server.Broadcast.Kept.{Holds}
use c_chat_server.Broadcast.{broadcast}
use c_chat_server.Loop.Hall.{IsActive, IsHall}

pub last_message_within : length shutdown_message ≤ length shutdown_message
last_message_within = omega arith

pub last_message_small : header_size + length shutdown_message < 2 ^ 62
last_message_small = omega arith

module _ (os : Os) where
  -- The queues of a list are freed: all clients stay where they are.
  pub record Emptied (s s' : Server os.World) : Type 0 where
    pub list : s'.client_list ≡ s.client_list
    pub locked : s'.locked ≡ s.locked
    pub there :
        (q : ℕ) (c : ClientInfo) → s.clients q ≡ some c → (d : ClientInfo) × (s'.clients q ≡ some d)

  put-there :
      (s : Server os.World) (p : ℕ) (d : ClientInfo) (q : ℕ) (c : ClientInfo)
      → s.clients q ≡ some c
      → (e : ClientInfo) × ((after s p d s.world).clients q ≡ some e)
  put-there s p d q c here = elim (Bool-cases (p == q)) [
    | inl hit ↦ (d, rw hit)
    | inr miss ↦ (c, update-other s.clients p (some d) q miss ∙ here)
  ]

  free_queues-Emptied :
      (fuel : ℕ) (garbage : ClientInfo) (l : List ℕ) (s : Server os.World)
      → IsAllocated s l
      → (s' : Server os.World) × (free_queues os fuel garbage l s ≡ some (tt, s')) × Emptied s s'
  unfolding free_queues
  free_queues-Emptied fuel garbage [] s h =
      (s, refl, record { list = refl; locked = refl; there = λ q c here. (c, here) })
  free_queues-Emptied fuel garbage (p ∷ ps) s ((c, here), h) =
      let d = free_queue c in
      let (s', run, e) =
        free_queues-Emptied fuel garbage ps (after s p d s.world)
          (map-All (λ q (x, at). put-there s p d q x at) ps h) in
      (
        s',
        rw (free_queues, get_client-some p s here, ◌>>=◌, ◌>>◌) run,
        record {
          list = e.list;
          locked = e.locked;
          there = λ q x at. let (y, at') = put-there s p d q x at in e.there q y at';
        },
      )

  -- All clients of the list are freed and the mutex is free; or, behind the removal of those behind
  -- it in the list, the `close` of one has failed, and the mutex is left locked. `s3` is the server
  -- from which they are removed.
  pub data Ended (l : List ℕ) (s3 s' : Server os.World) : Type 0 where
    all_gone : s'.locked ≡ false → All (λ p. s'.clients p ≡ none) (reverse l) → Ended l s3 s'
    stuck :
        (before after : List ℕ) (p : ℕ) (c : ClientInfo) (s0 : Server os.World)
        → reverse l ≡ before ++ p ∷ after
        → s3.clients p ≡ some c
        → remove_each os before (record s3 { locked = true }) ≡ some (success, s0)
        → os.close c.client_fd (os.epoll_ctl epoll_del c.client_fd s0.world).1 ≡ (failure, s'.world)
        → s'.locked ≡ true
        → All (λ q. s'.clients q ≡ none) before
        → Ended l s3 s'

  module _ (fuel : ℕ) (garbage : ClientInfo) where
    -- The world when the listening socket is closed.
    pub closing_world : Server os.World → os.World
    closing_world s =
        let w1 = (os.epoll_ctl epoll_del s.server_fd s.world).1 in
        let w2 = (os.shutdown s.server_fd w1).1 in (os.close s.server_fd w2).1

    shut-run :
        (s s1 : Server os.World) {s3 s4 : Server os.World} {r r' : Status}
        → broadcast os fuel none shutdown_message (length shutdown_message) s ≡ some (r, s1)
        → free_queues os fuel garbage s1.client_list (record s1 { world = closing_world s1 })
          ≡ some (tt, s3)
        → remove_all_clients os s3 ≡ some (r', s4)
        → shut_down os fuel garbage s ≡ some (success, s4)
    unfolding shut_down closing_world
    shut-run s s1 sent freed removed = rw (◌>>=◌, sent, ◌>>◌, freed, removed)

  module _ (bound : ℕ) (serve : IsServing os bound) (fuel : ℕ)
      (enough : msg_size_limit + bound < fuel) (laws : IsAllocator os) (garbage : ClientInfo) where
    -- What follows the loop, by its calls: the last message is delivered, the listening socket is
    -- closed, the queues are freed, and the clients are removed.
    pub record Closing (s s' : Server os.World) : Type 0 where
      pub s1 : Server os.World
      pub deliveries :
          Deliveries os bound serve fuel enough laws shutdown_message
            (length shutdown_message)
            last_message_within
            last_message_small
            none
            (out_header os.byte_order (length shutdown_message))
            s.client_list
            (record s { locked = true })
            s1
      pub s3 : Server os.World
      pub freed :
          free_queues os fuel garbage s1.client_list (record s1 {
            locked = false;
            world = closing_world fuel garbage (record s1 { locked = false });
          })
          ≡ some (tt, s3)
      pub status : Status
      pub removed : remove_all_clients os s3 ≡ some (status, s')
      pub ends : Ended s.client_list s3 s'

    -- With the sockets and the allocator as documented and more fuel than the queue's limit and the
    -- interruptions together, for a server whose mutex is free and whose list has at most 1000
    -- clients, none of them twice and each of them active: what follows the loop returns 0, with no
    -- use of a freed client and no lock of the locked mutex. One delivery of "SERVER SHUTDOWN" is
    -- made to each client that is not closed by then, in the order of the list; in the world that
    -- they leave the listening socket is closed, and the queues are freed; and from there, every
    -- client of the list is freed and the mutex is free, or the `close` of one fails, exactly
    -- those behind it in the list are freed, and the mutex is left locked.
    pub shut_down-Ended :
        (limit : ℕ) (s : Server os.World)
        → IsHall os limit s
        → (s' : Server os.World) × (shut_down os fuel garbage s ≡ some (success, s')) × Closing s s'
    shut_down-Ended limit s hall =
        let (s1, sent, ds, sends) =
          broadcast-Sends os bound serve fuel enough laws shutdown_message (length shutdown_message)
            last_message_within last_message_small none s hall.free
            (map-All served s.client_list hall.active) in
        let s2 : Server os.World = record s1 { locked = false } in
        let kept : IsAllocated s1 s1.client_list =
          subst (IsAllocated s1) (sym sends.list)
            (map-All (λ q h. there s1 q (sends.served q (served q h))) s.client_list hall.active) in
        let (s3, freed, e) =
          free_queues-Emptied fuel garbage s2.client_list
            (record s2 { world = closing_world fuel garbage s2 }) kept in
        let kept3 : IsAllocated s3 s3.client_list =
          subst (IsAllocated s3) (sym e.list)
            (map-All (λ q (c, at). e.there q c at) s1.client_list kept) in
        let same : s3.client_list ≡ s.client_list = e.list ∙ sends.list in
        ended s1 s3 sent ds freed same (
          remove_all_clients-RemovesEach os s3 e.locked
            (reverse-Distinct s3.client_list (subst IsDistinct (sym same) hall.distinct))
            (reverse-All (λ p. (c : ClientInfo) × (s3.clients p ≡ some c)) s3.client_list kept3))
      where
        served : (q : ℕ) → Holds (IsActive os limit) s q → Served s q
        served q (c, here, a) = (c, here, a.0.queue, a.0.limit)

        there :
            (s1 : Server os.World) (q : ℕ)
            → Served s1 q
            → (c : ClientInfo) × (s1.clients q ≡ some c)
        there s1 q (c, at, v, lim) = (c, at)

        ended :
            (s1 s3 : Server os.World)
            → broadcast os fuel none shutdown_message (length shutdown_message) s
              ≡ some (success, record s1 { locked = false })
            → Deliveries os bound serve fuel enough laws shutdown_message
                (length shutdown_message)
                last_message_within
                last_message_small
                none
                (out_header os.byte_order (length shutdown_message))
                s.client_list
                (record s { locked = true })
                s1
            → free_queues os fuel garbage s1.client_list (record s1 {
              locked = false;
              world = closing_world fuel garbage (record s1 { locked = false });
            })
              ≡ some (tt, s3)
            → s3.client_list ≡ s.client_list
            → RemovesEach os
                (reverse s3.client_list)
                (record s3 { locked = true })
                (remove_all_clients os s3)
            → (s' : Server os.World) × (shut_down os fuel garbage s ≡ some (success, s'))
              × Closing s s'
        ended s1 s3 sent ds freed same (all_freed s' run free f) = (
          s',
          shut-run fuel garbage s (record s1 { locked = false }) sent freed run,
          record {
            s1 = s1;
            deliveries = ds;
            s3 = s3;
            freed = freed;
            status = success;
            removed = run;
            ends =
                all_gone free (subst (λ l. All (λ p. s'.clients p ≡ none) (reverse l)) same f.gone);
          },
        )
        ended s1 s3 sent ds freed same
              (left_over before behind p c s0 s' split there gone shut run still f) =
            (
              s',
              shut-run fuel garbage s (record s1 { locked = false }) sent freed run,
              record {
                s1 = s1;
                deliveries = ds;
                s3 = s3;
                freed = freed;
                status = failure;
                removed = run;
                ends =
                    stuck before behind p c s0 (ap reverse (sym same) ∙ split) there gone shut still
                      f.gone;
              },
            )

-- ===== src/Loop/Sweep.antt =====
-- The sweep of the closed clients.
use mathlib.Core.Path.{subst}
use mathlib.Core.Option.{some-injective}
use c_chat_server.Base.{
  ℕ, zero, suc, ◌+◌, ◌≤◌, ◌<◌, ◌≡◌, refl, arith, ap, sym, ◌∙◌, List, [], ◌∷◌, Option, some, none,
  true, false, Bool-cases, inl, inr, ◌==◌, ==_refl, All, length, get_elem?, pure, ◌>>=◌, ◌>>◌,
  if◌then◌else◌,
}
use c_chat_server.Os.{Os, Status, success, failure, epoll_del}
use c_chat_server.Client.{ClientInfo}
use c_chat_server.Server.{Server, get_client-some, lock-free, swap_remove, remove_client_from_list}
use c_chat_server.Server.ListLaws.{cleaned, cleanup-cleaned}
use c_chat_server.Server.RemoveAll.{IsNot, IsDistinct}
use c_chat_server.Server.Distinct.{
  swap_remove-All, swap_remove-Distinct, swap_remove-length, swap_remove-some,
}
use c_chat_server.Broadcast.Kept.{Holds}
use c_chat_server.Broadcast.Rounds.{after, update-other}
use c_chat_server.Loop.{sweep, sweep_client, reap, free_queue}
use c_chat_server.Loop.Hall.{IsActive, IsHall}

-- A client that is not closed is as it was.
abbrev pub Spares : {W : Type 0} → Server W → Server W → Type 0
Spares s s' =
    (q : ℕ) (c : ClientInfo) → s.clients q ≡ some c → c.closed ≡ false → s'.clients q ≡ some c

entry-All : (P : ℕ → Type 0) (l : List ℕ) (i p : ℕ) → get_elem? l i ≡ some p → All P l → P p
entry-All P [] i p e h = absurd (cc e)
entry-All P (q ∷ qs) zero p e h = subst P (some-injective _ _ e) h.0
entry-All P (q ∷ qs) (suc i) p e h = entry-All P qs i p e h.1

entry-length : (l : List ℕ) (i p : ℕ) → get_elem? l i ≡ some p → i < length l
entry-length [] i p e = absurd (cc e)
entry-length (q ∷ qs) zero p e = omega arith
entry-length (q ∷ qs) (suc i) p e = omega (arith, entry-length qs i p e)

module _ (os : Os) (limit : ℕ) where
  -- The server behind the removal of a closed client.
  pub record Swept (s s' : Server os.World) : Type 0 where
    pub hall : IsHall os limit s'
    pub shorter : length s'.client_list ≤ length s.client_list
    pub spares : Spares s s'

  module _ (s : Server os.World) (hall : IsHall os limit s) (p : ℕ) (c : ClientInfo)
      (here : s.clients p ≡ some c) where
    by_flag : sweep_client os p s ≡ (if c.closed then reap os p c else pure tt) s
    unfolding sweep_client
    by_flag = rw (get_client-some p s here, ◌>>=◌)

    untouched : c.closed ≡ false → sweep_client os p s ≡ some (tt, s)
    untouched h = by_flag ∙ ap (λ b. (if b then reap os p c else pure tt) s) h

    -- The server when the client's queue is freed.
    emptied : Server os.World
    unfolding free_queue
    emptied = after s p (free_queue c) (os.epoll_ctl epoll_del c.client_fd s.world).1

    reaped :
        {r : Status} {s' : Server os.World}
        → c.closed ≡ true
        → remove_client_from_list os p emptied ≡ some (r, s')
        → sweep_client os p s ≡ some (tt, s')
    unfolding reap emptied
    reaped h run = by_flag ∙ ap (λ b. (if b then reap os p c else pure tt) s) h ∙ rw (◌>>=◌, run)

    module _ (rest : List ℕ) (found : swap_remove p s.client_list ≡ some rest) where
      -- The server when the client has left the list.
      left : Server os.World
      unfolding emptied
      left = record emptied { client_list = rest; locked = false }

      -- The server when the client is closed as well.
      gone : Status → os.World → Server os.World
      unfolding left emptied
      gone r w = cleaned os left p (free_queue c) r w

      removes :
          (r : Status) × (w : os.World) × (remove_client_from_list os p emptied
            ≡ some (r, gone r w))
      unfolding remove_client_from_list emptied left gone
      removes =
          let there : left.clients p ≡ some (free_queue c) = rw (==_refl p) in
          (
            (os.close c.client_fd emptied.world).0,
            (os.close c.client_fd emptied.world).1,
            rw (lock-free emptied hall.free, ◌>>=◌, found)
                (cleanup-cleaned os left p (free_queue c) there),
          )

      -- All other clients are as they were.
      others :
          (r : Status) (w : os.World) (q : ℕ)
          → (p == q) ≡ false
          → (cleaned os left p (free_queue c) r w).clients q ≡ s.clients q
      unfolding left emptied
      others success w q miss =
          update-other emptied.clients p none q miss
          ∙ update-other s.clients p (some (free_queue c)) q miss
      others failure w q miss = update-other s.clients p (some (free_queue c)) q miss

      gone-list :
          (r : Status) (w : os.World)
          → ((gone r w).client_list ≡ rest) × ((gone r w).locked ≡ false)
      unfolding gone left
      gone-list success w = (refl, refl)
      gone-list failure w = (refl, refl)

      gone-Swept : (r : Status) (w : os.World) → c.closed ≡ true → Swept s (gone r w)
      unfolding gone
      gone-Swept r w shut =
          let (list, free) = gone-list r w in
          let (apart, distinct) = swap_remove-Distinct p s.client_list rest found hall.distinct in
          let less = swap_remove-length p s.client_list rest found in
          let kept : All (Holds (IsActive os limit) (gone r w)) rest = both-All rest apart (
            swap_remove-All (Holds (IsActive os limit) s) p s.client_list rest found hall.active) in
          record {
            hall = record {
              free = free;
              few = omega (arith, ap length list, less, hall.few);
              distinct = subst IsDistinct (sym list) distinct;
              active = subst (All (Holds (IsActive os limit) (gone r w))) (sym list) kept;
            };
            shorter = omega (arith, ap length list, less);
            spares = λ q d there open_. elim (Bool-cases (p == q)) [
              | inr miss ↦ others r w q miss ∙ there
              | inl hit ↦
                  let at : p ≡ q = ground arith in
                  let is : d ≡ c = some-injective _ _ (sym there ∙ ap s.clients (sym at) ∙ here) in
                  absurd (cc (sym open_ ∙ ap (λ x. x.closed) is ∙ shut))
            ];
          }
        where
          swap : (p q : ℕ) → (q == p) ≡ false → (p == q) ≡ false
          swap p q ne = ground arith

          both-All :
              (l : List ℕ)
              → IsNot p l
              → All (Holds (IsActive os limit) s) l
              → All (Holds (IsActive os limit) (gone r w)) l
          both-All [] n h = tt
          both-All (q ∷ qs) (miss, n) ((d, there, a), h) =
              ((d, others r w q (swap p q miss) ∙ there, a), both-All qs n h)

  Swept-trans : {s s1 s' : Server os.World} → Swept s s1 → Swept s1 s' → Swept s s'
  Swept-trans g h = record {
    hall = h.hall;
    shorter = omega (arith, g.shorter, h.shorter);
    spares = λ q c there open_. h.spares q c (g.spares q c there open_) open_;
  }

  Swept-same : {s : Server os.World} → IsHall os limit s → Swept s s
  Swept-same hall = record { hall = hall; shorter = omega arith; spares = λ q c there open_. there }

  one_client :
      (s : Server os.World) (i p : ℕ)
      → IsHall os limit s
      → get_elem? s.client_list i ≡ some p
      → (s' : Server os.World) × (sweep_client os p s ≡ some (tt, s')) × Swept s s'
  one_client s i p hall at =
      let (c, here, a) = entry-All (Holds (IsActive os limit) s) s.client_list i p at hall.active in
      elim (Bool-cases c.closed) [
        | inr open_ ↦ (s, untouched s hall p c here open_, Swept-same hall)
        | inl shut ↦
            let (rest, found) = swap_remove-some s.client_list i p at in
            let (r, w, run) = removes s hall p c here rest found in
            (
              gone s hall p c here rest found r w,
              reaped s hall p c here shut run,
              gone-Swept s hall p c here rest found r w shut,
            )
      ]

  -- For a server whose mutex is free and whose list has at most 1000 clients, none of them twice
  -- and each of them active, and enough rounds for the entries from `i` on and the end of the
  -- list: the sweep returns, with no use of a freed client and no lock of the locked mutex, and
  -- the server is one of these again. The list is no longer, and every client that is not closed is
  -- as it was.
  pub sweep-Swept :
      (rounds i : ℕ) (s : Server os.World)
      → IsHall os limit s
      → 1 ≤ rounds
      → length s.client_list + 1 ≤ rounds + i
      → (s' : Server os.World) × (sweep os rounds i s ≡ some (tt, s')) × Swept s s'
  unfolding sweep
  sweep-Swept zero i s hall some_round enough = absurd (omega arith)
  sweep-Swept (suc rounds) i s hall some_round enough =
      by_entry (get_elem? s.client_list i) refl (sweep-Swept rounds (i + 1))
    where
      by_entry :
          (e : Option ℕ)
          → get_elem? s.client_list i ≡ e
          → ((s1 : Server os.World)
              → IsHall os limit s1
              → 1 ≤ rounds
              → length s1.client_list + 1 ≤ rounds + (i + 1)
              → (s' : Server os.World) × (sweep os rounds (i + 1) s1 ≡ some (tt, s')) × Swept s1 s')
          → (s' : Server os.World) × (sweep os (suc rounds) i s ≡ some (tt, s')) × Swept s s'
      by_entry none at next = (s, rw (sweep, ◌>>=◌, at), Swept-same hall)
      by_entry (some p) at next =
          let (s1, run, swept) = one_client s i p hall at in
          let inside = entry-length s.client_list i p at in
          let (s', rest, swept') =
            next s1 swept.hall (omega (arith, inside, enough))
              (omega (arith, swept.shorter, enough)) in
          (s', rw (sweep, ◌>>=◌, at, run, ◌>>◌) rest, Swept-trans swept swept')

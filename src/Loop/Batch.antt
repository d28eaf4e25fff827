-- ===== src/Loop/Batch.antt =====
-- The events that one `epoll_wait` reports.
use c_chat_server.Base.{
  ℕ, zero, suc, ◌+◌, ◌*◌, ◌≤◌, ◌<◌, ◌≡◌, ◌^◌, refl, arith, ap, sym, List, [], ◌∷◌, ◌++◌, Bool, some,
  false, true, Bool-cases, inl, inr, ◌⊎◌, ◌==◌, All, length, ◌>>=◌, ◌>>◌,
}
use mathlib.Core.Path.{subst}
use c_chat_server.Os.{Os, Event, listening, ready}
use c_chat_server.Os.Laws.{IsAllocator, IsPlentiful, HasClock, IsServing, IsReadable}
use c_chat_server.Protocol.{msg_size_limit}
use c_chat_server.Client.{ClientInfo, buf_size}
use c_chat_server.Server.{Server}
use c_chat_server.Server.RemoveAll.{IsNot}
use c_chat_server.Broadcast.Kept.{Holds}
use c_chat_server.Broadcast.Direct.{IsDirect}
use c_chat_server.Reader.Serve.{Trace}
use c_chat_server.Loop.{handle_event, handle_events, accept_new_clients}
use c_chat_server.Loop.Hall.{IsActive, IsHall, Stays, Stays-same, Stays-trans, Stays-weaken}
use c_chat_server.Loop.Input.{handled, still_reading, handle_event-Keeps}
use c_chat_server.Loop.Offer.{IsBlock, Gets}
use c_chat_server.Loop.Accept.{Admits, accepted, reused, accept_new_clients-Accepts}

-- `limit` with `step` for each of `k` events.
abbrev pub grown : (limit step k : ℕ) → ℕ
grown limit step zero = limit
grown limit step (suc k) = grown (limit + step) step k

pub grown-least : (limit step k : ℕ) → limit ≤ grown limit step k
grown-least limit step zero = omega arith
grown-least limit step (suc k) = omega (arith, grown-least (limit + step) step k)

pub grown-more : (limit step k b : ℕ) → k ≤ b → grown limit step k ≤ grown limit step b
grown-more limit step zero b h = grown-least limit step b
grown-more limit step (suc k) zero h = absurd (omega arith)
grown-more limit step (suc k) (suc b) h = grown-more (limit + step) step k b (omega arith)

-- An address is none of the list, or its entry has the property.
listed : (P : ℕ → Type 0) (l : List ℕ) (p : ℕ) → All P l → IsNot p l ⊎ P p
listed P [] p h = inl tt
listed P (q ∷ qs) p (v, h) = elim (Bool-cases (q == p)) [
  | inl hit ↦ let is : q ≡ p = ground arith in inr (subst P is v)
  | inr miss ↦ elim (listed P qs p h) [ inl ne ↦ inl (miss, ne) | inr v' ↦ inr v' ]
]

module _ (os : Os) (bound : ℕ) (serve : IsServing os bound) (direct : IsDirect os bound) (fuel : ℕ)
    (enough : msg_size_limit + bound < fuel) (laws : IsAllocator os) (reads : IsReadable os)
    (rich : IsPlentiful os) (clock : HasClock os) (garbage : ClientInfo) (stack : IsBlock garbage)
    (n : ℕ) where
  -- What the surroundings can do to the server at an event: report a client that is not in the
  -- list; give the reader of an open client bytes for `n` rounds, all of which succeed and go on; or
  -- hand out the block of a client that is in use for a new one.
  pub data Breach (limit : ℕ) : Event → Server os.World → Type 0 where
    stray :
        {s : Server os.World} {p : ℕ} {hangup input output : Bool}
        → IsNot p s.client_list
        → Breach limit (ready p hangup input output) s
    flooded :
        {s : Server os.World} {p : ℕ} {output : Bool} (c e : ClientInfo) (s' : Server os.World)
        (taken : ℕ)
        → s.clients p ≡ some c
        → c.closed ≡ false
        → Trace os bound serve direct fuel enough laws reads rich clock p n taken s c s' e
        → n ≤ 2 * taken + 1
        → Breach limit (ready p false true output) s
    handed_out :
        {s : Server os.World} (k m : ℕ) (s1 : Server os.World) (info : ℕ) (c : ClientInfo)
        → fuel ≡ k + m
        → accept_new_clients os fuel garbage s ≡ accept_new_clients os m garbage s1
        → Admits os garbage stack laws rich limit k s s1
        → Stays os limit limit s s1
        → Gets os garbage s1 info
        → s1.clients info ≡ some c
        → Breach limit listening s

  data EventRun (limit : ℕ) (e : Event) (s : Server os.World) : Type 0 where
    done :
        (s' : Server os.World)
        → handle_event os fuel garbage e s ≡ some (tt, s')
        → Stays os limit (limit + buf_size * n) s s'
        → EventRun limit e s
    breaks : Breach limit e s → EventRun limit e s

  event :
      (limit : ℕ) (e : Event) (s : Server os.World)
      → IsHall os limit s
      → limit + buf_size * n < 2 ^ 61
      → limit + buf_size * n + 130 + bound < fuel
      → EventRun limit e s
  unfolding handle_event
  event limit listening s hall small enough' =
      elim (accept_new_clients-Accepts os garbage stack laws rich limit fuel s hall
        (omega (arith, enough))) [
          | accepted r s' run g ↦ done s' (rw (◌>>=◌, run)) (Stays-weaken (omega arith) g)
          | reused k m s1 info c e run t g gets there ↦
              breaks (handed_out k m s1 info c e run t g gets there)
        ]
  event limit (ready p hangup input output) s hall small enough' =
      elim (listed (Holds (IsActive os limit) s) s.client_list p hall.active) [
        | inl ne ↦ breaks (stray ne)
        | inr at ↦
            elim (handle_event-Keeps os bound serve direct fuel enough laws reads rich clock garbage
              p n limit s hall at small enough' hangup input output) [
                | handled s' run k ↦ done s' run (record { hall = k.hall; stay = k.stay })
                | still_reading c e s' taken here open_ no_hangup on t counts ↦ breaks (
                    subst (λ a. Breach limit (ready p a input output) s) (sym no_hangup)
                      (subst (λ b. Breach limit (ready p false b output) s) (sym on)
                        (flooded c e s' taken here open_ t counts)))
              ]
      ]

  -- All events are handled; or the surroundings break in at one of them, and those before it are.
  pub data BatchRun (limit : ℕ) (es : List Event) (s : Server os.World) : Type 0 where
    all_done :
        (s' : Server os.World)
        → handle_events os fuel garbage es s ≡ some (tt, s')
        → Stays os limit (grown limit (buf_size * n) (length es)) s s'
        → BatchRun limit es s
    broken_off :
        (before after : List Event) (e : Event) (s1 : Server os.World)
        → es ≡ before ++ e ∷ after
        → handle_events os fuel garbage before s ≡ some (tt, s1)
        → Stays os limit (grown limit (buf_size * n) (length before)) s s1
        → Breach (grown limit (buf_size * n) (length before)) e s1
        → BatchRun limit es s

  -- With the sockets, the allocator and the clock as documented, memory, new structs whose arrays
  -- have their sizes and whose uninitialised name holds a NUL, and fuel for
  -- messages of `limit` bytes with 4096 for each round of each event, for a server whose mutex is
  -- free and whose list has at most 1000 clients, none of them twice and each of them active: the
  -- events of the list are all handled in order, whatever they are, and the server is one of these
  -- again, with all clients that were active; or one of them is a breach by the surroundings (the
  -- event of a client that is not in the list, the block of a client that is in use for a new one,
  -- or a client that sends without end), and all events before it are handled.
  pub handle_events-BatchRun :
      (es : List Event) (limit : ℕ) (s : Server os.World)
      → IsHall os limit s
      → grown limit (buf_size * n) (length es) < 2 ^ 61
      → grown limit (buf_size * n) (length es) + 130 + bound < fuel
      → BatchRun limit es s
  unfolding handle_events
  handle_events-BatchRun [] limit s hall small enough' = all_done s refl (Stays-same hall)
  handle_events-BatchRun (e ∷ es) limit s hall small enough' =
      let least = grown-least (limit + buf_size * n) (buf_size * n) (length es) in
      elim (event limit e s hall (omega (arith, least, small)) (omega (arith, least, enough'))) [
        | breaks b ↦ broken_off [] es e s refl refl (Stays-same hall) b
        | done s1 run g ↦
            elim (handle_events-BatchRun es (limit + buf_size * n) s1 g.hall small enough') [
              | all_done s' rest g' ↦ all_done s' (rw (◌>>◌, ◌>>=◌, run) rest) (Stays-trans g g')
              | broken_off before after e' s2 split rest g' b ↦
                  broken_off (e ∷ before) after e' s2 (ap (◌∷◌ e) split)
                    (rw (◌>>◌, ◌>>=◌, run) rest) (Stays-trans g g') b
            ]
      ]

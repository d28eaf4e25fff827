-- ===== src/Loop/Run.antt =====
-- The loop of the server, over any number of rounds.
use c_chat_server.Base.{
  ℕ, zero, suc, ◌+◌, ◌*◌, ◌≤◌, ◌<◌, ◌≡◌, ◌^◌, arith, ap, ◌∙◌, List, ◌∷◌, ◌++◌, Bool, some, none,
  true, false, Bool-cases, inl, inr, length, M, pure, ◌>>=◌, ◌>>◌, if◌then◌else◌,
}
use c_chat_server.Os.{Os, Event, Status, success, failure, call}
use c_chat_server.Os.Laws.{IsAllocator, IsPlentiful, HasClock, IsServing, IsReadable, allocated}
use c_chat_server.Protocol.{msg_size_limit}
use c_chat_server.Client.{ClientInfo, buf_size}
use c_chat_server.Server.{Server, lift}
use c_chat_server.Broadcast.Direct.{IsDirect}
use c_chat_server.Loop.{sweep, handle_events, shut_down, event_loop, max_events}
use c_chat_server.Loop.Hall.{IsHall, hall-weaken}
use c_chat_server.Loop.Sweep.{sweep-Swept}
use c_chat_server.Loop.Offer.{IsBlock}
use c_chat_server.Loop.Batch.{
  grown, grown-least, grown-more, Breach, all_done, broken_off, handle_events-BatchRun,
}
use c_chat_server.Loop.Shutdown.{Closing, shut_down-Ended}

-- A wait reports at most as many events as there is room for.
pub record IsPolling (os : Os) : Type 0 where
  pub few_events :
      (w : os.World) (es : List Event) (w' : os.World)
      → os.epoll_wait w ≡ (some es, w')
      → length es ≤ max_events

if-true : {A : Type 0} (b : Bool) (x y : A) → b ≡ true → (if b then x else y) ≡ x
if-true b x y h = rw h

if-false : {A : Type 0} (b : Bool) (x y : A) → b ≡ false → (if b then x else y) ≡ y
if-false b x y h = rw h

module _ (os : Os) (fuel : ℕ) (garbage : ClientInfo) (s : Server os.World) (m : ℕ) where
  loop-over :
      s.server_shutdown ≡ true → event_loop os fuel garbage (suc m) s ≡ shut_down os fuel garbage s
  unfolding event_loop
  loop-over h = ap (λ f. f s) (if-true s.server_shutdown (shut_down os fuel garbage) _ h)

  -- What a round does.
  loop-round : M (Server os.World) Status
  loop-round = do
    sweep os (length s.client_list + 1) 0
    events ← lift (call os.epoll_wait)
    elim events [
      | none ↦ pure failure
      | some es ↦ do handle_events os fuel garbage es; event_loop os fuel garbage m
    ]

  loop-on : s.server_shutdown ≡ false → event_loop os fuel garbage (suc m) s ≡ loop-round s
  unfolding event_loop loop-round
  loop-on h = ap (λ f. f s) (if-false s.server_shutdown (shut_down os fuel garbage) loop-round h)

  loop-no_wait :
      {s1 : Server os.World} {w : os.World}
      → s.server_shutdown ≡ false
      → sweep os (length s.client_list + 1) 0 s ≡ some (tt, s1)
      → os.epoll_wait s1.world ≡ (none, w)
      → event_loop os fuel garbage (suc m) s ≡ some (failure, record s1 { world = w })
  unfolding loop-round
  loop-no_wait h swept wait = loop-on h ∙ rw (◌>>◌, ◌>>=◌, swept, wait)

  loop-next :
      {s1 s2 : Server os.World} {w : os.World} {es : List Event}
      → s.server_shutdown ≡ false
      → sweep os (length s.client_list + 1) 0 s ≡ some (tt, s1)
      → os.epoll_wait s1.world ≡ (some es, w)
      → handle_events os fuel garbage es (record s1 { world = w }) ≡ some (tt, s2)
      → event_loop os fuel garbage (suc m) s ≡ event_loop os fuel garbage m s2
  unfolding loop-round
  loop-next h swept wait run = loop-on h ∙ rw (◌>>◌, ◌>>=◌, swept, wait, run)

ten : (limit step : ℕ) → grown limit step max_events ≡ limit + max_events * step
ten limit step = omega arith

module _ (os : Os) (bound : ℕ) (serve : IsServing os bound) (direct : IsDirect os bound) (fuel : ℕ)
    (enough : msg_size_limit + bound < fuel) (laws : IsAllocator os) (reads : IsReadable os)
    (rich : IsPlentiful os) (clock : HasClock os) (polls : IsPolling os) (garbage : ClientInfo)
    (stack : IsBlock garbage) (n : ℕ) where
  -- What the messages can grow by in a round of the loop.
  abbrev pub round_bytes : ℕ
  round_bytes = max_events * (buf_size * n)

  -- So many rounds of the loop that go on, each by its calls: the flag is not set, the sweep and the
  -- wait succeed, and all events are handled.
  pub data Turns : ℕ → Server os.World → Server os.World → Type 0 where
    no_turn : {s : Server os.World} → Turns 0 s s
    turn :
        {k : ℕ} {s s' : Server os.World} (s1 s2 : Server os.World) (es : List Event) (w : os.World)
        → s.server_shutdown ≡ false
        → sweep os (length s.client_list + 1) 0 s ≡ some (tt, s1)
        → os.epoll_wait s1.world ≡ (some es, w)
        → handle_events os fuel garbage es (record s1 { world = w }) ≡ some (tt, s2)
        → Turns k s2 s'
        → Turns (suc k) s s'

  -- The surroundings break in at an event of the round from `s`; those before it are handled.
  pub record Breaks (s : Server os.World) : Type 0 where
    pub swept : Server os.World
    pub sweeps : sweep os (length s.client_list + 1) 0 s ≡ some (tt, swept)
    pub events : List Event
    pub w : os.World
    pub waits : os.epoll_wait swept.world ≡ (some events, w)
    pub before : List Event
    pub behind : List Event
    pub event : Event
    pub is_split : events ≡ before ++ event ∷ behind
    pub s1 : Server os.World
    pub handled : handle_events os fuel garbage before (record swept { world = w }) ≡ some (tt, s1)
    pub limit : ℕ
    pub hall : IsHall os limit s1
    pub breach :
        Breach os bound serve direct fuel enough laws reads rich clock garbage stack n limit event
          s1

  -- The loop ends by the flag, with all clients; it ends because a wait fails; it goes on; or the
  -- surroundings break in.
  pub data LoopRun (rounds limit : ℕ) (s : Server os.World) : Type 0 where
    stopped :
        (k : ℕ) (s1 s' : Server os.World)
        → k < rounds
        → Turns k s s1
        → s1.server_shutdown ≡ true
        → IsHall os (grown limit round_bytes rounds) s1
        → ((m : ℕ) → event_loop os fuel garbage (rounds + m) s ≡ some (success, s'))
        → shut_down os fuel garbage s1 ≡ some (success, s')
        → Closing os bound serve fuel enough laws garbage s1 s'
        → LoopRun rounds limit s
    no_wait :
        (k : ℕ) (s0 s1 : Server os.World) (w : os.World)
        → k < rounds
        → Turns k s s0
        → s0.server_shutdown ≡ false
        → sweep os (length s0.client_list + 1) 0 s0 ≡ some (tt, s1)
        → os.epoll_wait s1.world ≡ (none, w)
        → IsHall os (grown limit round_bytes rounds) s1
        → ((m : ℕ)
            → event_loop os fuel garbage (rounds + m) s ≡ some (failure, record s1 { world = w }))
        → LoopRun rounds limit s
    running :
        (s' : Server os.World)
        → Turns rounds s s'
        → ((m : ℕ) → event_loop os fuel garbage (rounds + m) s ≡ event_loop os fuel garbage m s')
        → IsHall os (grown limit round_bytes rounds) s'
        → LoopRun rounds limit s
    broken :
        (k : ℕ) (s1 : Server os.World)
        → k < rounds
        → Turns k s s1
        → ((m : ℕ) → event_loop os fuel garbage (k + m) s ≡ event_loop os fuel garbage m s1)
        → s1.server_shutdown ≡ false
        → Breaks s1
        → LoopRun rounds limit s

  -- One more round.
  shift :
      (k m : ℕ) (s : Server os.World)
      → event_loop os fuel garbage (suc k + m) s ≡ event_loop os fuel garbage (suc (k + m)) s
  shift k m s =
      let e : suc k + m ≡ suc (k + m) = omega arith in ap (λ x. event_loop os fuel garbage x s) e

  -- A round that goes on, in front of a run.
  module _ (rounds limit : ℕ) (s s2 : Server os.World)
      (ahead : (k : ℕ) (s' : Server os.World) → Turns k s2 s' → Turns (suc k) s s')
      (step : (m : ℕ)
        → event_loop os fuel garbage (suc m) s ≡ event_loop os fuel garbage m s2) where
    also : LoopRun rounds (limit + round_bytes) s2 → LoopRun (suc rounds) limit s
    also (stopped k s1 s' less turns over hall run shut ended) =
        stopped (suc k) s1 s' (omega (arith, less)) (ahead k s1 turns) over hall
          (λ m. shift rounds m s ∙ step (rounds + m) ∙ run m) shut ended
    also (no_wait k s0 s1 w less turns on swept wait hall run) =
        no_wait (suc k) s0 s1 w (omega (arith, less)) (ahead k s0 turns) on swept wait hall
          (λ m. shift rounds m s ∙ step (rounds + m) ∙ run m)
    also (running s' turns run hall) =
        running s' (ahead rounds s' turns) (λ m. shift rounds m s ∙ step (rounds + m) ∙ run m) hall
    also (broken k s1 less turns run on b) =
        broken (suc k) s1 (omega (arith, less)) (ahead k s1 turns)
          (λ m. shift k m s ∙ step (k + m) ∙ run m) on b

  -- With the sockets, epoll, the allocator and the clock as documented, memory, new structs whose
  -- arrays have their sizes and whose uninitialised name holds a NUL, and fuel for messages of
  -- `limit` bytes with 40960 * `n` for each round, from a server whose mutex is free and whose list
  -- has at most 1000 clients, none of them twice and each of them active (a valid queue within the
  -- limit, a name field with a NUL, and, unless it is closed, a valid reader and a valid message
  -- buffer with at most `limit` bytes): on any number of rounds, whatever the events are, whatever
  -- bytes come in, and whatever other calls fail, the loop comes to one of these, each behind
  -- rounds whose sweep, wait and events all succeed, with no access out of bounds, no use of NULL or
  -- of freed memory, and no lock of the locked mutex. The flag of the shutdown is seen, and the loop
  -- returns 0 with the clients freed as in `Closing`; a wait fails, and it returns -1; all `rounds`
  -- rounds succeed with the flag not set, and the server is such a server again; or the surroundings
  -- break in at one event, those before it being handled (the event of a client that is not in the
  -- list; the block of a client that is in use for a new one; or an open client whose next `n` rounds
  -- of the reader all succeed and go on, by reads that give at least (n - 1) / 2 bytes).
  pub event_loop-LoopRun :
      (rounds limit : ℕ) (s : Server os.World)
      → IsHall os limit s
      → grown limit round_bytes rounds < 2 ^ 61
      → grown limit round_bytes rounds + 130 + bound < fuel
      → LoopRun rounds limit s
  event_loop-LoopRun zero limit s hall small enough' =
      running s no_turn
        (λ m. let e : 0 + m ≡ m = omega arith in ap (λ x. event_loop os fuel garbage x s) e) hall
  event_loop-LoopRun (suc rounds) limit s hall small enough' = elim (Bool-cases s.server_shutdown) [
    | inl over ↦
        let (s', shut, ended) =
          shut_down-Ended os bound serve fuel enough laws garbage limit s hall in
        stopped 0 s s' (omega arith) no_turn over
          (hall-weaken (grown-least limit round_bytes (suc rounds)) hall)
          (λ m. shift rounds m s ∙ loop-over os fuel garbage s (rounds + m) over ∙ shut) shut ended
    | inr on ↦
        let (s1, swept, sw) =
          sweep-Swept os limit (length s.client_list + 1) 0 s hall (omega arith) (omega arith) in
        elim (allocated (os.epoll_wait s1.world)) [
          | inl (w, fails) ↦
              no_wait 0 s s1 w (omega arith) no_turn on swept fails
                (hall-weaken (grown-least limit round_bytes (suc rounds)) sw.hall)
                (λ m. shift rounds m s ∙ loop-no_wait os fuel garbage s (rounds + m) on swept fails)
          | inr (es, w, waits) ↦
              by_events s1 w es on swept waits sw.hall
                (event_loop-LoopRun rounds (limit + round_bytes))
        ]
  ]
    where
      by_events :
          (s1 : Server os.World) (w : os.World) (es : List Event)
          → s.server_shutdown ≡ false
          → sweep os (length s.client_list + 1) 0 s ≡ some (tt, s1)
          → os.epoll_wait s1.world ≡ (some es, w)
          → IsHall os limit s1
          → ((s2 : Server os.World)
              → IsHall os (limit + round_bytes) s2
              → grown (limit + round_bytes) round_bytes rounds < 2 ^ 61
              → grown (limit + round_bytes) round_bytes rounds + 130 + bound < fuel
              → LoopRun rounds (limit + round_bytes) s2)
          → LoopRun (suc rounds) limit s
      by_events s1 w es on swept waits h next =
          let fits : grown limit (buf_size * n) (length es) ≤ limit + round_bytes = omega (
            arith,
            grown-more limit (buf_size * n) (length es) max_events (polls.few_events _ _ _ waits),
            ten limit (buf_size * n),
          ) in
          let least = grown-least (limit + round_bytes) round_bytes rounds in
          let s2 : Server os.World = record s1 { world = w } in
          let h2 : IsHall os limit s2 = record {
            free = h.free;
            few = h.few;
            distinct = h.distinct;
            active = h.active;
          } in
          elim (handle_events-BatchRun os bound serve direct fuel enough laws reads rich clock
            garbage stack n es limit s2 h2 (omega (arith, fits, least, small))
            (omega (arith, fits, least, enough'))) [
              | all_done s3 run g ↦
                  also rounds limit s s3 (λ k s' turns. turn s1 s3 es w on swept waits run turns)
                    (λ m. loop-next os fuel garbage s m on swept waits run)
                    (next s3 (hall-weaken fits g.hall) small enough')
              | broken_off before behind e s3 split run g b ↦
                  broken 0 s (omega arith) no_turn
                    (λ m.
                      let z : 0 + m ≡ m = omega arith in ap (λ x. event_loop os fuel garbage x s) z)
                    on
                    (record {
                      swept = s1;
                      sweeps = swept;
                      events = es;
                      w = w;
                      waits = waits;
                      before = before;
                      behind = behind;
                      event = e;
                      is_split = split;
                      s1 = s3;
                      handled = run;
                      limit = grown limit (buf_size * n) (length before);
                      hall = g.hall;
                      breach = b;
                    })
            ]

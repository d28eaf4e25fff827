-- ===== src/Setup/Serves.antt =====
-- The server from its first state on.
use c_chat_server.Base.{
  ℕ, ◌+◌, ◌*◌, ◌<◌, ◌≡◌, ◌^◌, refl, arith, ap, ◌∙◌, some, false, inl, inr, ◌>>=◌,
}
use c_chat_server.Os.{Os, Status, success, failure, epoll_add}
use c_chat_server.Os.Laws.{IsAllocator, IsPlentiful, HasClock, IsServing, IsReadable, Status-cases}
use c_chat_server.Protocol.{msg_size_limit}
use c_chat_server.Client.{ClientInfo, buf_size}
use c_chat_server.Server.{Server}
use c_chat_server.Broadcast.Direct.{IsDirect}
use c_chat_server.Loop.{event_loop, server_loop, max_events}
use c_chat_server.Loop.Hall.{IsHall}
use c_chat_server.Loop.Offer.{IsBlock}
use c_chat_server.Loop.Batch.{grown}
use c_chat_server.Loop.Run.{
  IsPolling, Breaks, Turns, LoopRun, stopped, no_wait, running, broken, event_loop-LoopRun,
}
use c_chat_server.Setup.{
  Net, Exit, returned, handle_error, first_state, run_server, serve_on, server_state_destroy,
}

first-IsHall : (os : Os) (w : os.World) (fd : ℕ) → IsHall os 0 (first_state w fd)
first-IsHall os w fd = record { free = refl; few = omega arith; distinct = tt; active = tt }

-- What `main` returns behind `pthread_mutex_destroy`.
abbrev exit_of : Status → Exit
exit_of failure = handle_error
exit_of success = returned

module _ (os : Os) (net : Net os) (bound : ℕ) (serve : IsServing os bound)
    (direct : IsDirect os bound) (fuel : ℕ) (enough : msg_size_limit + bound < fuel)
    (laws : IsAllocator os) (reads : IsReadable os) (rich : IsPlentiful os) (clock : HasClock os)
    (polls : IsPolling os) (garbage : ClientInfo) (stack : IsBlock garbage) (n : ℕ) where
  -- The loop ends, and `main` with it; or all its rounds go on; or the surroundings break in.
  pub data Serves (rounds fd : ℕ) (w : os.World) : Type 0 where
    ends :
        (e : Exit) (w' : os.World)
        → serve_on os net fuel rounds garbage fd w ≡ some (e, w')
        → Serves rounds fd w
    on_and_on :
        (w1 : os.World) (s' : Server os.World)
        → os.epoll_ctl epoll_add fd w ≡ (success, w1)
        → Turns os bound serve direct fuel enough laws reads rich clock polls garbage stack n rounds
            (first_state w1 fd)
            s'
        → ((m : ℕ)
            → event_loop os fuel garbage (rounds + m) (first_state w1 fd)
              ≡ event_loop os fuel garbage m s')
        → IsHall os (grown 0 (max_events * (buf_size * n)) rounds) s'
        → Serves rounds fd w
    breaks_in :
        (w1 : os.World) (k : ℕ) (s1 : Server os.World)
        → os.epoll_ctl epoll_add fd w ≡ (success, w1)
        → k < rounds
        → Turns os bound serve direct fuel enough laws reads rich clock polls garbage stack n k
            (first_state w1 fd)
            s1
        → ((m : ℕ)
            → event_loop os fuel garbage (k + m) (first_state w1 fd)
              ≡ event_loop os fuel garbage m s1)
        → s1.server_shutdown ≡ false
        → Breaks os bound serve direct fuel enough laws reads rich clock polls garbage stack n s1
        → Serves rounds fd w

  module _ (rounds fd : ℕ) (w : os.World) where
    -- The end of `main` behind the loop.
    after_loop :
        {r : Status} {s' : Server os.World}
        → server_loop os fuel garbage rounds (first_state w fd) ≡ some (r, s')
        → (e : Exit) × (w' : os.World) × (serve_on os net fuel rounds garbage fd w ≡ some (e, w'))
    unfolding serve_on run_server server_state_destroy
    after_loop {s' = s'} run =
        (exit_of (net.mutex_destroy s'.world).0, (net.mutex_destroy s'.world).1, rw (◌>>=◌, run))

    over :
        {r : Status} {s' : Server os.World}
        → server_loop os fuel garbage rounds (first_state w fd) ≡ some (r, s')
        → Serves rounds fd w
    over run = let (e, w', is) = after_loop run in ends e w' is

    watching :
        {w1 : os.World} {r : Status} {s' : Server os.World}
        → os.epoll_ctl epoll_add fd w ≡ (success, w1)
        → event_loop os fuel garbage rounds (first_state w1 fd) ≡ some (r, s')
        → server_loop os fuel garbage rounds (first_state w fd) ≡ some (r, s')
    unfolding server_loop
    watching e run = rw (◌>>=◌, e, run)

    unwatched :
        {w1 : os.World}
        → os.epoll_ctl epoll_add fd w ≡ (failure, w1)
        → server_loop os fuel garbage rounds (first_state w fd)
          ≡ some (failure, record (first_state w fd) { world = w1 })
    unfolding server_loop
    unwatched e = rw (◌>>=◌, e)

    -- With the sockets, epoll, the allocator and the clock as documented, memory, new structs
    -- whose arrays have their sizes and whose uninitialised name holds a NUL, and fuel for
    -- messages of 40960 * `n` bytes for each round: from the zeroed state with its listening
    -- socket on, whatever connections, events and bytes come in and whatever other calls fail,
    -- the server of `main` comes to one of these, with no access out of bounds, no use of NULL
    -- or of freed memory, and no lock of the locked mutex up to there. It ends, with one of the
    -- two exits; or in all the rounds of its loop the flag is not set and the sweep, the wait
    -- and all events succeed, and then the mutex is free and the list has at most 1000 clients,
    -- none of them twice and each of them active; or, behind such rounds and events that are
    -- all handled, the surroundings break in at one event, in one of the ways of `Breach`.
    pub serve_on-Serves :
        grown 0 (max_events * (buf_size * n)) rounds < 2 ^ 61
        → grown 0 (max_events * (buf_size * n)) rounds + 130 + bound < fuel
        → Serves rounds fd w
    serve_on-Serves small enough' =
        let w1 = (os.epoll_ctl epoll_add fd w).1 in
        elim (Status-cases (os.epoll_ctl epoll_add fd w).0) [
          | inr fails ↦ over (unwatched (ap (λ r. (r, w1)) fails))
          | inl fine ↦ by_run w1 (ap (λ r. (r, w1)) fine) (
              event_loop-LoopRun os bound serve direct fuel enough laws reads rich clock polls
                garbage stack n rounds 0 (first_state w1 fd) (first-IsHall os w1 fd) small enough')
        ]
      where
        exactly :
            (s : Server os.World)
            → event_loop os fuel garbage rounds s ≡ event_loop os fuel garbage (rounds + 0) s
        exactly s =
            let e : rounds ≡ rounds + 0 = omega arith in ap (λ k. event_loop os fuel garbage k s) e

        by_run :
            (w1 : os.World)
            → os.epoll_ctl epoll_add fd w ≡ (success, w1)
            → LoopRun os bound serve direct fuel enough laws reads rich clock polls garbage stack n
                rounds 0
                (first_state w1 fd)
            → Serves rounds fd w
        by_run w1 e (stopped k s1 s' less turns flag hall run shut ended) =
            over (watching e (exactly (first_state w1 fd) ∙ run 0))
        by_run w1 e (no_wait k s0 s1 w2 less turns on swept wait hall run) =
            over (watching e (exactly (first_state w1 fd) ∙ run 0))
        by_run w1 e (running s' turns run hall) = on_and_on w1 s' e turns run hall
        by_run w1 e (broken k s1 less turns run on b) = breaks_in w1 k s1 e less turns run on b

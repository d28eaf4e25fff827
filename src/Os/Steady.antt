-- ===== src/Os/Steady.antt =====
-- The concrete operating system with sockets that are never interrupted, one new connection, and an
-- event of the client 8 and of the listening socket at every wait; and one whose sockets take all
-- bytes, for examples.
use mathlib.Core.Path.{subst}
use c_chat_server.Base.{
  ℕ, ◌≤◌, ◌≡◌, refl, ap, sym, arith, Bytes, List, [], ◌∷◌, ◌++◌, ◌∙◌, length, take, length-take,
  take-all, if◌then◌else◌, ◌==◌, some, true, false,
}
use c_chat_server.Os.{Os, Io, ready, listening, ok, again, interrupted, failed}
use c_chat_server.Os.Laws.{IsAllocator, IsOutbound, IsServing, IsPlentiful, HasClock, IsReadable}
use c_chat_server.Os.Script.{
  Script, script-IsInbound, Move, upto, block, interrupt, script, script-IsAllocator,
  take-length-take,
}

abbrev pub put_steadily : Bytes → Script → List Move → Io ℕ × Script
put_steadily bs s [] = (again, s)
put_steadily bs s (block ∷ ms) = (again, record s { moves = ms })
put_steadily bs s (interrupt ∷ ms) = (again, record s { moves = ms })
put_steadily bs s (upto k ∷ ms) =
    (ok (length (take k bs)), record s { moves = ms; outbound = s.outbound ++ take k bs })

abbrev pub steady : Os
steady = record script {
  write = λ fd bs s. put_steadily bs s s.moves;
  send = λ fd bs s. put_steadily bs s s.moves;
  accept = λ fd s. if s.next_address == 100 then (ok 9, s) else (again, s);
  epoll_wait = λ s. (some (ready 8 false true true ∷ listening ∷ []), s);
}

-- What an answer of `send` means.
abbrev pub Good : Bytes → Script → Io ℕ × Script → Type 0
Good bs s (ok n, s') = (n ≤ length bs) × (s'.outbound ≡ s.outbound ++ take n bs) × (0 ≤ 0)
Good bs s (interrupted, s') = ⊥
Good bs s (again, s') = s'.outbound ≡ s.outbound
Good bs s (failed, s') = s'.outbound ≡ s.outbound

pub good : (bs : Bytes) (s : Script) (ms : List Move) → Good bs s (put_steadily bs s ms)
good bs s [] = refl
good bs s (block ∷ ms) = refl
good bs s (interrupt ∷ ms) = refl
good bs s (upto k ∷ ms) = (
  omega (arith, length-take k bs),
  ap (λ x. s.outbound ++ x) (sym (take-length-take k bs)),
  omega arith,
)

unfoldable pub steady-IsOutbound : (fd : ℕ) → IsOutbound steady (steady.send fd)
steady-IsOutbound fd = record {
  sent = λ s. s.outbound;
  patience = λ s. 0;
  put_ok = λ bs w n w' e. subst (Good bs w) e (good bs w w.moves);
  put_interrupted = λ bs w w' e. absurd (subst (Good bs w) e (good bs w w.moves));
  put_again = λ bs w w' e. subst (Good bs w) e (good bs w w.moves);
  put_failed = λ bs w w' e. subst (Good bs w) e (good bs w w.moves);
  epoll_sends_nothing = λ op fd w. refl;
}

pub steady-IsServing : IsServing steady 0
unfolding steady-IsOutbound
steady-IsServing = record {
  out = steady-IsOutbound;
  calm = λ fd w. omega arith;
  malloc_sends_nothing = λ fd n w. refl;
  new_struct_sends_nothing = λ fd w. refl;
}

pub steady-IsAllocator : IsAllocator steady
steady-IsAllocator = record {
  malloc_size = script-IsAllocator.malloc_size;
  realloc_size = script-IsAllocator.realloc_size;
  realloc_keeps = script-IsAllocator.realloc_keeps;
}

-- Each `send` takes all that it is offered.
abbrev pub eager : Os
eager = record steady {
  send = λ fd bs s. (ok (length bs), record s { outbound = s.outbound ++ bs });
}

abbrev pub AllGood : Bytes → Script → Io ℕ × Script → Type 0
AllGood bs s (ok n, s') = (n ≡ length bs) × (s'.outbound ≡ s.outbound ++ bs)
AllGood bs s (interrupted, s') = ⊥
AllGood bs s (again, s') = ⊥
AllGood bs s (failed, s') = ⊥

unfoldable pub eager-IsOutbound : (fd : ℕ) → IsOutbound eager (eager.send fd)
eager-IsOutbound fd = record {
  sent = λ s. s.outbound;
  patience = λ s. 0;
  put_ok = λ bs w n w' e.
      let (all, out) = subst (AllGood bs w) e (refl, refl) in
      (
        omega (arith, all),
        out ∙ ap (λ x. w.outbound ++ x) (sym (take-all n bs (omega (arith, all)))),
        omega arith,
      );
  put_interrupted = λ bs w w' e. absurd (subst (AllGood bs w) e (refl, refl));
  put_again = λ bs w w' e. absurd (subst (AllGood bs w) e (refl, refl));
  put_failed = λ bs w w' e. absurd (subst (AllGood bs w) e (refl, refl));
  epoll_sends_nothing = λ op fd w. refl;
}

pub eager-takes :
    (bs : Bytes) (w : Script) (r : Io ℕ × Script) → eager.send 5 bs w ≡ r → AllGood bs w r
eager-takes bs w r e = subst (AllGood bs w) e (refl, refl)

pub steady-IsPlentiful : IsPlentiful steady
steady-IsPlentiful = record {
  malloc_gives = λ n w w' e. cc;
  realloc_gives = λ old n w w' e. cc;
  struct_gives = λ w w' e. cc;
}

pub steady-HasClock : HasClock steady
steady-HasClock = record {
  tells =
      λ w. (b'[' ∷ b']' ∷ [], w, refl, omega arith, ((λ e. omega arith), ((λ e. omega arith), tt)));
}

pub steady-IsReadable : IsReadable steady
unfolding script-IsInbound
steady-IsReadable = record {
  within = λ fd n w bs w' e. ((script-IsInbound fd).read_ok n w bs w' e).0;
}

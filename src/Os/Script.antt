-- ===== src/Os/Script.antt =====
-- A concrete operating system, for examples: its world is an inbound stream that is handed out in
-- chunks of given sizes, and an outbound stream.
use mathlib.Core.Path.{subst}
use c_chat_server.Base.{
  ℕ, zero, suc, ◌+◌, ◌≤◌, ◌<◌, ◌≡◌, refl, ap, sym, ◌∙◌, Bytes, List, [], ◌∷◌, ◌++◌, length, take,
  drop, some, none, Option, replicate, length-replicate, length-take, length-append, take-take,
  take-append_less, arith,
}
use c_chat_server.Os.{Os, Io, ok, again, interrupted, failed, little, success}
use c_chat_server.Os.Laws.{IsAllocator, IsInbound, IsOutbound}

-- What the next calls of `read`, `write` and `send` do: take up to so many bytes, or fail.
pub data Move : Type 0 where
  upto : ℕ → Move
  block interrupt : Move

pub record Script : Type 0 where
  pub moves : List Move
  pub inbound : Bytes
  pub outbound : Bytes
  pub next_address : ℕ

abbrev pub calm : List Move → ℕ
calm [] = 0
calm (m ∷ ms) = suc (calm ms)

abbrev take_in : ℕ → Script → List Move → Io Bytes × Script
take_in n s [] = (again, s)
take_in n s (block ∷ ms) = (again, record s { moves = ms })
take_in n s (interrupt ∷ ms) = (interrupted, record s { moves = ms })
take_in n s (upto k ∷ ms) = (
  ok (take n (take k s.inbound)),
  record s { moves = ms; inbound = drop (length (take n (take k s.inbound))) s.inbound },
)

abbrev put_out : Bytes → Script → List Move → Io ℕ × Script
put_out bs s [] = (again, s)
put_out bs s (block ∷ ms) = (again, record s { moves = ms })
put_out bs s (interrupt ∷ ms) = (interrupted, record s { moves = ms })
put_out bs s (upto k ∷ ms) =
    (ok (length (take k bs)), record s { moves = ms; outbound = s.outbound ++ take k bs })

abbrev pub put_any : Bytes → Script → Io ℕ × Script
put_any bs s = put_out bs s s.moves

abbrev pub script : Os
script = record {
  World = Script;
  byte_order = little;
  read = λ fd n s. take_in n s s.moves;
  write = λ fd bs s. put_out bs s s.moves;
  send = λ fd bs s. put_out bs s s.moves;
  close = λ fd s. (success, s);
  epoll_ctl = λ op fd s. (success, s);
  malloc = λ n s. (some (replicate n 0xbe), s);
  realloc = λ old n s. (some (take n (old ++ replicate n 0xbe)), s);
  new_struct = λ s. (some s.next_address, record s { next_address = s.next_address + 1 });
  shutdown = λ fd s. (success, s);
  local_time = λ s. (some (b'[' ∷ b']' ∷ []), s);
  accept = λ fd s. (again, s);
  set_nonblocking = λ fd s. (success, s);
  epoll_wait = λ s. (none, s);
}

-- What an answer of `read` means for the inbound stream.
abbrev InGood : ℕ → Script → List Move → Io Bytes × Script → Type 0
InGood n s ms (ok bs, s') =
    (length bs ≤ n) × (s.inbound ≡ bs ++ s'.inbound) × (calm s'.moves ≤ calm ms)
InGood n s ms (interrupted, s') = (s.inbound ≡ s'.inbound) × (calm s'.moves < calm ms)
InGood n s ms (again, s') = s.inbound ≡ s'.inbound
InGood n s ms (failed, s') = s.inbound ≡ s'.inbound

pub take-take-drop :
    (n k : ℕ) (xs : Bytes) → xs ≡ take n (take k xs) ++ drop (length (take n (take k xs))) xs
take-take-drop zero k xs = refl
take-take-drop (suc n) zero xs = refl
take-take-drop (suc n) (suc k) [] = refl
take-take-drop (suc n) (suc k) (x ∷ xs) = ap (◌∷◌ x) (take-take-drop n k xs)

pub in_good : (n : ℕ) (s : Script) (ms : List Move) → InGood n s ms (take_in n s ms)
in_good n s [] = refl
in_good n s (block ∷ ms) = refl
in_good n s (interrupt ∷ ms) = (refl, omega arith)
in_good n s (upto k ∷ ms) =
    (omega (arith, length-take n (take k s.inbound)), take-take-drop n k s.inbound, omega arith)

-- What an answer of `write` or `send` means for the outbound stream.
abbrev OutGood : Bytes → Script → List Move → Io ℕ × Script → Type 0
OutGood bs s ms (ok n, s') =
    (n ≤ length bs) × (s'.outbound ≡ s.outbound ++ take n bs) × (calm s'.moves ≤ calm ms)
OutGood bs s ms (interrupted, s') = (s'.outbound ≡ s.outbound) × (calm s'.moves < calm ms)
OutGood bs s ms (again, s') = s'.outbound ≡ s.outbound
OutGood bs s ms (failed, s') = s'.outbound ≡ s.outbound

pub take-length-take : (k : ℕ) (xs : Bytes) → take (length (take k xs)) xs ≡ take k xs
take-length-take zero xs = refl
take-length-take (suc k) [] = refl
take-length-take (suc k) (x ∷ xs) = ap (◌∷◌ x) (take-length-take k xs)

pub out_good : (bs : Bytes) (s : Script) (ms : List Move) → OutGood bs s ms (put_out bs s ms)
out_good bs s [] = refl
out_good bs s (block ∷ ms) = refl
out_good bs s (interrupt ∷ ms) = (refl, omega arith)
out_good bs s (upto k ∷ ms) = (
  omega (arith, length-take k bs),
  ap (λ x. s.outbound ++ x) (sym (take-length-take k bs)),
  omega arith,
)

unfoldable pub script-IsInbound : (fd : ℕ) → IsInbound script fd
script-IsInbound fd = record {
  pending = λ s. s.inbound;
  patience = λ s. calm s.moves;
  read_ok = λ n w bs w' e. subst (InGood n w w.moves) e (in_good n w w.moves);
  read_interrupted = λ n w w' e. subst (InGood n w w.moves) e (in_good n w w.moves);
  read_again = λ n w w' e. subst (InGood n w w.moves) e (in_good n w w.moves);
  read_failed = λ n w w' e. subst (InGood n w w.moves) e (in_good n w w.moves);
}

unfoldable pub script-IsOutbound : IsOutbound script put_any
script-IsOutbound = record {
  sent = λ s. s.outbound;
  patience = λ s. calm s.moves;
  put_ok = λ bs w n w' e. subst (OutGood bs w w.moves) e (out_good bs w w.moves);
  put_interrupted = λ bs w w' e. subst (OutGood bs w w.moves) e (out_good bs w w.moves);
  put_again = λ bs w w' e. subst (OutGood bs w w.moves) e (out_good bs w w.moves);
  put_failed = λ bs w w' e. subst (OutGood bs w w.moves) e (out_good bs w w.moves);
  epoll_sends_nothing = λ op fd w. refl;
}

-- What an answer of the allocator means.
abbrev SizeGood : ℕ → Option Bytes × Script → Type 0
SizeGood n (some b, s) = length b ≡ n
SizeGood n (none, s) = Unit {0}

abbrev KeepGood : Bytes → ℕ → ℕ → Option Bytes × Script → Type 0
KeepGood old n k (some b, s) = take k b ≡ take k old
KeepGood old n k (none, s) = Unit {0}

realloc-size : (old : Bytes) (n : ℕ) → length (take n (old ++ replicate n 0xbe)) ≡ n
realloc-size old n =
    let filler : length (replicate {A = ℕ} n 0xbe) ≡ n = length-replicate n 0xbe in
    omega
      (arith, length-take n (old ++ replicate n 0xbe), length-append old (replicate n 0xbe), filler)

realloc-keep :
    (old : Bytes) (n k : ℕ)
    → k ≤ n
    → k ≤ length old
    → take k (take n (old ++ replicate n 0xbe)) ≡ take k old
realloc-keep old n k le fits =
    take-take k n (old ++ replicate n 0xbe) le ∙ take-append_less old (replicate n 0xbe) k fits

pub script-IsAllocator : IsAllocator script
script-IsAllocator = record {
  malloc_size = λ n w b w' e. subst (SizeGood n) e (length-replicate n 0xbe);
  realloc_size = λ old n w b w' e. subst (SizeGood n) e (realloc-size old n);
  realloc_keeps =
      λ old n k w b w' e le fits. subst (KeepGood old n k) e (realloc-keep old n k le fits);
}

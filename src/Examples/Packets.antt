-- ===== src/Examples/Packets.antt =====
-- A packet and a stream of frames that arrive in pieces of at most three bytes.
use mathlib.Core.Path.{subst}
use c_chat_server.Base.{
  ℕ, zero, suc, ◌≤◌, ◌<◌, ◌≡◌, refl, arith, Bytes, [], ◌∷◌, ◌++◌, Option, some, length, length-take,
  take, drop,
}
use c_chat_server.Os.{Os, Io, ok, again, interrupted, failed, little, Count}
use c_chat_server.Os.Laws.{IsInbound, IsOutbound, IsAllocator}
use c_chat_server.Os.Script.{Script, script, script-IsAllocator, take-take-drop}
use c_chat_server.Protocol.{ntohl, header_at}
use c_chat_server.Reader.Decode.{Frame, IsFrame, announced}
use c_chat_server.Os.Steady.{eager, eager-IsOutbound}
use c_chat_server.Transfer.{read_packet}
use c_chat_server.ClientApp.Listening.{IsPrinting, client_listen-Listens}
use c_chat_server.ClientApp.Printing.{Listens}
use c_chat_server.Transfer.Receiving.{IsConnection, Receives, read_packet-Receives}

abbrev three : ℕ → Script → Io Bytes × Script
three n s = (
  ok (take n (take 3 s.inbound)),
  record s { inbound = drop (length (take n (take 3 s.inbound))) s.inbound },
)

abbrev dripping : Os
dripping = record script { read = λ fd n s. three n s; write = eager.send }

-- What a read of it means.
abbrev Drips : ℕ → Script → Io Bytes × Script → Type 0
Drips n s (ok bs, s') =
    (length bs ≤ n) × (s.inbound ≡ bs ++ s'.inbound) × (0 ≤ 0) × (bs ≡ [] → 0 < n → s.inbound ≡ [])
Drips n s (again, s') = ⊥
Drips n s (interrupted, s') = ⊥
Drips n s (failed, s') = ⊥

at_end : (n : ℕ) (xs : Bytes) → take n (take 3 xs) ≡ [] → 0 < n → xs ≡ []
at_end zero xs e some_room = absurd (omega arith)
at_end (suc n) [] e some_room = refl
at_end (suc n) (x ∷ xs) e some_room = absurd (cc e)

drips : (n : ℕ) (s : Script) → Drips n s (three n s)
drips n s = (
  omega (arith, length-take n (take 3 s.inbound)),
  take-take-drop n 3 s.inbound,
  omega arith,
  at_end n s.inbound,
)

dripping-IsInbound : IsInbound dripping 3
dripping-IsInbound = record {
  pending = λ s. s.inbound;
  patience = λ s. 0;
  read_ok = λ n w bs w' e. let d = subst (Drips n w) e (drips n w) in (d.0, d.1, d.2);
  read_interrupted = λ n w w' e. absurd (subst (Drips n w) e (drips n w));
  read_again = λ n w w' e. absurd (subst (Drips n w) e (drips n w));
  read_failed = λ n w w' e. absurd (subst (Drips n w) e (drips n w));
}

dripping-IsConnection : IsConnection dripping dripping-IsInbound 0
unfolding dripping-IsInbound
dripping-IsConnection = record {
  ends = λ n w w' e some_room. let d = subst (Drips n w) e (drips n w) in d.3 refl some_room;
  calm = λ w. omega arith;
  malloc_quiet = λ n w. refl;
}

dripping-IsAllocator : IsAllocator dripping
dripping-IsAllocator = record {
  malloc_size = script-IsAllocator.malloc_size;
  realloc_size = script-IsAllocator.realloc_size;
  realloc_keeps = script-IsAllocator.realloc_keeps;
}

abbrev frame : Frame
frame = record { header = 0 ∷ 0 ∷ 0 ∷ 4 ∷ 0 ∷ 1 ∷ []; payload = b'a' ∷ b'b' ∷ b'c' ∷ b'd' ∷ [] }

abbrev arriving : Script
arriving = record {
  moves = [];
  inbound = 0 ∷ 0 ∷ 0 ∷ 4 ∷ 0 ∷ 1 ∷ b'a' ∷ b'b' ∷ b'c' ∷ b'd' ∷ 7 ∷ [];
  outbound = [];
  next_address = 100;
}

frame-IsFrame : IsFrame little frame
unfolding announced ntohl header_at
frame-IsFrame = record { header_sized = refl; payload_sized = refl }

read_packet-Receives_example :
    (r : Count) × (h : Bytes) × (o : Option Bytes) × (w' : Script) × (read_packet dripping 20 3
        (9 ∷ 9 ∷ 9 ∷ 9 ∷ 9 ∷ 9 ∷ [])
        arriving
      ≡ some ((r, h, o), w'))
    × Receives dripping dripping-IsAllocator dripping-IsInbound 0 dripping-IsConnection 20 frame
        (7 ∷ [])
        arriving
        (9 ∷ 9 ∷ 9 ∷ 9 ∷ 9 ∷ 9 ∷ [])
        w'
        r
        h
        o
unfolding dripping-IsInbound
read_packet-Receives_example =
    read_packet-Receives dripping dripping-IsAllocator dripping-IsInbound 0 dripping-IsConnection 20
      frame (7 ∷ []) arriving (9 ∷ 9 ∷ 9 ∷ 9 ∷ 9 ∷ 9 ∷ []) refl frame-IsFrame (omega arith) refl
      (omega arith)

-- The terminal takes all that is written to it.
dripping-IsOutbound : IsOutbound dripping (dripping.write 1)
unfolding eager-IsOutbound
dripping-IsOutbound = record {
  sent = λ s. s.outbound;
  patience = λ s. 0;
  put_ok = (eager-IsOutbound 1).put_ok;
  put_interrupted = (eager-IsOutbound 1).put_interrupted;
  put_again = (eager-IsOutbound 1).put_again;
  put_failed = (eager-IsOutbound 1).put_failed;
  epoll_sends_nothing = λ op fd w. refl;
}

dripping-IsPrinting : IsPrinting dripping dripping-IsInbound dripping-IsOutbound 0
unfolding dripping-IsInbound dripping-IsOutbound
dripping-IsPrinting = record { write_quiet = λ bs w. refl; calm = λ w. omega arith }

abbrev two_frames : Script
two_frames = record arriving {
  inbound =
      0 ∷ 0 ∷ 0 ∷ 4 ∷ 0 ∷ 1 ∷ b'a' ∷ b'b' ∷ b'c' ∷ b'd' ∷ 0 ∷ 0 ∷ 0 ∷ 4 ∷ 0 ∷ 1 ∷ b'a' ∷ b'b' ∷ b'c'
      ∷ b'd' ∷ [];
}

client_listen-Listens_example :
    Listens dripping 20 3 3 (9 ∷ 9 ∷ 9 ∷ 9 ∷ 9 ∷ 9 ∷ []) (frame ∷ frame ∷ []) two_frames
unfolding dripping-IsInbound
client_listen-Listens_example =
    client_listen-Listens dripping dripping-IsAllocator dripping-IsInbound 0 dripping-IsConnection
      dripping-IsOutbound dripping-IsPrinting 20 (frame ∷ frame ∷ []) 3 (9 ∷ 9 ∷ 9 ∷ 9 ∷ 9 ∷ 9 ∷ [])
      two_frames
      ((frame-IsFrame, omega arith, omega arith), ((frame-IsFrame, omega arith, omega arith), tt))
      refl refl (omega arith) (omega arith)

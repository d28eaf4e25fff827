-- ===== src/Examples/Loops.antt =====
-- Runs of the loop of the server and of its parts.
use c_chat_server.Base.{
  ℕ, ◌≡◌, refl, arith, [], ◌∷◌, some, none, true, false, replicate, length-replicate, if◌then◌else◌,
  ◌==◌, ltb, inl, inr, length, Option, List, ◌≤◌,
}
use c_chat_server.Os.{Event, ready, listening, success}
use c_chat_server.Os.Script.{Script}
use c_chat_server.Os.Steady.{
  steady, steady-IsServing, steady-IsAllocator, steady-IsPlentiful, steady-HasClock,
  steady-IsReadable,
}
use c_chat_server.Client.{ClientInfo}
use c_chat_server.Text.{c_string}
use c_chat_server.Server.{Server}
use c_chat_server.Handlers.Room.{IsMember}
use c_chat_server.Loop.{sweep, shut_down}
use c_chat_server.Loop.Shutdown.{Closing, shut_down-Ended}
use mathlib.Core.Path.{subst}
use c_chat_server.Loop.Hall.{IsActive, IsHall}
use c_chat_server.Loop.Input.{Handles, handle_event-Keeps}
use c_chat_server.Loop.Sweep.{Swept, sweep-Swept}
use c_chat_server.Loop.Offer.{IsBlock}
use c_chat_server.Loop.Accept.{Accepts, accept_new_clients-Accepts}
use c_chat_server.Loop.Batch.{BatchRun, handle_events-BatchRun}
use c_chat_server.Loop.Run.{IsPolling, LoopRun, event_loop-LoopRun}
use c_chat_server.Setup.{Net}
use c_chat_server.Setup.Serves.{Serves, serve_on-Serves}
use c_chat_server.Examples.Clients.{fresh}
use c_chat_server.Examples.Rooms.{talker}
use c_chat_server.Examples.Reads.{stream, talker-IsReading}
use c_chat_server.Examples.Talks.{steady-IsDirect, talker-IsMember}

abbrev left : ClientInfo
left = record talker { closed = true }

left-IsMember : IsMember left
left-IsMember = record {
  queue = talker-IsMember.queue;
  limit = talker-IsMember.limit;
  named = talker-IsMember.named;
  sized = talker-IsMember.sized;
  ended = talker-IsMember.ended;
}

-- Two clients that talk, and one that is closed between them.
abbrev gathering : Server Script
gathering = record {
  world = stream;
  clients = λ p. if p == 9 then some left else if ltb p 10 then some talker else none;
  client_list = 7 ∷ 9 ∷ 8 ∷ [];
  locked = false;
  server_fd = 3;
  server_shutdown = false;
}

talker-IsActive : IsActive steady 2 talker
talker-IsActive =
    (talker-IsMember, inr (b'B' ∷ b'o' ∷ replicate 4094 0, talker-IsReading, omega arith))

gathering-IsHall : IsHall steady 2 gathering
gathering-IsHall = record {
  free = refl;
  few = omega arith;
  distinct = ((refl, (refl, tt)), ((refl, tt), (tt, tt)));
  active = (
    (talker, refl, talker-IsActive),
    ((left, refl, (left-IsMember, inl refl)), ((talker, refl, talker-IsActive), tt)),
  );
}

fresh-IsBlock : IsBlock fresh
unfolding c_string
fresh-IsBlock = record {
  headers = refl;
  payloads = length-replicate {A = ℕ} 4096 0;
  names = refl;
  ended = ([], refl);
}

abbrev Few : Option (List Event) × Script → Type 0
Few (none, w) = Unit {0}
Few (some es, w) = length es ≤ 10

steady-IsPolling : IsPolling steady
steady-IsPolling = record { few_events = λ w es w' e. subst Few e (few_events w) }
  where
    few_events : (w : Script) → Few (steady.epoll_wait w)
    few_events w = omega arith

handle_event-Keeps_example :
    Handles steady 0 steady-IsServing steady-IsDirect 70000
      (omega arith)
      steady-IsAllocator
      steady-IsReadable
      steady-IsPlentiful
      steady-HasClock
      fresh
      8
      4
      2
      false
      true
      true
      gathering
handle_event-Keeps_example =
    handle_event-Keeps steady 0 steady-IsServing steady-IsDirect 70000 (omega arith)
      steady-IsAllocator steady-IsReadable steady-IsPlentiful steady-HasClock fresh 8 4 2 gathering
      gathering-IsHall (talker, refl, talker-IsActive) (omega arith) (omega arith) false true true

sweep-Swept_example :
    (s' : Server Script) × (sweep steady 4 0 gathering ≡ some (tt, s'))
    × Swept steady 2 gathering s'
sweep-Swept_example =
    sweep-Swept steady 2 4 0 gathering gathering-IsHall (omega arith) (omega arith)

accept_new_clients-Accepts_example :
    Accepts steady fresh fresh-IsBlock steady-IsAllocator steady-IsPlentiful 2 1000 gathering
accept_new_clients-Accepts_example =
    accept_new_clients-Accepts steady fresh fresh-IsBlock steady-IsAllocator steady-IsPlentiful 2
      1000 gathering gathering-IsHall (omega arith)

handle_events_run :
    BatchRun steady 0 steady-IsServing steady-IsDirect 70000
      (omega arith)
      steady-IsAllocator
      steady-IsReadable
      steady-IsPlentiful
      steady-HasClock
      fresh
      fresh-IsBlock
      4
      2
      (ready 8 false true true ∷ listening ∷ ready 7 true false false ∷ [])
      gathering
handle_events_run =
    handle_events-BatchRun steady 0 steady-IsServing steady-IsDirect 70000 (omega arith)
      steady-IsAllocator steady-IsReadable steady-IsPlentiful steady-HasClock fresh fresh-IsBlock 4
      (ready 8 false true true ∷ listening ∷ ready 7 true false false ∷ []) 2 gathering
      gathering-IsHall (omega arith) (omega arith)

event_loop-LoopRun_example :
    LoopRun steady 0 steady-IsServing steady-IsDirect 700000
      (omega arith)
      steady-IsAllocator
      steady-IsReadable
      steady-IsPlentiful
      steady-HasClock
      steady-IsPolling
      fresh
      fresh-IsBlock
      4
      3
      2
      gathering
event_loop-LoopRun_example =
    event_loop-LoopRun steady 0 steady-IsServing steady-IsDirect 700000 (omega arith)
      steady-IsAllocator steady-IsReadable steady-IsPlentiful steady-HasClock steady-IsPolling fresh
      fresh-IsBlock 4 3 2 gathering gathering-IsHall (omega arith) (omega arith)

shut_down-Ended_example :
    (s' : Server Script) × (shut_down steady 70000 fresh gathering ≡ some (success, s'))
    × Closing steady 0 steady-IsServing 70000 (omega arith) steady-IsAllocator fresh gathering s'
shut_down-Ended_example =
    shut_down-Ended steady 0 steady-IsServing 70000 (omega arith) steady-IsAllocator fresh 2
      gathering gathering-IsHall

abbrev net : Net steady
net = record {
  socket = λ s. (some 3, s);
  setsockopt = λ fd s. (success, s);
  bind = λ fd a s. (success, s);
  listen = λ fd n s. (success, s);
  connect = λ fd a s. (success, s);
  inet_pton = λ text. some (0 ∷ 0 ∷ 0 ∷ 0 ∷ []);
  mutex_init = λ s. (success, s);
  mutex_destroy = λ s. (success, s);
  epoll_create = λ s. (some 4, s);
}

serve_on-Serves_example :
    Serves steady net 0 steady-IsServing steady-IsDirect 700000
      (omega arith)
      steady-IsAllocator
      steady-IsReadable
      steady-IsPlentiful
      steady-HasClock
      steady-IsPolling
      fresh
      fresh-IsBlock
      4
      3
      3
      stream
serve_on-Serves_example =
    serve_on-Serves steady net 0 steady-IsServing steady-IsDirect 700000 (omega arith)
      steady-IsAllocator steady-IsReadable steady-IsPlentiful steady-HasClock steady-IsPolling fresh
      fresh-IsBlock 4 3 3 stream (omega arith) (omega arith)

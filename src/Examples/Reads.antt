-- ===== src/Examples/Reads.antt =====
-- Runs of the reader with what it does for the messages.
use c_chat_server.Base.{
  true, false, ℕ, ◌≡◌, ◌⊎◌, refl, arith, [], ◌∷◌, some, replicate, length-replicate,
}
use c_chat_server.Os.{ready, Status, success, failure, little}
use c_chat_server.Os.Script.{Script, upto, block}
use c_chat_server.Os.Steady.{
  steady, steady-IsServing, steady-IsAllocator, steady-IsPlentiful, steady-HasClock,
  steady-IsReadable,
}
use c_chat_server.Client.{ClientInfo}
use c_chat_server.Server.{Server}
use c_chat_server.Handlers.Room.{IsRoom}
use c_chat_server.Reader.{payload_complete}
use c_chat_server.Loop.{handle_event}
use c_chat_server.Loop.Events.{Handled, handle_event-Handled}
use c_chat_server.Examples.Clients.{fresh}
use c_chat_server.Reader.Position.{IsReader}
use c_chat_server.Reader.Going.{IsReading, Goes, Idle}
use c_chat_server.Reader.Returns.{payload_complete-Goes}
use c_chat_server.Reader.Serve.{Outcome, handle_client_read-Outcome}
use c_chat_server.Examples.Rooms.{talk, talker, talker-HasBuffer}
use c_chat_server.Examples.Talks.{steady-IsDirect, talk-IsRoom, talker-IsMember}

talker-IsReader : IsReader little talker
talker-IsReader = record {
  header_sized = refl;
  payload_sized = length-replicate {A = ℕ} 4096 0;
  position = omega arith;
}

pub talker-IsReading : IsReading steady talker (b'B' ∷ b'o' ∷ replicate 4094 0)
talker-IsReading = record {
  member = talker-IsMember;
  buffered = talker-HasBuffer;
  reader = talker-IsReader;
}

payload_complete-Goes_example :
    (r : Status) × (s' : Server Script) × (payload_complete steady 70000 8 talk ≡ some (r, s'))
    × Goes 8 talk s'
    × ((r ≡ failure)
        ⊎ ((r ≡ success) × (d : ClientInfo) × (s'.clients 8 ≡ some d) × Idle steady talker d))
payload_complete-Goes_example =
    payload_complete-Goes steady 0 steady-IsServing steady-IsDirect 70000 (omega arith)
      steady-IsAllocator steady-IsPlentiful steady-HasClock 8 talk talker
      (b'B' ∷ b'o' ∷ replicate 4094 0) refl talker-IsReading talk-IsRoom (omega arith) (omega arith)
      (omega arith)

-- The frame of the last part "!" of a message comes in, in three pieces.
abbrev pub stream : Script
stream = record {
  moves = upto 4 ∷ upto 2 ∷ upto 1 ∷ block ∷ [];
  inbound = 0 ∷ 0 ∷ 0 ∷ 1 ∷ 0 ∷ 1 ∷ b'!' ∷ [];
  outbound = [];
  next_address = 100;
}

abbrev meeting : Server Script
meeting = record talk { world = stream }

meeting-IsRoom : IsRoom meeting
meeting-IsRoom = record { free = refl; members = talk-IsRoom.members }

handle_client_read-Outcome_example :
    Outcome steady 0 steady-IsServing steady-IsDirect 70000
      (omega arith)
      steady-IsAllocator
      steady-IsReadable
      steady-IsPlentiful
      steady-HasClock
      8
      4
      meeting
      talker
handle_client_read-Outcome_example =
    handle_client_read-Outcome steady 0 steady-IsServing steady-IsDirect 70000 (omega arith)
      steady-IsAllocator steady-IsReadable steady-IsPlentiful steady-HasClock 8 4 meeting talker
      (b'B' ∷ b'o' ∷ replicate 4094 0) refl talker-IsReading meeting-IsRoom (omega arith)
      (omega arith)

handle_event-Handled_example :
    (d : ClientInfo) × (w' : Script) × (s' : Server Script) × (handle_event steady 70000 fresh
        (ready 8 false false true)
        meeting
      ≡ some (tt, s'))
    × Goes 8 meeting s'
    × (s'.clients 8 ≡ some d)
    × (s'.world ≡ w')
    × Handled steady 0 steady-IsServing talker stream false true d w'
handle_event-Handled_example =
    handle_event-Handled steady 0 steady-IsServing 70000 fresh (omega arith) 8 meeting talker refl
      talker-IsMember meeting-IsRoom false true

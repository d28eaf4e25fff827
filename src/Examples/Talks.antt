-- ===== src/Examples/Talks.antt =====
-- Runs of the reader on a whole message.
use c_chat_server.Base.{
  ℕ, ◌≡◌, refl, arith, Bytes, [], ◌∷◌, some, length, true, replicate, length-replicate,
}
use c_chat_server.Os.{success, Status}
use c_chat_server.Os.Script.{Script}
use c_chat_server.Os.Steady.{
  steady, steady-IsServing, steady-IsAllocator, steady-IsPlentiful, steady-HasClock,
}
use c_chat_server.Client.{ClientInfo, read_payload, append_to_client_buffer}
use c_chat_server.Client.Buffer.{HasBuffer}
use c_chat_server.Server.{Server, update}
use c_chat_server.Broadcast.Rounds.{Served, after}
use c_chat_server.Reader.{payload_complete}
use c_chat_server.Reader.Complete.{IsTalking, Spoken, idle, payload_complete-Spoken}
use c_chat_server.Text.Strings.{c_string-append}
use c_chat_server.Os.Steady.{steady-IsOutbound}
use c_chat_server.Command.{CmdRes, cmd_ok}
use c_chat_server.Broadcast.Direct.{IsDirect}
use c_chat_server.Handlers.Room.{IsMember, IsRoom}
use c_chat_server.Broadcast.Kept.{Holds}
use c_chat_server.Payload.{process_payload}
use c_chat_server.Payload.Returns.{Processed, process_payload-Processed}
use c_chat_server.Handlers.{handle_whisper, handle_list}
use c_chat_server.Handlers.Listing.{Named, Listing, handle_list-Listing}
use c_chat_server.Handlers.Target.{name_at}
use c_chat_server.Handlers.Whisper.{Whispers, handle_whisper-Whispers}
use c_chat_server.Examples.Clients.{fresh}
use c_chat_server.Examples.Rooms.{talker-HasBuffer, room, talk, talker, fresh-IsQueue}

-- A client of the name "A" that holds "B" and has read the payload "o", which ends the message.
abbrev pub talking : ClientInfo
talking = record fresh {
  state = read_payload;
  expected_payload_len = 1;
  msg_done = 1;
  payload_buffer = b'o' ∷ replicate 4095 0;
  payload_bytes_read = 1;
  partial_msg = some (b'B' ∷ replicate 4095 0);
  partial_len = 1;
  has_name = true;
  name = b'A' ∷ replicate 63 0;
  name_len = 1;
}

pub talking-IsTalking : IsTalking talking (b'B' ∷ replicate 4095 0)
talking-IsTalking = record {
  buffered = record {
    is_block = refl;
    within = omega (arith, size);
    used = omega arith;
    least = omega arith;
  };
  read = omega arith;
  small = omega arith;
  last = λ e. omega arith;
  has_name = refl;
  named = omega arith;
  short = omega (arith, length-replicate {A = ℕ} 63 0);
  name_plain = ((λ e. omega arith), tt);
  text_plain = ((λ e. omega arith), ((λ e. omega arith), tt));
  no_command = λ e. cc;
  queue = fresh-IsQueue;
  limit = omega arith;
}
  where
    size : length (replicate {A = ℕ} 4095 0) ≡ 4095
    size = length-replicate {A = ℕ} 4095 0

abbrev pub hall : Server Script
hall = record room { clients = λ p. some talking }

hall-Served : (p : ℕ) → Served hall p
hall-Served p = (talking, refl, fresh-IsQueue, omega arith)

payload_complete-Spoken_example :
    (c1 : ClientInfo) × (w1 : Script) × (block' : Bytes) × (f : Server Script)
    × (append_to_client_buffer steady talking hall.world ≡ some ((success, c1), w1))
    × (payload_complete steady 70000 8 hall
        ≡ some (success, record f { clients = update f.clients 8 (some (idle talking block')) }))
    × HasBuffer (idle talking block') block'
    × Spoken steady 0 steady-IsServing 70000
        (omega arith)
        steady-IsAllocator
        steady-IsPlentiful
        steady-HasClock
        8
        (b'A' ∷ [])
        (b'B' ∷ b'o' ∷ [])
        (after hall 8 c1 w1)
        f
payload_complete-Spoken_example =
    payload_complete-Spoken steady 0 steady-IsServing 70000 (omega arith) steady-IsAllocator
      steady-IsPlentiful steady-HasClock 8 hall talking (b'B' ∷ replicate 4095 0) refl
      talking-IsTalking refl (hall-Served 7, (hall-Served 8, (hall-Served 9, tt)))

pub steady-IsDirect : IsDirect steady 0
unfolding steady-IsOutbound
steady-IsDirect = record { out = steady-IsOutbound; calm = λ fd w. omega arith }

talk-named : (p : ℕ) → (n : Bytes) × (name_at talk p ≡ some n)
talk-named p = (b'A' ∷ [], c_string-append (b'A' ∷ []) (replicate 62 0) ((λ e. omega arith), tt))

-- "A hey"
abbrev whisper : Bytes
whisper = b'A' ∷ 32 ∷ b'h' ∷ b'e' ∷ b'y' ∷ []

handle_whisper-Whispers_example :
    (r : CmdRes) × (s' : Server Script) × (handle_whisper steady 70000 8 whisper talk
      ≡ some (r, s'))
    × Whispers steady 0 steady-IsDirect talker whisper talk r s'
handle_whisper-Whispers_example =
    handle_whisper-Whispers steady 0 steady-IsDirect 70000 steady-IsAllocator steady-IsPlentiful
      steady-HasClock 8 whisper talk talker refl (omega (arith, length-replicate {A = ℕ} 63 0))
      (omega (arith, length-replicate {A = ℕ} 63 0))
      (talk-named 7, (talk-named 8, (talk-named 9, tt))) (omega arith)

talk-Named : (p : ℕ) → Named talk p
talk-Named p = (
  talker,
  refl,
  omega (arith, length-replicate {A = ℕ} 63 0),
  omega (arith, length-replicate {A = ℕ} 63 0),
)

handle_list-Listing_example :
    (w' : Script) × (handle_list steady 70000 8 talk ≡ some (cmd_ok, record talk { world = w' }))
    × Listing steady 0 steady-IsDirect 70000
        (omega arith)
        8
        5
        (λ p. some talker)
        (7 ∷ 8 ∷ 9 ∷ [])
        talk.world
        w'
handle_list-Listing_example =
    handle_list-Listing steady 0 steady-IsDirect 70000 (omega arith) 8 talker talk refl
      (talk-Named 7, (talk-Named 8, (talk-Named 9, tt)))

pub talker-IsMember : IsMember talker
talker-IsMember = record {
  queue = fresh-IsQueue;
  limit = omega arith;
  named = omega (arith, length-replicate {A = ℕ} 63 0);
  sized = omega (arith, length-replicate {A = ℕ} 63 0);
  ended = (b'A' ∷ [], c_string-append (b'A' ∷ []) (replicate 62 0) ((λ e. omega arith), tt));
}

pub talk-IsRoom : IsRoom talk
talk-IsRoom = record { free = refl; members = (at 7, (at 8, (at 9, tt))) }
  where
    at : (p : ℕ) → Holds IsMember talk p
    at p = (talker, refl, talker-IsMember)

process_payload-Processed_example :
    (r : Status) × (s' : Server Script) × (process_payload steady 70000 8
        (some (b'B' ∷ b'o' ∷ 0 ∷ []))
        talk
      ≡ some (r, s'))
    × Processed 8 talker talk s'
process_payload-Processed_example =
    process_payload-Processed steady 0 steady-IsServing steady-IsDirect 70000 (omega arith)
      steady-IsAllocator steady-IsPlentiful steady-HasClock 8 talk talker
      (b'B' ∷ b'o' ∷ replicate 4094 0) refl talker-IsMember talker-HasBuffer talk-IsRoom
      (omega arith) (omega arith)

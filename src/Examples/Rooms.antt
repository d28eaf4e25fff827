-- ===== src/Examples/Rooms.antt =====
-- Runs of a broadcast to three clients.
use c_chat_server.Base.{ℕ, ◌≡◌, refl, arith, Bytes, [], ◌∷◌, some, false}
use c_chat_server.Os.{success, little}
use c_chat_server.Os.Script.{Script, upto, block}
use c_chat_server.Os.Steady.{steady, steady-IsServing, steady-IsAllocator}
use c_chat_server.Protocol.{MsgHeader}
use c_chat_server.Client.{ClientInfo}
use c_chat_server.Queue.Content.{IsQueue}
use c_chat_server.Server.{Server}
use c_chat_server.Broadcast.{deliver, broadcast}
use c_chat_server.Broadcast.Deliver.{Delivered, deliver-Delivered}
use c_chat_server.Broadcast.Rounds.{Served, Sends, Deliveries, out_header, broadcast-Sends}
use c_chat_server.Examples.Clients.{fresh}
use c_chat_server.Base.{length, replicate, length-replicate}
use c_chat_server.Client.Buffer.{HasBuffer}
use c_chat_server.Server.{update}
use c_chat_server.Base.{none}
use c_chat_server.Base.{true}
use c_chat_server.Payload.{process_payload}
use c_chat_server.Server.{remove_all_clients}
use c_chat_server.Server.RemoveAll.{RemovesEach, remove_all_clients-RemovesEach}
use c_chat_server.Format.{format_chat_message}
use c_chat_server.Payload.Chat.{line_within, process_payload-Deliveries}
use c_chat_server.Base.{◌++◌, ◌≢◌, All}
use c_chat_server.Payload.Naming.{process_payload-name_at}
use c_chat_server.Handlers.Target.{name_at}

abbrev pub two_moves : Script
two_moves = record {
  moves = upto 4 ∷ block ∷ upto 90 ∷ [];
  inbound = [];
  outbound = [];
  next_address = 100;
}

abbrev hello : Bytes
hello = b'h' ∷ b'i' ∷ 0 ∷ []

abbrev hello_header : MsgHeader
hello_header = record { msg_len = 33554432; msg_type = 0; msg_done = 1 }

pub fresh-IsQueue : IsQueue fresh.msg_queue
fresh-IsQueue = record { packets = tt; bytes = refl; count = refl; small = omega arith }

deliver-Delivered_example :
    (c' : ClientInfo) × (w' : Script) × (deliver steady 70000 hello_header hello 2 fresh two_moves
      ≡ some (c', w'))
    × Delivered steady 0 steady-IsServing 70000
        (omega arith)
        steady-IsAllocator
        hello_header
        hello
        2
        fresh
        two_moves
        c'
        w'
deliver-Delivered_example =
    deliver-Delivered steady 0 steady-IsServing 70000 (omega arith) steady-IsAllocator hello_header
      hello 2 fresh two_moves (omega arith) (omega arith) fresh-IsQueue (omega arith) refl

abbrev pub room : Server Script
room = record {
  world = two_moves;
  clients = λ p. some fresh;
  client_list = 7 ∷ 8 ∷ 9 ∷ [];
  locked = false;
  server_fd = 3;
  server_shutdown = false;
}

room-Served : (p : ℕ) → Served room p
room-Served p = (fresh, refl, fresh-IsQueue, omega arith)

broadcast-Sends_example :
    (s' : Server Script) × (broadcast steady 70000 (some 8) hello 2 room
      ≡ some (success, record s' { locked = false }))
    × Deliveries steady 0 steady-IsServing 70000
        (omega arith)
        steady-IsAllocator
        hello
        2
        (omega arith)
        (omega arith)
        (some 8)
        (out_header little 2)
        (7 ∷ 8 ∷ 9 ∷ [])
        (record room { locked = true })
        s'
    × Sends (some 8) (7 ∷ 8 ∷ 9 ∷ []) room s'
broadcast-Sends_example =
    broadcast-Sends steady 0 steady-IsServing 70000 (omega arith) steady-IsAllocator hello 2
      (omega arith) (omega arith) (some 8) room refl
      (room-Served 7, (room-Served 8, (room-Served 9, tt)))

-- A client without a name whose first message is "Bo".
abbrev nameless : ClientInfo
nameless = record fresh { partial_msg = some (b'B' ∷ b'o' ∷ replicate 4094 0); partial_len = 2 }

nameless-HasBuffer : HasBuffer nameless (b'B' ∷ b'o' ∷ replicate 4094 0)
nameless-HasBuffer = record {
  is_block = refl;
  within = omega (arith, size);
  used = omega arith;
  least = omega arith;
}
  where
    size : length (replicate {A = ℕ} 4094 0) ≡ 4094
    size = length-replicate {A = ℕ} 4094 0

abbrev lobby : Server Script
lobby = record room { clients = λ p. some nameless }

process_payload-name_at_example :
    (d : ClientInfo) × (process_payload steady 9 7 none lobby
      ≡ some (success, record lobby { clients = update lobby.clients 7 (some d) }))
    × (d.has_name ≡ true)
    × (name_at (record lobby { clients = update lobby.clients 7 (some d) }) 7
        ≡ some (b'B' ∷ b'o' ∷ []))
process_payload-name_at_example =
    process_payload-name_at steady 9 7 none lobby nameless (b'B' ∷ b'o' ∷ replicate 4094 0) refl
      refl nameless-HasBuffer (length-replicate {A = ℕ} 64 0) (omega arith, (omega arith, tt))

-- Clients of the name "A" with the message "Bo".
abbrev pub talker : ClientInfo
talker = record nameless { has_name = true; name = b'A' ∷ replicate 63 0; name_len = 1 }

pub talker-HasBuffer : HasBuffer talker (b'B' ∷ b'o' ∷ replicate 4094 0)
talker-HasBuffer = record {
  is_block = refl;
  within = nameless-HasBuffer.within;
  used = omega arith;
  least = omega arith;
}

abbrev pub talk : Server Script
talk = record room { clients = λ p. some talker }

pub talk-Served : (p : ℕ) → Served talk p
talk-Served p = (talker, refl, fresh-IsQueue, omega arith)

-- "[] A: Bo\n"
abbrev bo : Bytes
bo = b'[' ∷ b']' ∷ 32 ∷ b'A' ∷ b':' ∷ 32 ∷ b'B' ∷ b'o' ∷ 10 ∷ []

process_payload-Deliveries_example :
    (w2 : Script) × (s' : Server Script) × (process_payload steady 70000 8
        (some (b'B' ∷ b'o' ∷ 0 ∷ []))
        talk
      ≡ some (success, record s' { locked = false }))
    × (format_chat_message steady talker talk.world ≡ some (some (bo ++ 0 ∷ []), w2))
    × Deliveries steady 0 steady-IsServing 70000
        (omega arith)
        steady-IsAllocator
        (bo ++ 0 ∷ [])
        9
        (line_within bo)
        (omega arith)
        (some 8)
        (out_header little 9)
        (7 ∷ 8 ∷ 9 ∷ [])
        (record talk { world = w2; locked = true })
        s'
    × Sends (some 8) (7 ∷ 8 ∷ 9 ∷ []) (record talk { world = w2 }) s'
process_payload-Deliveries_example =
    process_payload-Deliveries steady 0 steady-IsServing 70000 (omega arith) steady-IsAllocator 8
      talk talker (b'B' ∷ b'o' ∷ replicate 4094 0) b'B' (b'o' ∷ 0 ∷ []) (b'[' ∷ b']' ∷ []) two_moves
      refl refl talker-HasBuffer (omega (arith, length-replicate {A = ℕ} 63 0)) (λ e. omega arith)
      refl (λ w e. cc) plain (omega arith) refl
      (talk-Served 7, (talk-Served 8, (talk-Served 9, tt)))
  where
    plain : All (λ x. x ≢ 0) bo
    plain = (
      (λ e. omega arith),
      (
        (λ e. omega arith),
        (
          (λ e. omega arith),
          (
            (λ e. omega arith),
            (
              (λ e. omega arith),
              (
                (λ e. omega arith),
                ((λ e. omega arith), ((λ e. omega arith), ((λ e. omega arith), tt))),
              ),
            ),
          ),
        ),
      ),
    )

remove_all_clients-RemovesEach_example :
    RemovesEach steady
      (9 ∷ 8 ∷ 7 ∷ [])
      (record room { locked = true })
      (remove_all_clients steady room)
remove_all_clients-RemovesEach_example =
    remove_all_clients-RemovesEach steady room refl ((refl, (refl, tt)), ((refl, tt), (tt, tt)))
      ((fresh, refl), ((fresh, refl), ((fresh, refl), tt)))

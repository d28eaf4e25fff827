-- ===== src/Examples/Programs.antt =====
-- Runs of the two programs: the start of the server, the input of the client, and frames on a socket.
use c_chat_server.Base.{
  ℕ, ◌≡◌, ◌≢◌, refl, arith, zero, suc, [], ◌∷◌, some, true, false, replicate, length-replicate, All,
  Bool, inl, ℤ,
}
use c_chat_server.Os.{success, failure, Count}
use c_chat_server.Os.Script.{Script, script, upto, block}
use c_chat_server.Os.Steady.{steady, steady-IsOutbound, eager, eager-IsOutbound, eager-takes}
use c_chat_server.Client.{MsgQueue, MsgPacket}
use c_chat_server.Protocol.{MsgHeader, msg_type_normal}
use c_chat_server.Setup.{Net, init_server, server_main, serve_on}
use c_chat_server.Setup.Codes.{Binds, server_main-Binds}
use c_chat_server.Transfer.{write_packet}
use c_chat_server.Transfer.Sending.{frame_bytes, Sent, write_packet-Sent}
use c_chat_server.ClientApp.{Input, After, handle_input}
use c_chat_server.ClientApp.Typing.{IsInput, Typed, handle_input-Typed}
use c_chat_server.Queue.{client_try_write, create_packet}
use c_chat_server.Queue.SameFrame.{write_packet-create_packet}
use c_chat_server.Os.Steady.{steady-IsAllocator}
use c_chat_server.Protocol.{header_bytes}
use c_chat_server.Queue.Content.{IsQueue}
use c_chat_server.Queue.Liveness.{IsWilling, client_try_write-empties}
use c_chat_server.Examples.Clients.{fresh, queueing, queueing-IsQueue}

abbrev world : Script
world = record {
  moves = upto 2 ∷ upto 9 ∷ block ∷ [];
  inbound = [];
  outbound = [];
  next_address = 100;
}

-- Another program has the port.
abbrev net : Net script
net = record {
  socket = λ s. (some 3, s);
  setsockopt = λ fd s. (success, s);
  bind = λ fd a s. (failure, s);
  listen = λ fd n s. (success, s);
  connect = λ fd a s. (success, s);
  inet_pton = λ text. some (0 ∷ 0 ∷ 0 ∷ 0 ∷ []);
  mutex_init = λ s. (success, s);
  mutex_destroy = λ s. (success, s);
  epoll_create = λ s. (some 4, s);
}

server_main-Binds_example :
    (r : ℤ) × (w' : Script) × (init_server script net world ≡ some ((r, some 3), w'))
    × Binds script net 3 (0 ∷ 0 ∷ 0 ∷ 0 ∷ []) world r w'
    × (server_main script net 9 2 fresh world ≡ serve_on script net 9 2 fresh 3 w')
server_main-Binds_example =
    server_main-Binds script net 9 2 fresh world world world 4 3 (0 ∷ 0 ∷ 0 ∷ 0 ∷ []) world refl
      refl
      (record {
        w1 = world;
        w2 = world;
        socket = refl;
        nonblocking = refl;
        address = refl;
        reuse = refl;
      })

abbrev header : MsgHeader
header = record { msg_len = 33554432; msg_type = msg_type_normal; msg_done = 1 }

write_packet-Sent_example :
    (r : Count) × (w' : Script) × (write_packet steady 20 3 header (7 ∷ 8 ∷ []) 2 world
      ≡ some (r, w'))
    × Sent steady {fd = 3} (steady-IsOutbound 3) header (7 ∷ 8 ∷ []) 2 world w' r
unfolding steady-IsOutbound
write_packet-Sent_example =
    write_packet-Sent steady (steady-IsOutbound 3) header (7 ∷ 8 ∷ []) 2 world 20 0
      (λ w. omega arith) (omega arith) (omega arith)

-- The buffer of `main`, and the line "hi".
abbrev input : Input
input = record { buf = replicate 4096 0; last_chunk_filled = false }

input-IsInput : IsInput input
input-IsInput = record { sized = length-replicate {A = ℕ} 4096 0; plain = zeros 4096 }
  where
    zeros : (n : ℕ) → All (λ b. b ≢ 10) (replicate {A = ℕ} n 0)
    zeros zero = tt
    zeros (suc n) = (λ e. omega arith, zeros n)

handle_input-Typed_example :
    (a : After) × (w' : Script) × (handle_input steady 5000 3 input (b'h' ∷ b'i' ∷ 10 ∷ []) world
      ≡ some (a, w'))
    × Typed steady {sfd = 3} (steady-IsOutbound 3) (b'h' ∷ b'i' ∷ []) true world a w'
unfolding steady-IsOutbound
handle_input-Typed_example =
    handle_input-Typed steady (steady-IsOutbound 3) 5000 0 (λ w. omega arith) (omega arith) input
      (b'h' ∷ b'i' ∷ []) true world input-IsInput ((λ e. omega arith), (λ e. omega arith, tt))
      (omega arith) (omega arith) (λ e. cc) (inl (omega arith))

willing : IsWilling eager 5
willing = record {
  never_blocks = λ bs w w' e. eager-takes bs w _ e;
  never_fails = λ bs w w' e. eager-takes bs w _ e;
  takes_some = λ bs w w' some_bytes e. omega (arith, (eager-takes bs w _ e).0);
}

client_try_write-empties_example :
    (q : MsgQueue) × (e : Bool) × (w' : Script) × (client_try_write eager 9 queueing world
      ≡ some ((success, record queueing { msg_queue = q; epollout_enabled = e }), w'))
    × IsQueue q
    × (q.packets ≡ [])
    × (w'.outbound ≡ 2 ∷ 3 ∷ 4 ∷ [])
unfolding eager-IsOutbound
client_try_write-empties_example =
    client_try_write-empties eager queueing (eager-IsOutbound 5) 9 world willing queueing-IsQueue
      (omega arith)

abbrev packet : MsgPacket
packet = record {
  address = 100;
  packet_data = 0 ∷ 0 ∷ 0 ∷ 2 ∷ 0 ∷ 1 ∷ 7 ∷ 8 ∷ [];
  len = 8;
  offset = 0;
}

made :
    create_packet steady header (7 ∷ 8 ∷ []) 2 world
    ≡ some (some packet, record world { next_address = 101 })
unfolding create_packet header_bytes
made = refl

write_packet-create_packet_example :
    (r : Count) × (v' : Script) × (write_packet steady 20 3 header (7 ∷ 8 ∷ []) 2 world
      ≡ some (r, v'))
    × (frame_bytes steady header (7 ∷ 8 ∷ []) 2 ≡ packet.packet_data)
    × Sent steady {fd = 3} (steady-IsOutbound 3) header (7 ∷ 8 ∷ []) 2 world v' r
unfolding steady-IsOutbound
write_packet-create_packet_example =
    write_packet-create_packet steady (steady-IsOutbound 3) steady-IsAllocator header (7 ∷ 8 ∷ []) 2
      20 0 world (record world { next_address = 101 }) world packet (λ w. omega arith) (omega arith)
      (omega arith) made

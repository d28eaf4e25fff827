-- ===== src/Broadcast/Direct.antt =====
-- Direct messages: a whole frame, or a proper prefix of one, straight on the socket.
use c_chat_server.Base.{ℕ, ◌+◌, ◌≤◌, ◌<◌, ◌≡◌, ◌^◌, ◌%◌, Bytes, some, length, ◌>>=◌}
use c_chat_server.Os.{Os, Endian, Status, success, failure, Count, count, error}
use c_chat_server.Os.Laws.{IsOutbound}
use c_chat_server.Protocol.{
  MsgHeader, header_size, htonl, create_header, msg_type_normal, msg_type_admin,
}
use c_chat_server.Transfer.{write_header, write_payload}
use c_chat_server.Transfer.Sending.{Calm, Sent, no_header, both, write-Pair}
use c_chat_server.Broadcast.{send_direct, server_send_message, client_send_direct_message}

-- The sockets of all clients for direct messages, with a limit on the interruptions of their calls.
pub record IsDirect (os : Os) (bound : ℕ) : Type 0 where
  pub out : (fd : ℕ) → IsOutbound os (os.write fd)
  pub calm : (fd : ℕ) → Calm os (out fd) bound

-- The header of a direct message.
abbrev pub direct_header : Endian → (msg_type len : ℕ) → MsgHeader
direct_header order msg_type len = record {
  msg_len = htonl order (len % 2 ^ 32);
  msg_type = msg_type;
  msg_done = 1;
}

-- The code that the function makes of the count.
abbrev pub sent_status : Count → Status
sent_status error = failure
sent_status (count n) = success

module _ (os : Os) {fd : ℕ} (s : IsOutbound os (os.write fd)) (fuel bound : ℕ)
    (calm : Calm os s bound) (msg : Bytes) (n : ℕ) (w : os.World) (within : n ≤ length msg)
    (enough : header_size + n + bound < fuel) where
  send_direct-Sent :
      (msg_type : ℕ)
      → (r : Count) × (w' : os.World) × (send_direct os fuel msg_type fd msg n w
          ≡ some (sent_status r, w'))
        × Sent os s (direct_header os.byte_order msg_type n) msg n w w' r
  unfolding send_direct create_header
  send_direct-Sent msg_type =
      elim (write-Pair os s (direct_header os.byte_order msg_type n) msg n w fuel bound calm within
        enough) [
          | no_header w1 run sent ↦ (error, w1, rw (run, ◌>>=◌), sent)
          | both k w1 r w2 run run' sent ↦ (r, w2, second k w1 r w2 run run', sent)
        ]
    where
      second :
          (k : ℕ) (w1 : os.World) (r : Count) (w2 : os.World)
          → write_header os fuel fd (direct_header os.byte_order msg_type n) w ≡ some (count k, w1)
          → write_payload os fuel fd msg n w1 ≡ some (r, w2)
          → send_direct os fuel msg_type fd msg n w ≡ some (sent_status r, w2)
      second k w1 error w2 run run' = rw (run, ◌>>=◌, run')
      second k w1 (count m) w2 run run' = rw (run, ◌>>=◌, run')

  -- On a stream with a limit on the interruptions of its calls, for a message inside its buffer
  -- and enough fuel: `client_send_direct_message` returns with no access out of bounds. It
  -- returns 0, and the header of type 0 and the message are sent behind what was sent before; or
  -- only a part of them is, because a call of `write` failed or took no byte.
  pub client_send_direct_message-Sent :
      (r : Count) × (w' : os.World) × (client_send_direct_message os fuel fd msg n w
        ≡ some (sent_status r, w'))
      × Sent os s (direct_header os.byte_order msg_type_normal n) msg n w w' r
  unfolding client_send_direct_message
  client_send_direct_message-Sent = send_direct-Sent msg_type_normal

  pub server_send_message-Sent :
      (r : Count) × (w' : os.World) × (server_send_message os fuel fd msg n w
        ≡ some (sent_status r, w'))
      × Sent os s (direct_header os.byte_order msg_type_admin n) msg n w w' r
  unfolding server_send_message
  server_send_message-Sent = send_direct-Sent msg_type_admin

-- ===== src/Examples/Clients.antt =====
-- Runs on one client: its message buffer, its name, its queue and its reader.
use Prim.Native.Nat.{min}
use c_chat_server.Base.{
  ℕ, Bool, ◌+◌, ◌≡◌, ◌<◌, ◌≤◌, refl, arith, Bytes, [], ◌∷◌, ◌++◌, some, length, true, false,
  replicate, length-replicate, take, ◌⊎◌,
}
use c_chat_server.Os
use c_chat_server.Os.{little, success, failure, Status}
use c_chat_server.Os.Script.{Script, script, upto, block, script-IsOutbound, script-IsAllocator}
use c_chat_server.Client.{
  ClientInfo, MsgPacket, MsgQueue, read_header, empty_queue, buf_size, name_max,
  append_to_client_buffer, clear_client_buffer, store_client_name, grow_cap,
}
use c_chat_server.Client.Capacity.{grow_cap-bounds}
use c_chat_server.Client.Buffer.{
  HasBuffer, Appends, append_to_client_buffer-Appends, clear_client_buffer-empty, message,
}
use c_chat_server.Client.Name.{store_client_name-take}
use c_chat_server.Queue.{client_enqueue_msg_packet, client_try_write}
use c_chat_server.Queue.Content.{IsQueue, unsent}
use c_chat_server.Queue.Enqueue.{client_enqueue_msg_packet-unsent}
use c_chat_server.Queue.TryWrite.{Drains, client_try_write-Drains}
use c_chat_server.Reader.{receive, Round, wanted}
use c_chat_server.Reader.Position.{IsReader}
use c_chat_server.Reader.Frames.{Received, receive-Received}

-- A client that was just accepted, in a zeroed block.
abbrev pub fresh : ClientInfo
fresh = record {
  client_fd = 5;
  state = read_header;
  header_buffer = replicate 6 0;
  header_bytes_read = 0;
  expected_payload_len = 0;
  msg_type = 0;
  msg_done = 0;
  payload_buffer = replicate 4096 0;
  payload_bytes_read = 0;
  write_len = 0;
  write_offset = 0;
  msg_queue = empty_queue;
  epollout_enabled = false;
  name = replicate 64 0;
  name_len = 0;
  has_name = false;
  partial_msg = some (replicate 4096 0);
  partial_len = 0;
  partial_cap = buf_size;
  closed = false;
}

-- The same with two bytes of payload read, and with a message of three bytes.
abbrev with_payload : ClientInfo
with_payload = record fresh { payload_bytes_read = 2 }

abbrev with_message : ClientInfo
with_message = record fresh { partial_len = 3 }

abbrev world : Script
world = record {
  moves = upto 2 ∷ upto 9 ∷ block ∷ [];
  inbound = [];
  outbound = [];
  next_address = 100;
}

buffered : HasBuffer fresh (replicate 4096 0)
buffered = record {
  is_block = refl;
  within = omega (arith, size);
  used = omega arith;
  least = omega arith;
}
  where
    size : length (replicate {A = ℕ} 4096 0) ≡ 4096
    size = length-replicate {A = ℕ} 4096 0

payload_buffered : HasBuffer with_payload (replicate 4096 0)
payload_buffered = record {
  is_block = refl;
  within = buffered.within;
  used = omega arith;
  least = omega arith;
}

message_buffered : HasBuffer with_message (replicate 4096 0)
message_buffered = record {
  is_block = refl;
  within = buffered.within;
  used = omega arith;
  least = omega arith;
}

payload_read : with_payload.payload_bytes_read ≤ length with_payload.payload_buffer
payload_read = omega (arith, size)
  where
    size : length (replicate {A = ℕ} 4096 0) ≡ 4096
    size = length-replicate {A = ℕ} 4096 0

grow_cap-bounds_run :
    (r : ℕ) × (grow_cap 5 4096 9000 ≡ some r)
    × (9000 ≤ r)
    × (4096 ≤ r)
    × ((r ≡ 4096) ⊎ (r < 18_000))
grow_cap-bounds_run = grow_cap-bounds 4 4096 9000 (omega arith) (omega arith) (omega arith)

append_to_client_buffer-Appends_example :
    (r : Status) × (c' : ClientInfo) × (w' : Script) × (append_to_client_buffer script with_payload
        world
      ≡ some ((r, c'), w'))
    × Appends script with_payload (replicate 4096 0) payload_buffered payload_read r c'
append_to_client_buffer-Appends_example =
    append_to_client_buffer-Appends script script-IsAllocator with_payload (replicate 4096 0) world
      payload_buffered payload_read (omega arith)

clear_client_buffer-empty_run :
    (block' : Bytes) × (clear_client_buffer with_message world
      ≡ some (
        (
          success,
          record with_message {
            partial_msg = some block';
            partial_len = 0;
            partial_cap = buf_size;
          },
        ),
        world,
      ))
    × HasBuffer
        (record with_message { partial_msg = some block'; partial_len = 0; partial_cap = buf_size })
        block'
    × (take 3 block' ≡ replicate 3 0)
clear_client_buffer-empty_run =
    clear_client_buffer-empty with_message (replicate 4096 0) world message_buffered

store_client_name-take_run :
    (name' : Bytes) × (store_client_name with_message world
      ≡ some (
        (
          success,
          record with_message { partial_len = min 63 3; name = name'; name_len = min 63 3 },
        ),
        world,
      ))
    × (length name' ≡ name_max)
    × (take (min 63 3 + 1) name' ≡ take 63 (message with_message (replicate 4096 0)) ++ 0 ∷ [])
store_client_name-take_run =
    store_client_name-take with_message (replicate 4096 0) world message_buffered
      (length-replicate {A = ℕ} 64 0)

-- A packet of four bytes, one of them sent, alone in a queue; and a new packet.
abbrev half_sent : MsgPacket
half_sent = record { address = 1; packet_data = 1 ∷ 2 ∷ 3 ∷ 4 ∷ []; len = 4; offset = 1 }

abbrev new_packet : MsgPacket
new_packet = record { address = 2; packet_data = 5 ∷ 6 ∷ []; len = 2; offset = 0 }

abbrev pub queueing : ClientInfo
queueing = record fresh {
  msg_queue = record { packets = half_sent ∷ []; queued_bytes = 3; queued_count = 1 };
}

pub queueing-IsQueue : IsQueue queueing.msg_queue
queueing-IsQueue = record {
  packets = (record { sized = refl; unfinished = omega arith }, tt);
  bytes = refl;
  count = refl;
  small = omega arith;
}

client_enqueue_msg_packet-unsent_example :
    ((5 ≤ 65536)
      × ◌≡◌ {A = Bool} false false
      × (q : MsgQueue) × (client_enqueue_msg_packet queueing (some new_packet) 65536
          ≡ (success, record queueing { msg_queue = q }))
      × IsQueue q
      × (q.queued_bytes ≤ 65536)
      × (unsent q.packets ≡ 2 ∷ 3 ∷ 4 ∷ 5 ∷ 6 ∷ []))
    ⊎ (((65536 < 5) ⊎ ◌≡◌ {A = Bool} false true)
        × (client_enqueue_msg_packet queueing (some new_packet) 65536 ≡ (failure, queueing)))
client_enqueue_msg_packet-unsent_example =
    client_enqueue_msg_packet-unsent queueing new_packet 65536 queueing-IsQueue
      (record { sized = refl; unfinished = omega arith }) refl (omega arith)

client_try_write-Drains_example :
    (r : Status) × (c' : ClientInfo) × (w' : Script) × (client_try_write script 9 queueing world
      ≡ some ((r, c'), w'))
    × Drains script queueing script-IsOutbound (2 ∷ 3 ∷ 4 ∷ []) 3 w' r c'
unfolding script-IsOutbound
client_try_write-Drains_example =
    client_try_write-Drains script queueing script-IsOutbound 9 world queueing-IsQueue (omega arith)

fresh-IsReader : IsReader little fresh
fresh-IsReader = record {
  header_sized = refl;
  payload_sized = length-replicate {A = ℕ} 4096 0;
  position = omega arith;
}

receive-Received_example :
    (r : Round) × (c' : ClientInfo) × (receive little fresh (Os.ok (0 ∷ 0 ∷ [])) ≡ some (r, c'))
    × Received little fresh (0 ∷ 0 ∷ []) r c'
unfolding wanted
receive-Received_example = receive-Received little fresh (0 ∷ 0 ∷ []) fresh-IsReader (omega arith)

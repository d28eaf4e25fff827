-- ===== src/Examples/Servers.antt =====
-- Runs on the client list, the lines, the command table and the reader over a cut stream.

use c_chat_server.Base.{
  ℕ, ◌+◌, ◌≡◌, ◌≢◌, ◌<◌, ◌≤◌, refl, arith, Bytes, List, [], ◌∷◌, ◌++◌, some, none, length, true,
  false, replicate, length-replicate, take, if◌then◌else◌, ◌==◌, ◌⊎◌,
}
use c_chat_server.Protocol.{ntohl, header_at}
use c_chat_server.Os.{little, success, failure}
use c_chat_server.Os.Script.{Script, script, script-IsAllocator}
use c_chat_server.Client.{ClientInfo, read_header, buf_size, empty_queue}
use c_chat_server.Client.Buffer.{HasBuffer}
use c_chat_server.Command.{
  cmd_quit, cmd_list, cmd_whisper, cmd_shutdown, cmd_unknown, find_command, quit_name, list_name,
  whisper_name, shutdown_name,
}
use c_chat_server.Command.Table.{find_command-name}
use c_chat_server.Format.{format_chat_message, format_whisper_message}
use c_chat_server.Format.Lines.{
  whisper_pieces, concat, format_chat_message-line, format_whisper_message-line,
}
use c_chat_server.Server.{
  lock, get_client, last_of, drop_last, Server, max_clients, update, add_client_to_list,
  remove_client_from_list,
}
use c_chat_server.Server.ListLaws.{
  RemovesClient, remove_client_from_list-RemovesClient, add_client_to_list-limit,
}
use c_chat_server.Reader.Position.{IsReader}
use c_chat_server.Reader.Decode.{Frame, decode}
use c_chat_server.Reader.Chunks.{feed, feed-decode}
use c_chat_server.Reader.{receive, next_header, wanted}
use c_chat_server.Client.{client_info_init}
use c_chat_server.Base.{Option}
use c_chat_server.Reader.Position.{held}
use c_chat_server.Loop.Fresh.{IsClient, client_info_init-IsClient}
use c_chat_server.Queue.Content.{unsent}
use c_chat_server.Text.{c_string, str_eq}
use c_chat_server.Handlers.{find_target}
use c_chat_server.Handlers.Target.{Found, find_target-Found}

abbrev ada : ClientInfo
ada = record {
  client_fd = 5;
  state = read_header;
  header_buffer = replicate 6 0;
  header_bytes_read = 0;
  expected_payload_len = 0;
  msg_type = 0;
  msg_done = 0;
  payload_buffer = replicate 4096 0;
  payload_bytes_read = 0;
  write_len = 0;
  write_offset = 0;
  msg_queue = empty_queue;
  epollout_enabled = false;
  name = b'A' ∷ b'd' ∷ b'a' ∷ replicate 61 0;
  name_len = 3;
  has_name = true;
  partial_msg = some (b'H' ∷ b'i' ∷ replicate 4094 0);
  partial_len = 2;
  partial_cap = buf_size;
  closed = false;
}

abbrev ada_block : Bytes
ada_block = b'H' ∷ b'i' ∷ replicate 4094 0

ada-buffered : HasBuffer ada ada_block
ada-buffered = record {
  is_block = refl;
  within = omega (arith, size);
  used = omega arith;
  least = omega arith;
}
  where
    size : length (replicate {A = ℕ} 4094 0) ≡ 4094
    size = length-replicate {A = ℕ} 4094 0

abbrev quiet : Script
quiet = record { moves = []; inbound = []; outbound = []; next_address = 100 }

-- Three clients are allocated, and in the list.
abbrev serving : Server Script
serving = record {
  world = quiet;
  clients = λ p. if p == 8 then some ada else none;
  client_list = 7 ∷ 8 ∷ 9 ∷ [];
  locked = false;
  server_fd = 3;
  server_shutdown = false;
}

remove_client_from_list-RemovesClient_example :
    RemovesClient script serving 8 ada (remove_client_from_list script 8 serving)
remove_client_from_list-RemovesClient_example =
    remove_client_from_list-RemovesClient script serving 8 ada refl refl

remove_client_from_list_runs :
    remove_client_from_list script 7 (record serving { clients = λ p. some ada })
    ≡ some (
      success,
      record serving { client_list = 9 ∷ 8 ∷ []; clients = update (λ p. some ada) 7 none },
    )
unfolding remove_client_from_list lock get_client last_of drop_last
remove_client_from_list_runs = refl

add_client_to_list-limit_example :
    ((3 < max_clients)
      × (add_client_to_list script 8 serving
          ≡ some (success, record serving { client_list = 7 ∷ 8 ∷ 9 ∷ 8 ∷ [] }))
      × (4 ≤ max_clients))
    ⊎ ((3 ≡ max_clients)
        × (add_client_to_list script 8 serving
            ≡ some (failure, record serving { clients = update serving.clients 8 none })))
add_client_to_list-limit_example =
    add_client_to_list-limit script serving 8 ada refl refl (omega arith)

abbrev stamp : Bytes
stamp = b'[' ∷ b']' ∷ []

format_chat_message-line_run :
    (w2 : Script) × (((script.malloc 12 quiet ≡ (none, w2))
        × (format_chat_message script ada quiet ≡ some (none, w2)))
      ⊎ (format_chat_message script ada quiet
          ≡ some (
            some (b'[' ∷ b']' ∷ 32 ∷ b'A' ∷ b'd' ∷ b'a' ∷ b':' ∷ 32 ∷ b'H' ∷ b'i' ∷ 10 ∷ 0 ∷ []),
            w2,
          )))
format_chat_message-line_run =
    format_chat_message-line script script-IsAllocator ada ada_block quiet stamp quiet ada-buffered
      (omega arith) refl

format_whisper_message-line_run :
    (w2 : Script) × (((script.malloc 30 quiet ≡ (none, w2))
        × (format_whisper_message script ada (7 ∷ 8 ∷ []) 2 quiet ≡ some (none, w2)))
      ⊎ ((line : Bytes) × (format_whisper_message script ada (7 ∷ 8 ∷ []) 2 quiet
            ≡ some (some line, w2))
          × (take
                (length (concat (whisper_pieces stamp (b'A' ∷ b'd' ∷ b'a' ∷ []) (7 ∷ 8 ∷ []))) + 1)
                line
              ≡ concat (whisper_pieces stamp (b'A' ∷ b'd' ∷ b'a' ∷ []) (7 ∷ 8 ∷ [])) ++ 0 ∷ [])))
format_whisper_message-line_run =
    format_whisper_message-line script script-IsAllocator ada (7 ∷ 8 ∷ []) 2 quiet stamp quiet
      (omega arith) (omega arith) refl

find_command-name_run :
    ((list_name ≡ quit_name) × (find_command list_name ≡ cmd_quit))
    ⊎ ((list_name ≡ list_name) × (find_command list_name ≡ cmd_list))
    ⊎ ((list_name ≡ whisper_name) × (find_command list_name ≡ cmd_whisper))
    ⊎ ((list_name ≡ shutdown_name) × (find_command list_name ≡ cmd_shutdown))
    ⊎ ((list_name ≢ quit_name)
        × (list_name ≢ list_name)
        × (list_name ≢ whisper_name)
        × (list_name ≢ shutdown_name)
        × (find_command list_name ≡ cmd_unknown))
find_command-name_run = find_command-name list_name

-- A frame of two bytes that arrives in four pieces, and the first bytes of another.
abbrev pieces : List Bytes
pieces = (0 ∷ 0 ∷ []) ∷ (0 ∷ 2 ∷ 1 ∷ 1 ∷ []) ∷ (65 ∷ []) ∷ (66 ∷ []) ∷ (0 ∷ []) ∷ []

abbrev frame : Frame
frame = record { header = 0 ∷ 0 ∷ 0 ∷ 2 ∷ 1 ∷ 1 ∷ []; payload = 65 ∷ 66 ∷ [] }

abbrev ada_after : ClientInfo
ada_after = record ada {
  header_buffer = 0 ∷ 0 ∷ 0 ∷ 2 ∷ 1 ∷ 1 ∷ [];
  header_bytes_read = 1;
  msg_type = 1;
  msg_done = 1;
  payload_buffer = 65 ∷ 66 ∷ replicate 4094 0;
  payload_bytes_read = 2;
}

ada-IsReader : IsReader little ada
ada-IsReader = record {
  header_sized = refl;
  payload_sized = length-replicate {A = ℕ} 4096 0;
  position = omega arith;
}

feed_runs : feed little ada pieces ≡ some (frame ∷ [], ada_after)
unfolding feed wanted receive ntohl header_at next_header
feed_runs = refl

feed-decode_example :
    decode little 9 (0 ∷ 0 ∷ 0 ∷ 2 ∷ 1 ∷ 1 ∷ 65 ∷ 66 ∷ 0 ∷ []) ≡ (frame ∷ [], 0 ∷ [])
feed-decode_example =
    feed-decode little pieces ada (frame ∷ []) ada_after 9 ada-IsReader feed_runs tt (omega arith)

client_info_init-IsClient_example :
    ((w' : Script) × (script.malloc 4096 quiet ≡ (none, w'))
      × (client_info_init script ada 9 quiet
          ≡ some ((failure, record ada { partial_msg = none }), w')))
    ⊎ ((block : Bytes) × (c : ClientInfo) × (w' : Script) × (script.malloc 4096 quiet
          ≡ (some block, w'))
        × (client_info_init script ada 9 quiet ≡ some ((success, c), w'))
        × IsClient little c block
        × (held c ≡ [])
        × (unsent c.msg_queue.packets ≡ [])
        × (c.client_fd ≡ 9)
        × (c.closed ≡ false)
        × (c.partial_len ≡ 0)
        × (c.name ≡ ada.name))
client_info_init-IsClient_example =
    client_info_init-IsClient script script-IsAllocator ada 9 quiet refl
      (length-replicate {A = ℕ} 4096 0) refl

-- Both clients are called "Ada"; the first one of the list is found.
abbrev two_adas : Server Script
two_adas = record serving { clients = λ p. some ada }

find_target-Found_example :
    (r : Option ℕ) × (find_target script 9 (some (b'A' ∷ b'd' ∷ b'a' ∷ [])) (7 ∷ 8 ∷ []) two_adas
      ≡ some (r, two_adas))
    × Found two_adas (b'A' ∷ b'd' ∷ b'a' ∷ []) (7 ∷ 8 ∷ []) r
unfolding c_string
find_target-Found_example =
    find_target-Found script 9 two_adas (b'A' ∷ b'd' ∷ b'a' ∷ []) (7 ∷ 8 ∷ [])
      ((b'A' ∷ b'd' ∷ b'a' ∷ [], refl), ((b'A' ∷ b'd' ∷ b'a' ∷ [], refl), tt))

find_target_runs :
    find_target script 9 (some (b'A' ∷ b'd' ∷ b'a' ∷ [])) (7 ∷ 8 ∷ []) two_adas
    ≡ some (some 7, two_adas)
unfolding find_target get_client c_string str_eq
find_target_runs = refl

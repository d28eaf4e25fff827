-- ===== src/Examples/Transport.antt =====
-- Runs of headers, reads, writes and commands.
use c_chat_server.Base.{◌≡◌, refl, arith, Bytes, [], ◌∷◌, some, length, true}
use c_chat_server.Os.{little, big, success, Count}
use c_chat_server.Os.Script.{Script, script, upto, interrupt, script-IsInbound, script-IsOutbound}
use c_chat_server.Protocol.{MsgHeader, header_size, header_bytes, header_at, create_header, ntohl}
use c_chat_server.Protocol.Wire.{header-roundtrip}
use c_chat_server.Io.{read_all, write_all}
use c_chat_server.Io.ReadAll.{Reads, read_all-Reads}
use c_chat_server.Io.WriteAll.{Writes, write_all-Writes}
use c_chat_server.Base.{◌++◌}
use c_chat_server.Reader.Decode.{decode}
use c_chat_server.Reader.Sent.{create_header-decode}

abbrev blank : MsgHeader
blank = record { msg_len = 0; msg_type = 0; msg_done = 0 }

-- A stream of five bytes that arrives as two bytes, an interruption, and the rest.
abbrev arriving : Script
arriving = record {
  moves = upto 2 ∷ interrupt ∷ upto 9 ∷ [];
  inbound = 1 ∷ 2 ∷ 3 ∷ 4 ∷ 5 ∷ [];
  outbound = [];
  next_address = 100;
}

header-roundtrip_example :
    (out : MsgHeader) × (create_header little (some blank) 70_000 1 true ≡ (success, some out))
    × (length (header_bytes little out) ≡ header_size)
    × (ntohl big (header_at big (header_bytes little out)).msg_len ≡ 70_000)
    × ((header_at big (header_bytes little out)).msg_type ≡ 1)
    × ((header_at big (header_bytes little out)).msg_done ≡ 1)
header-roundtrip_example = header-roundtrip little big blank 70_000 1 true (omega arith)

read_all-Reads_example :
    (r : Count) × (b : Bytes) × (w' : Script) × (read_all script 9 3 (0 ∷ 0 ∷ 0 ∷ 0 ∷ []) 4 arriving
      ≡ some ((r, b), w'))
    × Reads script (script-IsInbound 3) 4 [] arriving 4 w' r b
unfolding script-IsInbound
read_all-Reads_example =
    read_all-Reads script (script-IsInbound 3) 9 4 (0 ∷ 0 ∷ 0 ∷ 0 ∷ []) arriving (omega arith)
      (omega arith)

read_all_runs :
    read_all script 9 3 (0 ∷ 0 ∷ 0 ∷ 0 ∷ []) 4 arriving
    ≡ some (
      (Count.count 4, 1 ∷ 2 ∷ 3 ∷ 4 ∷ []),
      record { moves = []; inbound = 5 ∷ []; outbound = []; next_address = 100 },
    )
unfolding read_all
read_all_runs = refl

write_all-Writes_example :
    (r : Count) × (w' : Script) × (write_all script 9 3 (7 ∷ 8 ∷ 9 ∷ []) 3 arriving ≡ some (r, w'))
    × Writes script {fd = 3} script-IsOutbound 3 (7 ∷ 8 ∷ 9 ∷ []) arriving w' r
unfolding script-IsOutbound
write_all-Writes_example =
    write_all-Writes script {fd = 3} script-IsOutbound 9 3 (7 ∷ 8 ∷ 9 ∷ []) arriving (omega arith)
      (omega arith)

write_all_runs :
    write_all script 9 3 (7 ∷ 8 ∷ 9 ∷ []) 3 arriving
    ≡ some (
      Count.count 3,
      record {
        moves = [];
        inbound = 1 ∷ 2 ∷ 3 ∷ 4 ∷ 5 ∷ [];
        outbound = 7 ∷ 8 ∷ 9 ∷ [];
        next_address = 100;
      },
    )
unfolding write_all
write_all_runs = refl

create_header-decode_example :
    (out : MsgHeader) × (create_header little (some blank) 2 0 true ≡ (success, some out))
    × (decode big 3 (header_bytes little out ++ 65 ∷ 66 ∷ [])
        ≡ (record { header = header_bytes little out; payload = 65 ∷ 66 ∷ [] } ∷ [], []))
create_header-decode_example =
    create_header-decode little big blank (65 ∷ 66 ∷ 67 ∷ []) 2 0 true 3 (omega arith) (omega arith)
      (omega arith)

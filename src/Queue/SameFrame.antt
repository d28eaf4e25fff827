-- ===== src/Queue/SameFrame.antt =====
-- A queued packet and a packet that is written at once are the same bytes.
use mathlib.Core.Option.{some-injective}
use c_chat_server.Base.{
  ℕ, ◌+◌, ◌≤◌, ◌<◌, ◌≡◌, ap, sym, ◌∙◌, Bytes, ◌++◌, some, none, Option, length, take,
}
use c_chat_server.Os.{Os, Count}
use c_chat_server.Os.Laws.{IsAllocator, IsOutbound}
use c_chat_server.Protocol.{MsgHeader, header_size, header_bytes}
use c_chat_server.Client.{MsgPacket}
use c_chat_server.Queue.{create_packet}
use c_chat_server.Queue.Packet.{Packs, packs, no_bytes, no_packet, create_packet-Packs}
use c_chat_server.Transfer.{write_packet}
use c_chat_server.Transfer.Sending.{frame_bytes, Calm, Sent, write_packet-Sent}

-- For a payload inside its buffer, on a stream with a limit on the interruptions of its calls and
-- with fuel for the frame: when `create_packet` makes a packet of a header and a payload, then
-- `write_packet` of the same header and payload returns, and the bytes of the frame in what it comes
-- to are those of the block of that packet: it sends exactly the block, and returns the length of the
-- payload; or only a part of it, because one of its calls of `write` failed or took no byte.
pub write_packet-create_packet :
    (os : Os) {fd : ℕ} (s : IsOutbound os (os.write fd)) (laws : IsAllocator os)
    (header : MsgHeader) (payload : Bytes) (n fuel bound : ℕ) (w w' v : os.World) (p : MsgPacket)
    → Calm os s bound
    → n ≤ length payload
    → header_size + n + bound < fuel
    → create_packet os header payload n w ≡ some (some p, w')
    → (r : Count) × (v' : os.World) × (write_packet os fuel fd header payload n v ≡ some (r, v'))
      × (frame_bytes os header payload n ≡ p.packet_data)
      × Sent os s header payload n v v' r
write_packet-create_packet os {fd} s laws header payload n fuel bound w w' v p calm within enough
      made =
    let (r, v', run, sent) =
      write_packet-Sent os s header payload n v fuel bound calm within enough in
    let (content, size) = block (create_packet-Packs os header payload n w laws within) in
    (r, v', run, sym content, sent)
  where
    same :
        (q : Option MsgPacket) (u : os.World)
        → create_packet os header payload n w ≡ some (q, u)
        → q ≡ some p
    same q u run = ap (λ x. x.0) (some-injective _ _ (sym run ∙ made))

    block :
        Packs os header payload n w
        → (p.packet_data ≡ header_bytes os.byte_order header ++ take n payload)
          × (length p.packet_data ≡ header_size + n)
    block (packs q b w1 w2 e f run is start size content) =
        let is_p : q ≡ p = some-injective _ _ (same (some q) w2 run) in
        (
          ap (λ x. x.packet_data) (sym is_p) ∙ content,
          ap (λ x. length x.packet_data) (sym is_p) ∙ (is.sized ∙ size),
        )
    block (no_bytes w1 e run) = absurd (cc (same none w1 run))
    block (no_packet b w1 w2 e f run) = absurd (cc (same none w2 run))

-- ===== src/Queue/Content.antt =====
-- What a message queue stands for: the bytes that are still to be sent, in order, and the two
-- counters.
use c_chat_server.Base.{
  ◌^◌, ◌≤◌, ◌<◌, ◌≡◌, refl, arith, Bytes, List, [], ◌∷◌, ◌++◌, append_assoc, All, length, drop,
  length-append, length-drop,
}
use c_chat_server.Client.{MsgPacket, MsgQueue}

-- A packet in a queue has bytes left to send.
pub record IsPacket (p : MsgPacket) : Type 0 where
  pub sized : length p.packet_data ≡ p.len
  pub unfinished : p.offset < p.len

abbrev pub unsent : List MsgPacket → Bytes
unsent [] = []
unsent (p ∷ ps) = drop p.offset p.packet_data ++ unsent ps

-- The counters agree with the packets, and stay clear of overflow.
pub record IsQueue (q : MsgQueue) : Type 0 where
  pub packets : All IsPacket q.packets
  pub bytes : q.queued_bytes ≡ length (unsent q.packets)
  pub count : q.queued_count ≡ length q.packets
  pub small : q.queued_bytes < 2 ^ 63

pub unsent-append : (ps qs : List MsgPacket) → unsent (ps ++ qs) ≡ unsent ps ++ unsent qs
unsent-append [] qs = refl
unsent-append (p ∷ ps) qs = rw (unsent-append ps qs, append_assoc)

-- Each packet has a byte left, so there are at most as many packets as bytes.
pub length-le-unsent : (ps : List MsgPacket) → All IsPacket ps → length ps ≤ length (unsent ps)
length-le-unsent [] h = omega arith
length-le-unsent (p ∷ ps) h = omega (
  arith,
  length-le-unsent ps h.1,
  length-append (drop p.offset p.packet_data) (unsent ps),
  length-drop p.offset p.packet_data,
  h.0.sized,
  h.0.unfinished,
)

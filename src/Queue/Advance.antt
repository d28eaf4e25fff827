-- ===== src/Queue/Advance.antt =====
-- What the queue is after `send` has taken some bytes of its head.
use c_chat_server.Base.{
  ℕ, suc, ◌+◌, ◌-◌, ◌≤◌, ◌<◌, ◌≡◌, arith, Bytes, List, ◌∷◌, ◌++◌, true, length, length-append,
  append_assoc, Bool-cases, ◌==◌, inl, inr, ◌∙◌, take, drop, length-drop, ap, take-all, drop-drop,
  take-append-drop, All,
}
use c_chat_server.Client.{MsgPacket, MsgQueue}
use c_chat_server.Queue.{advance}
use c_chat_server.Queue.Content.{IsPacket, IsQueue, unsent, length-le-unsent}

module _ (q : MsgQueue) (p : MsgPacket) (rest : List MsgPacket) (v : IsQueue q)
    (here : q.packets ≡ p ∷ rest) (k : ℕ) where
  pub head-IsPacket : IsPacket p × All IsPacket rest
  head-IsPacket = rw here at v.packets

  pub head-bytes : q.queued_bytes ≡ p.len - p.offset + length (unsent rest)
  head-bytes =
      let sum = ap (λ ps. length (unsent ps)) here in
      omega (
        arith,
        v.bytes,
        sum,
        length-append (drop p.offset p.packet_data) (unsent rest),
        length-drop p.offset p.packet_data,
        head-IsPacket.0.sized,
      )

  pub head-count : q.queued_count ≡ suc (length rest)
  head-count = v.count ∙ ap length here

  -- The bytes that `send` took are gone from the front.
  pub advance-unsent :
      0 < k
      → k ≤ p.len - p.offset
      → unsent q.packets
        ≡ take k (drop p.offset p.packet_data) ++ unsent (advance q p rest k).packets
  unfolding advance
  advance-unsent pos short = ap unsent here ∙ elim (Bool-cases (p.offset + k == p.len)) [
    | inl all ↦ rw (all, take-all k left (omega (arith, size, done all)))
    | inr some_left ↦ rw (
      some_left,
      ← drop-drop k p.offset p.packet_data,
      ← append_assoc (take k left) (drop k left) (unsent rest),
      take-append-drop k left,
    )
  ]
    where
      left : Bytes
      left = drop p.offset p.packet_data

      size : length left ≡ length p.packet_data - p.offset
      size = length-drop p.offset p.packet_data

      done : (p.offset + k == p.len) ≡ true → length p.packet_data ≡ p.offset + k
      done h = ground (arith, head-IsPacket.0.sized)

  pub advance-IsQueue : 0 < k → k ≤ p.len - p.offset → IsQueue (advance q p rest k)
  unfolding advance
  advance-IsQueue pos short = elim (Bool-cases (p.offset + k == p.len)) [
    | inl all ↦ rw all (record {
      packets = head-IsPacket.1;
      bytes = ground (arith, head-bytes, v.small);
      count =
          omega
            (arith, head-count, v.small, v.bytes, v.count, length-le-unsent q.packets v.packets);
      small = omega (arith, v.small, head-bytes);
    })
    | inr some_left ↦ rw some_left (record {
      packets = (
        record {
          sized = head-IsPacket.0.sized;
          unfinished = ground (arith, head-IsPacket.0.unfinished);
        },
        head-IsPacket.1,
      );
      bytes = ground (
        arith,
        head-bytes,
        v.small,
        head-IsPacket.0.sized,
        length-append (drop (p.offset + k) p.packet_data) (unsent rest),
        length-drop (p.offset + k) p.packet_data,
      );
      count = head-count;
      small = omega (arith, v.small, head-bytes);
    })
  ]

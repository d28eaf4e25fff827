-- ===== src/Queue/Enqueue.antt =====
-- Putting a packet on a client's queue.
use c_chat_server.Base.{
  All-append, ℕ, ◌+◌, ◌%◌, ◌^◌, ◌≤◌, ◌<◌, ◌≡◌, arith, [], ◌∷◌, ◌++◌, some, true, false, length,
  length-append, append-nil, Bool-cases, ltb, ◌⊎◌, inl, inr, ◌∙◌, ap,
}
use c_chat_server.Os.{success, failure}
use c_chat_server.Client.{ClientInfo, MsgPacket, MsgQueue}
use c_chat_server.Queue.{client_enqueue_msg_packet, push}
use c_chat_server.Queue.Content.{IsPacket, IsQueue, unsent, unsent-append, length-le-unsent}

push-unsent :
    (q : MsgQueue) (p : MsgPacket)
    → p.offset ≡ 0
    → unsent (push q p).packets ≡ unsent q.packets ++ p.packet_data
unfolding push
push-unsent q p start = rw (unsent-append q.packets (p ∷ []), append-nil, start)

push-IsQueue :
    (q : MsgQueue) (p : MsgPacket)
    → IsQueue q
    → IsPacket p
    → p.offset ≡ 0
    → q.queued_bytes + p.len < 2 ^ 63
    → IsQueue (push q p)
unfolding push
push-IsQueue q p v fresh start small = record {
  packets = All-append IsPacket q.packets (p ∷ []) v.packets (fresh, tt);
  bytes = omega (arith, bytes, fresh.sized, v.bytes);
  count = omega (
    arith,
    length-append q.packets (p ∷ []),
    v.count,
    length-le-unsent q.packets v.packets,
    v.bytes,
  );
  small = omega arith;
}
  where
    bytes : length (unsent (q.packets ++ p ∷ [])) ≡ length (unsent q.packets) + length p.packet_data
    bytes = ap length (push-unsent q p start) ∙ length-append (unsent q.packets) p.packet_data

-- For a valid queue and a valid new packet, whose bytes together stay below 2 ^ 63:
-- `client_enqueue_msg_packet` takes the packet exactly when these bytes stay within `limit` and the
-- client is not closed, and else returns -1 and changes nothing. When it is taken, the queue is valid
-- and within `limit`, its unsent bytes are those from before followed by the packet's, and no other
-- field of the client changes.
pub client_enqueue_msg_packet-unsent :
    (c : ClientInfo) (p : MsgPacket) (limit : ℕ)
    → IsQueue c.msg_queue
    → IsPacket p
    → p.offset ≡ 0
    → c.msg_queue.queued_bytes + p.len < 2 ^ 63
    → ((c.msg_queue.queued_bytes + p.len ≤ limit)
        × (c.closed ≡ false)
        × (q : MsgQueue) × (client_enqueue_msg_packet c (some p) limit
            ≡ (success, record c { msg_queue = q }))
        × IsQueue q
        × (q.queued_bytes ≤ limit)
        × (unsent q.packets ≡ unsent c.msg_queue.packets ++ p.packet_data))
      ⊎ (((limit < c.msg_queue.queued_bytes + p.len) ⊎ (c.closed ≡ true))
          × (client_enqueue_msg_packet c (some p) limit ≡ (failure, c)))
unfolding client_enqueue_msg_packet
client_enqueue_msg_packet-unsent c p limit v fresh start small =
    elim (Bool-cases (ltb limit (c.msg_queue.queued_bytes + p.len))) [
      | inl over ↦ inr (inl (ground arith), rw (exact, over))
      | inr room ↦ elim (Bool-cases c.closed) [
        | inl closed ↦ inr (inr closed, rw (exact, room, closed))
        | inr live ↦ inl (
          ground arith,
          live,
          push c.msg_queue p,
          rw (exact, room, live),
          push-IsQueue c.msg_queue p v fresh start small,
          within (ground arith),
          push-unsent c.msg_queue p start,
        )
      ]
    ]
  where
    exact : (c.msg_queue.queued_bytes + p.len) % 2 ^ 64 ≡ c.msg_queue.queued_bytes + p.len
    exact = omega arith

    within : c.msg_queue.queued_bytes + p.len ≤ limit → (push c.msg_queue p).queued_bytes ≤ limit
    within h = unfold push in omega (arith, exact)

-- ===== src/Queue.antt =====
-- msg_packet.c, `client_enqueue_msg_packet` of client_utils.c, and client_try_write.c.
pub mod Advance
pub mod Content
pub mod Enqueue
pub mod Liveness
pub mod Packet
pub mod SameFrame
pub mod TryWrite
use c_chat_server.Base.{
  ℕ, zero, suc, ◌+◌, ◌-◌, ◌%◌, ◌^◌, Bytes, List, [], ◌∷◌, ◌++◌, Option, none, some, Bool, M, pure,
  fault, checked, ◌>>=◌, ltb, ◌==◌, if◌then◌else◌, memcpy, slice,
}
use c_chat_server.Os.{Os, Io, ok, again, interrupted, failed, Status, success, failure, call}
use c_chat_server.Protocol.{MsgHeader, header_size, header_bytes}
use c_chat_server.Client.{ClientInfo, MsgPacket, MsgQueue}
use c_chat_server.Epoll.{disable_epollout_for_client}

-- `client->msg_queue` with a packet behind the tail.
push : MsgQueue → MsgPacket → MsgQueue
push q p = record {
  packets = q.packets ++ p ∷ [];
  queued_bytes = (q.queued_bytes + p.len) % 2 ^ 64;
  queued_count = (q.queued_count + 1) % 2 ^ 64;
}

-- `packet` is `none` for NULL.
unfoldable pub client_enqueue_msg_packet :
    ClientInfo → Option MsgPacket → (limit : ℕ) → Status × ClientInfo
unfolding push
client_enqueue_msg_packet c none limit = (failure, c)
client_enqueue_msg_packet c (some p) limit =
    if ltb limit ((c.msg_queue.queued_bytes + p.len) % 2 ^ 64)
    then (failure, c)
    else if c.closed
    then (failure, c)
    else (success, record c { msg_queue = push c.msg_queue p })

-- What is done to a queue with head `p` when `send` took `k` bytes of it: a packet that is sent to
-- its end is freed, and the next one becomes the head.
pub advance : MsgQueue → MsgPacket → List MsgPacket → ℕ → MsgQueue
advance q p rest k =
    let bytes = (q.queued_bytes + 2 ^ 64 - k) % 2 ^ 64 in
    let count = (q.queued_count + 2 ^ 64 - 1) % 2 ^ 64 in
    if p.offset + k == p.len
    then record { packets = rest; queued_bytes = bytes; queued_count = count }
    else record {
      packets = record p { offset = p.offset + k } ∷ rest;
      queued_bytes = bytes;
      queued_count = q.queued_count;
    }

module _ (os : Os) where
  unfoldable pub create_packet :
      MsgHeader → Bytes → (payload_len : ℕ) → M os.World (Option MsgPacket)
  create_packet header payload payload_len = do
    let total = header_size + payload_len
    block ← call (os.malloc total)
    elim block [
      | none ↦ pure none
      | some packet_data ↦ do
        headed ← checked (memcpy packet_data 0 (header_bytes os.byte_order header))
        bytes ← checked (slice payload 0 payload_len)
        filled ← checked (memcpy headed header_size bytes)
        address ← call os.new_struct
        elim address [
          | none ↦ pure none
          | some a ↦
              pure (some (record { address = a; packet_data = filled; len = total; offset = 0 }))
        ]
    ]

  -- One round of fuel is one call of `send`, or the end of the loop.
  pub client_try_write : (fuel : ℕ) → ClientInfo → M os.World (Status × ClientInfo)
  client_try_write zero c = fault
  client_try_write (suc fuel) c = elim c.msg_queue.packets [
    | [] ↦ do c' ← disable_epollout_for_client os c; pure (success, c')
    | p ∷ rest ↦ do
      bytes ← checked (slice p.packet_data p.offset ((p.len + 2 ^ 64 - p.offset) % 2 ^ 64))
      r ← call (os.send c.client_fd bytes)
      elim r [
        | ok k ↦
            if k == 0
            then pure (failure, c)
            else client_try_write fuel (record c { msg_queue = advance c.msg_queue p rest k })
        | again ↦ pure (success, c)
        | interrupted ↦ client_try_write fuel c
        | failed ↦ pure (failure, c)
      ]
  ]

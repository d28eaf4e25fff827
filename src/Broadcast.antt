-- ===== src/Broadcast.antt =====
-- broadcast.c: a message to every other client through its queue, and direct messages past the queue.
pub mod Attempt
pub mod Deliver
pub mod Direct
pub mod Kept
pub mod Rounds
use c_chat_server.Base.{
  ℕ, Bytes, List, [], ◌∷◌, Option, none, some, Bool, true, false, not, ◌&&◌, M, pure, ◌>>=◌, ◌>>◌,
  ◌==◌, if◌then◌else◌,
}
use c_chat_server.Os.{Os, Status, success, failure, count, error}
use c_chat_server.Protocol.{
  MsgHeader, create_header, msg_type_normal, msg_type_admin, msg_size_limit,
}
use c_chat_server.Client.{ClientInfo, MsgPacket}
use c_chat_server.Epoll.{enable_epollout_for_client}
use c_chat_server.Queue.{create_packet, client_enqueue_msg_packet, client_try_write}
use c_chat_server.Transfer.{write_header, write_payload}
use c_chat_server.Server.{Server, get_state, get_client, put_client, lift, lock, unlock}

-- `msg_queue.head == packet`
head_is : List MsgPacket → ℕ → Bool
head_is [] address = false
head_is (p ∷ ps) address = p.address == address

is_empty : List MsgPacket → Bool
is_empty [] = true
is_empty (p ∷ ps) = false

-- `sender` is `none` for NULL.
pub is_sender : Option ℕ → ℕ → Bool
is_sender none client = false
is_sender (some s) client = client == s

-- The header that the callers fill in on their stack.
abbrev blank_header : MsgHeader
blank_header = record { msg_len = 0; msg_type = 0; msg_done = 0 }

module _ (os : Os) (fuel : ℕ) where
  -- The first attempt to write, and then the wait for output if something is left.
  pub try_now : Bool → ClientInfo → M os.World ClientInfo
  try_now first c =
      let attempt : M os.World ClientInfo = do
        r ← client_try_write os fuel c
        pure (elim r.0 [ success ↦ r.1 | failure ↦ record (r.1) { closed = true } ])
      in if first then attempt else pure c

  pub wait_for_output : ClientInfo → M os.World ClientInfo
  wait_for_output c =
      if is_empty c.msg_queue.packets then pure c else enable_epollout_for_client os c

  -- The body of the loop for a client that is not the sender and not closed. A refused packet is
  -- freed.
  unfoldable pub deliver : MsgHeader → Bytes → (len : ℕ) → ClientInfo → M os.World ClientInfo
  unfolding try_now wait_for_output head_is is_empty
  deliver out_header msg len c = do
    packet ← create_packet os out_header msg len
    elim packet [
      | none ↦ pure c
      | some p ↦ do
        let queued = (client_enqueue_msg_packet c (some p) msg_size_limit).1
        tried ←
            try_now (not queued.epollout_enabled && head_is queued.msg_queue.packets p.address)
              queued
        wait_for_output tried
    ]

  pub broadcast_loop :
      MsgHeader → Bytes → (len : ℕ) → (sender : Option ℕ) → List ℕ → M (Server os.World) (Unit {0})
  unfolding deliver is_sender
  broadcast_loop out_header msg len sender [] = pure tt
  broadcast_loop out_header msg len sender (client ∷ rest) = do
    let visit : M (Server os.World) (Unit {0}) = do
      c ← get_client client
      let send : M (Server os.World) (Unit {0}) = do
        c' ← lift (deliver out_header msg len c)
        put_client client c'
      if c.closed then pure tt else send
    if is_sender sender client then pure tt else visit
    broadcast_loop out_header msg len sender rest

  unfoldable pub broadcast : (sender : Option ℕ) → Bytes → (len : ℕ) → M (Server os.World) Status
  unfolding broadcast_loop
  broadcast sender msg len = do
    lock
    let made = create_header os.byte_order (some blank_header) len msg_type_normal true
    elim made.1 [
      | none ↦ pure failure
      | some out_header ↦ do
        s ← get_state
        broadcast_loop out_header msg len sender s.client_list
        unlock
        pure success
    ]

  -- The header and then the payload, straight to the socket.
  send_direct : (msg_type cfd : ℕ) → Bytes → (len : ℕ) → M os.World Status
  send_direct msg_type cfd msg len =
      elim (create_header os.byte_order (some blank_header) len msg_type true).1 [
        | none ↦ pure failure
        | some out_header ↦ do
          r ← write_header os fuel cfd out_header
          elim r [
            | error ↦ pure failure
            | count _ ↦ do
              p ← write_payload os fuel cfd msg len
              pure (elim p [ error ↦ failure | count _ ↦ success ])
          ]
      ]

  unfoldable pub server_send_message : (cfd : ℕ) → Bytes → (len : ℕ) → M os.World Status
  unfolding send_direct
  server_send_message = send_direct msg_type_admin

  unfoldable pub client_send_direct_message : (cfd : ℕ) → Bytes → (msg_len : ℕ) → M os.World Status
  unfolding send_direct
  client_send_direct_message = send_direct msg_type_normal

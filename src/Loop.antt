-- ===== src/Loop.antt =====
-- accept_new_clients.c and server_loop.c: the event loop.
pub mod Events
pub mod Fresh
pub mod Hall
pub mod Sides
pub mod Input
pub mod Sweep
pub mod Offer
pub mod Accept
pub mod Batch
pub mod Shutdown
pub mod Run
use c_chat_server.Base.{
  ℕ, zero, suc, ◌+◌, Bytes, List, [], ◌∷◌, none, some, Bool, true, false, M, pure, fault, checked,
  ◌>>=◌, ◌>>◌, if◌then◌else◌, length, get_elem?, ◌&&◌,
}
use c_chat_server.Os.{
  Os, ok, again, interrupted, failed, Status, success, failure, epoll_add, epoll_del, Event,
  listening, ready, call,
}
use c_chat_server.Client.{ClientInfo, client_info_init}
use c_chat_server.Queue.{client_try_write}
use c_chat_server.Broadcast.{broadcast}
use c_chat_server.Reader.{handle_client_read}
use c_chat_server.Server.{
  Server, get_state, get_client, put_client, lift, add_client_to_list, remove_client_from_list,
  remove_all_clients,
}

-- "SERVER SHUTDOWN"
abbrev pub shutdown_message : Bytes
shutdown_message =
    b'S' ∷ b'E' ∷ b'R' ∷ b'V' ∷ b'E' ∷ b'R' ∷ 32 ∷ b'S' ∷ b'H' ∷ b'U' ∷ b'T' ∷ b'D' ∷ b'O' ∷ b'W'
    ∷ b'N' ∷ []

abbrev pub max_events : ℕ
max_events = 10

-- The loop that frees the packets and moves `head` to NULL. It leaves `tail` behind, which nothing reads
-- before the client itself is freed.
unfoldable pub free_queue : ClientInfo → ClientInfo
free_queue c = record c { msg_queue = record (c.msg_queue) { packets = [] } }

module _ (os : Os) where
  -- A new client in the block at address `info`, which holds `garbage` before it is initialised.
  pub admit : (info : ℕ) → ClientInfo → (client_fd : ℕ) → M (Server os.World) Status
  admit info garbage client_fd = do
    made ← lift (client_info_init os garbage client_fd)
    put_client info made.1
    elim made.0 [
      | failure ↦ pure failure
      | success ↦ do
        added ← lift (call (os.epoll_ctl epoll_add client_fd))
        elim added [ failure ↦ pure failure | success ↦ add_client_to_list os info ]
    ]

  -- One round of fuel is one call of `accept`.
  pub accept_new_clients : (rounds : ℕ) → (garbage : ClientInfo) → M (Server os.World) Status
  unfolding admit
  accept_new_clients zero garbage = fault
  accept_new_clients (suc rounds) garbage = do
    s ← get_state
    r ← lift (call (os.accept s.server_fd))
    elim r [
      | again ↦ pure success
      | interrupted ↦ pure failure
      | failed ↦ pure failure
      | ok client_fd ↦ do
        flags ← lift (call (os.set_nonblocking client_fd))
        elim flags [
          | failure ↦ pure failure
          | success ↦ do
            block ← lift (call os.new_struct)
            info ← checked block
            admitted ← admit info garbage client_fd
            elim admitted [ failure ↦ pure failure | success ↦ accept_new_clients rounds garbage ]
        ]
    ]

  -- What happens to a closed client.
  reap : (client : ℕ) → ClientInfo → M (Server os.World) (Unit {0})
  reap client c = do
    _ ← lift (call (os.epoll_ctl epoll_del c.client_fd))
    put_client client (free_queue c)
    _ ← remove_client_from_list os client
    pure tt

  sweep_client : (client : ℕ) → M (Server os.World) (Unit {0})
  unfolding reap
  sweep_client client = do c ← get_client client; if c.closed then reap client c else pure tt

  -- `for (i = 0; i < client_count; ++i)`: the closed clients are removed.
  pub sweep : (rounds i : ℕ) → M (Server os.World) (Unit {0})
  unfolding sweep_client
  sweep zero i = fault
  sweep (suc rounds) i = do
    s ← get_state
    elim (get_elem? s.client_list i) [
      | none ↦ pure tt
      | some client ↦ do sweep_client client; sweep rounds (i + 1)
    ]

  module _ (fuel : ℕ) (garbage : ClientInfo) where
    pub close_on : (client : ℕ) → Status → M (Server os.World) Bool
    close_on client success = pure true
    close_on client failure = do
      c ← get_client client
      put_client client (record c { closed = true })
      pure false

    try_write_client : (client : ℕ) → M (Server os.World) Status
    try_write_client client = do
      c ← get_client client
      r ← lift (client_try_write os fuel c)
      put_client client r.1
      pure r.0

    -- `client_try_write`; a failure marks the client closed.
    pub write_side : (client : ℕ) → M (Server os.World) (Unit {0})
    unfolding close_on try_write_client
    write_side client = do r ← try_write_client client; _ ← close_on client r; pure tt

    -- `handle_client_read`; a failure marks the client closed, and then nothing is written.
    pub read_side : (client : ℕ) → M (Server os.World) Bool
    unfolding close_on
    read_side client = do r ← handle_client_read os fuel fuel client; close_on client r

    -- A client's event: errors first, then input, then output; a failure marks the client closed.
    client_event : (client : ℕ) → (hangup input output : Bool) → M (Server os.World) (Unit {0})
    unfolding close_on write_side read_side
    client_event client hangup input output = do
      c ← get_client client
      let work : M (Server os.World) (Unit {0}) = do
        going ← if input then read_side client else pure true
        if going && output then write_side client else pure tt
      if c.closed
          then pure tt
          else if hangup
          then (close_on client failure >>= λ _. pure tt)
          else work

    unfoldable pub handle_event : Event → M (Server os.World) (Unit {0})
    unfolding client_event
    handle_event listening = accept_new_clients fuel garbage >>= λ _. pure tt
    handle_event (ready client hangup input output) = client_event client hangup input output

    pub handle_events : List Event → M (Server os.World) (Unit {0})
    unfolding handle_event
    handle_events [] = pure tt
    handle_events (e ∷ es) = handle_event e >> handle_events es

    -- The queues of all clients are freed.
    pub free_queues : List ℕ → M (Server os.World) (Unit {0})
    free_queues [] = pure tt
    free_queues (client ∷ rest) = do
      c ← get_client client
      put_client client (free_queue c)
      free_queues rest

    -- What follows the loop: the last message, the listening socket, the clients.
    pub shut_down : M (Server os.World) Status
    unfolding free_queues
    shut_down = do
      _ ← broadcast os fuel none shutdown_message (length shutdown_message)
      s ← get_state
      _ ← lift (call (os.epoll_ctl epoll_del s.server_fd))
      _ ← lift (call (os.shutdown s.server_fd))
      _ ← lift (call (os.close s.server_fd))
      free_queues s.client_list
      _ ← remove_all_clients os
      pure success

    -- `while (server_shutdown != 1)`; one round of fuel is one call of `epoll_wait`.
    pub event_loop : (rounds : ℕ) → M (Server os.World) Status
    unfolding sweep handle_events shut_down
    event_loop zero = fault
    event_loop (suc rounds) = do
      s ← get_state
      let round : M (Server os.World) Status = do
        sweep (length s.client_list + 1) 0
        events ← lift (call os.epoll_wait)
        elim events [ none ↦ pure failure | some es ↦ do handle_events es; event_loop rounds ]
      if s.server_shutdown then shut_down else round

    unfoldable pub server_loop : (rounds : ℕ) → M (Server os.World) Status
    unfolding event_loop
    server_loop rounds = do
      s ← get_state
      added ← lift (call (os.epoll_ctl epoll_add s.server_fd))
      elim added [ failure ↦ pure failure | success ↦ event_loop rounds ]

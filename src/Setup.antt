-- ===== src/Setup.antt =====
-- common_setup.c, server_setup.c, client_setup.c, server_state.c and server.c: how both programs
-- start.
pub mod Codes
pub mod Serves
use c_chat_server.Base.{
  ℕ, ◌+◌, ◌*◌, ◌/◌, ◌%◌, Bytes, List, [], ◌∷◌, Option, none, some, Bool, true, false, ℤ, pos,
  negsuc, is_zero, is_minus_one, M, pure, checked, ◌>>=◌, if◌then◌else◌,
}
use c_chat_server.Os.{Os, Endian, little, big, Status, success, failure, call}
use c_chat_server.Client.{ClientInfo}
use c_chat_server.Server.{Server}
use c_chat_server.Loop.{server_loop}

-- `struct sockaddr_in`: the port and the address in network order.
pub record Address : Type 0 where
  pub sin_family : ℕ
  pub sin_port : ℕ
  pub sin_addr : Bytes

-- The calls that only the start of the programs makes. `socket` and `epoll_create` give a
-- descriptor, or `none` for -1; `inet_pton` gives the address of a text, if it is one.
pub record Net (os : Os) : Type 0 where
  pub socket : os.World → Option ℕ × os.World
  pub setsockopt : (fd : ℕ) → os.World → Status × os.World
  pub bind : (fd : ℕ) → Address → os.World → Status × os.World
  pub listen : (fd backlog : ℕ) → os.World → Status × os.World
  pub connect : (fd : ℕ) → Address → os.World → Status × os.World
  pub inet_pton : Bytes → Option Bytes
  pub mutex_init : os.World → Status × os.World
  pub mutex_destroy : os.World → Status × os.World
  pub epoll_create : os.World → Option ℕ × os.World

abbrev pub err_socket : ℤ
err_socket = negsuc 0

abbrev pub err_inet_pton : ℤ
err_inet_pton = negsuc 1

abbrev pub err_bind : ℤ
err_bind = negsuc 2

abbrev pub err_listen : ℤ
err_listen = negsuc 3

abbrev pub err_connect : ℤ
err_connect = negsuc 4

abbrev pub port : ℕ
port = 8000

abbrev pub listen_backlog : ℕ
listen_backlog = 256

-- "0.0.0.0"
abbrev pub listen_addr : Bytes
listen_addr = b'0' ∷ b'.' ∷ b'0' ∷ b'.' ∷ b'0' ∷ b'.' ∷ b'0' ∷ []

-- "127.0.0.1"
abbrev pub addr : Bytes
addr = b'1' ∷ b'2' ∷ b'7' ∷ b'.' ∷ b'0' ∷ b'.' ∷ b'0' ∷ b'.' ∷ b'1' ∷ []

-- `htons`
pub htons : Endian → ℕ → ℕ
htons little x = x / 256 % 256 + 256 * (x % 256)
htons big x = x % 65536

module _ (os : Os) (net : Net os) where
  -- The code and `*sfd_out`, which is `none` for -1.
  unfoldable pub create_inet_socket : M os.World (ℤ × Option ℕ)
  create_inet_socket = do
    sfd ← call net.socket
    pure (elim sfd [ none ↦ (err_socket, none) | some fd ↦ (pos 0, some fd) ])

  -- The code and `*addr_out`, of which an unreadable address leaves the last field zero.
  unfoldable pub setup_address : (src : Bytes) → ℤ × Address
  unfolding htons
  setup_address src =
      let out : Bytes → Address =
        λ a. record { sin_family = 2; sin_port = htons os.byte_order port; sin_addr = a } in
      elim (net.inet_pton src) [
        | none ↦ (err_inet_pton, out (0 ∷ 0 ∷ 0 ∷ 0 ∷ []))
        | some a ↦ (pos 0, out a)
      ]

  unfoldable pub bind_and_listen : (sfd : ℕ) → Address → M os.World ℤ
  bind_and_listen sfd address = do
    reuse ← call (net.setsockopt sfd)
    elim reuse [
      | failure ↦ pure err_socket
      | success ↦ do
        bound ← call (net.bind sfd address)
        elim bound [
          | failure ↦ pure err_bind
          | success ↦ do
            listening ← call (net.listen sfd listen_backlog)
            pure (elim listening [ failure ↦ err_listen | success ↦ pos 0 ])
        ]
    ]

  -- The socket is nonblocking before it is bound.
  prepare : (sfd : ℕ) → M os.World ℤ
  unfolding setup_address bind_and_listen
  prepare sfd = do
    flags ← call (os.set_nonblocking sfd)
    elim flags [
      | failure ↦ pure (negsuc 0)
      | success ↦ do
        let address = setup_address listen_addr
        if is_zero address.0 then bind_and_listen sfd address.1 else pure address.0
    ]

  -- The code and the descriptor that `*sfd` holds in the end.
  unfoldable pub init_server : M os.World (ℤ × Option ℕ)
  unfolding create_inet_socket prepare
  init_server = do
    r ← create_inet_socket
    elim r.1 [ none ↦ pure r | some fd ↦ do status ← prepare fd; pure (status, some fd) ]

  unfoldable pub init_client : M os.World (ℤ × Option ℕ)
  unfolding create_inet_socket setup_address
  init_client = do
    r ← create_inet_socket
    elim r.1 [
      | none ↦ pure r
      | some fd ↦ do
        let address = setup_address addr
        let reach : M os.World (ℤ × Option ℕ) = do
          connected ← call (net.connect fd address.1)
          pure (elim connected [ failure ↦ err_connect | success ↦ pos 0 ], some fd)
        if is_zero address.0 then reach else pure (address.0, some fd)
    ]

  -- The state is on the stack of `main`, so its pointer is not NULL.
  unfoldable pub server_state_init : M os.World Status
  server_state_init = do
    mutex ← call net.mutex_init
    elim mutex [
      | failure ↦ pure failure
      | success ↦ do
        epoll_fd ← call net.epoll_create
        pure (elim epoll_fd [ none ↦ failure | some _ ↦ success ])
    ]

  unfoldable pub server_state_destroy : M os.World Status
  server_state_destroy = call net.mutex_destroy

-- What a program ends with: it returns 0, or `handle_error` exits with `EXIT_FAILURE`.
pub data Exit : Type 0 where
  returned handle_error : Exit

-- The zeroed state with its listening socket.
abbrev pub first_state : {W : Type 0} → W → (server_fd : ℕ) → Server W
first_state w server_fd = record {
  world = w;
  clients = λ p. none;
  client_list = [];
  locked = false;
  server_fd = server_fd;
  server_shutdown = false;
}

module _ (os : Os) (net : Net os) (fuel rounds : ℕ) (garbage : ClientInfo) where
  -- The event loop on a fresh state; of the state only the world goes on.
  unfoldable pub run_server : (server_fd : ℕ) → M os.World Status
  run_server server_fd w = elim (server_loop os fuel garbage rounds (first_state w server_fd)) [
    | none ↦ none
    | some (r, s) ↦ some (r, s.world)
  ]

  -- The event loop on the socket, and the end of `main`.
  unfoldable pub serve_on : (server_fd : ℕ) → M os.World Exit
  serve_on server_fd = do
    _ ← run_server server_fd
    gone ← server_state_destroy os net
    pure (elim gone [ failure ↦ handle_error | success ↦ returned ])

  -- `main` of the server. Only the code -1 of `init_server` ends it.
  unfoldable pub server_main : M os.World Exit
  unfolding server_state_init init_server serve_on
  server_main = do
    made ← server_state_init os net
    elim made [
      | failure ↦ pure handle_error
      | success ↦ do
        r ← init_server os net
        let serve : M os.World Exit = do fd ← checked (r.1); serve_on fd
        if is_minus_one r.0 then pure handle_error else serve
    ]

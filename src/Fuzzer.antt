-- ===== src/Fuzzer.antt =====
-- What tests/fuzzer_valid.c and tests/fuzzer_raw.c share: the arguments of a client, the calls that
-- only the fuzzers make, and the filling of an array with random bytes.
pub mod Valid
pub mod Raw
pub mod Arrays
pub mod Frames
pub mod Noise
use c_chat_server.Base.{
  ℕ, zero, suc, ◌+◌, ◌%◌, Bytes, List, [], ◌∷◌, Option, none, some, M, pure, checked, ◌>>=◌, ◌>>◌,
  ltb, if◌then◌else◌, memcpy,
}
use c_chat_server.Os.{Os, Status, success, failure, call}
use c_chat_server.Setup.{Net, Address, htons}

abbrev pub max_payload : ℕ
max_payload = 4096

pub record FuzzArgs : Type 0 where
  pub ip : Bytes
  pub port : ℕ
  pub messages : ℕ
  pub delay_us : ℕ

-- `pthread_create` of a client with the arguments gives the handle, or `none` when it fails and
-- leaves `threads[i]` uninitialised.
pub record Dice (os : Os) : Type 0 where
  pub time : os.World → ℕ × os.World
  pub srand : (seed : ℕ) → os.World → Unit {0} × os.World
  pub rand : os.World → ℕ × os.World
  pub usleep : (us : ℕ) → os.World → Status × os.World
  pub pthread_create : FuzzArgs → os.World → Option ℕ × os.World
  pub pthread_join : (thread : ℕ) → os.World → Status × os.World

module _ (os : Os) (net : Net os) (dice : Dice os) where
  -- The address to connect to. Nobody looks at what `inet_pton` returns: a text that is no address
  -- leaves the zeros.
  pub server_address : FuzzArgs → Address
  server_address fa = record {
    sin_family = 2;
    sin_port = htons os.byte_order fa.port;
    sin_addr = elim (net.inet_pton fa.ip) [ none ↦ 0 ∷ 0 ∷ 0 ∷ 0 ∷ [] | some a ↦ a ];
  }

  -- `for (j = 0; j < len; j++) buf[j] = rand() % 256;`, with `left` rounds to go.
  pub fill : (left j : ℕ) → Bytes → M os.World Bytes
  fill zero j buf = pure buf
  fill (suc left) j buf = do
    r ← call dice.rand
    buf' ← checked (memcpy buf j ((r % 256) ∷ []))
    fill left (j + 1) buf'

  -- `if (fa->delay_us > 0) usleep(fa->delay_us);`
  unfoldable pub pause : FuzzArgs → M os.World (Unit {0})
  pause fa =
      let sleep : M os.World (Unit {0}) = do _ ← call (dice.usleep fa.delay_us); pure tt
      in if ltb 0 fa.delay_us then sleep else pure tt

  -- A client: without a socket or a connection it ends, else `messages` are sent and the socket
  -- is closed.
  unfoldable pub run_client : FuzzArgs → ((fd : ℕ) → M os.World (Unit {0})) → M os.World (Unit {0})
  unfolding server_address
  run_client fa send_messages = do
    sfd ← call net.socket
    elim sfd [
      | none ↦ pure tt
      | some fd ↦ do
        connected ← call (net.connect fd (server_address fa))
        let talk : M os.World (Unit {0}) = do send_messages fd; _ ← call (os.close fd); pure tt
        let give_up : M os.World (Unit {0}) = do _ ← call (os.close fd); pure tt
        elim connected [ failure ↦ give_up | success ↦ talk ]
    ]

  -- The handles that the loop of `pthread_create` leaves in `threads`, in order.
  pub create_threads : FuzzArgs → (clients : ℕ) → M os.World (List (Option ℕ))
  create_threads fa zero = pure []
  create_threads fa (suc clients) = do
    thread ← call (dice.pthread_create fa)
    threads ← create_threads fa clients
    pure (thread ∷ threads)

  -- A handle that was never written is read all the same.
  pub join_threads : List (Option ℕ) → M os.World (Unit {0})
  join_threads [] = pure tt
  join_threads (thread ∷ threads) = do
    handle ← checked thread
    _ ← call (dice.pthread_join handle)
    join_threads threads

  -- `main` but for its constants.
  unfoldable pub run_clients : FuzzArgs → (clients : ℕ) → M os.World ℕ
  unfolding create_threads join_threads
  run_clients fa clients = do
    seed ← call dice.time
    _ ← call (dice.srand seed)
    threads ← create_threads fa clients
    join_threads threads
    pure 0

-- ===== src/Server.antt =====
-- server_state.h and client_list.c: the server's state, the store of clients, the client list and the
-- mutex. A use of a client that is not allocated, and a lock of the locked mutex, are faults.
pub mod ListLaws
pub mod RemoveAll
pub mod Distinct
use c_chat_server.Base.{
  ◌≡◌, ℕ, zero, suc, ◌+◌, List, [], ◌∷◌, ◌++◌, Option, none, some, Bool, true, false, M, pure,
  fault, checked, ◌>>=◌, ◌>>◌, ltb, ◌==◌, if◌then◌else◌, length, reverse,
}
use c_chat_server.Os.{Os, Status, success, failure, epoll_del, call}
use c_chat_server.Client.{ClientInfo}

abbrev pub max_clients : ℕ
max_clients = 1000

-- `client_list` holds the first `client_count` entries of the array. `clients` is the memory: the
-- struct at each address, `none` where nothing is allocated. `server_shutdown` is the global flag.
pub record Server (W : Type 0) : Type 0 where
  pub world : W
  pub clients : ℕ → Option ClientInfo
  pub client_list : List ℕ
  pub locked : Bool
  pub server_fd : ℕ
  pub server_shutdown : Bool

abbrev pub client_count : {W : Type 0} → Server W → ℕ
client_count s = length s.client_list

-- The memory with another content at one address.
abbrev pub update : (ℕ → Option ClientInfo) → ℕ → Option ClientInfo → ℕ → Option ClientInfo
update m p c q = if p == q then c else m q

module _ {W : Type 0} where
  -- A call that does not touch the server's memory.
  abbrev pub lift : {A : Type 0} → M W A → M (Server W) A
  lift m s = elim (m s.world) [ none ↦ none | some (a, w) ↦ some (a, record s { world = w }) ]

  abbrev pub get_state : M (Server W) (Server W)
  get_state s = some (s, s)

  unfoldable pub get_client : ℕ → M (Server W) ClientInfo
  get_client p s = elim (s.clients p) [ none ↦ none | some c ↦ some (c, s) ]

  pub get_client-some :
      (p : ℕ) (s : Server W) {c : ClientInfo} → s.clients p ≡ some c → get_client p s ≡ some (c, s)
  unfolding get_client
  get_client-some p s h = rw (h, get_client)

  abbrev pub put_client : ℕ → ClientInfo → M (Server W) (Unit {0})
  put_client p c s = some (tt, record s { clients = update s.clients p (some c) })

  abbrev pub free_client : ℕ → M (Server W) (Unit {0})
  free_client p s = some (tt, record s { clients = update s.clients p none })

  unfoldable pub lock : M (Server W) (Unit {0})
  lock s = if s.locked then none else some (tt, record s { locked = true })

  pub lock-free : (s : Server W) → s.locked ≡ false → lock s ≡ some (tt, record s { locked = true })
  unfolding lock
  lock-free s h = rw (h, if◌then◌else◌)

  abbrev pub unlock : M (Server W) (Unit {0})
  unlock s = some (tt, record s { locked = false })

  abbrev pub put_list : List ℕ → M (Server W) (Unit {0})
  put_list l s = some (tt, record s { client_list = l })

-- `client_list[i] = client_list[--client_count]` for the first `i` that holds `p`; `none` if no
-- entry does. The last entry is moved into the place of the one that leaves.
unfoldable pub last_of : ℕ → List ℕ → ℕ
last_of x [] = x
last_of x (y ∷ ys) = last_of y ys

unfoldable pub drop_last : ℕ → List ℕ → List ℕ
drop_last x [] = []
drop_last x (y ∷ ys) = x ∷ drop_last y ys

-- The list behind the place, when its head is replaced by its last entry.
replace_by_last : List ℕ → List ℕ
replace_by_last [] = []
replace_by_last (y ∷ ys) = last_of y ys ∷ drop_last y ys

pub swap_remove : ℕ → List ℕ → Option (List ℕ)
unfolding replace_by_last
swap_remove p [] = none
swap_remove p (q ∷ qs) = elim (q == p) [
  | true ↦ some (replace_by_last qs)
  | false ↦ elim (swap_remove p qs) [ none ↦ none | some rest ↦ some (q ∷ rest) ]
]

module _ (os : Os) where
  unfoldable pub cleanup_client : (client : ℕ) → M (Server os.World) Status
  cleanup_client client = do
    c ← get_client client
    r ← lift (call (os.close c.client_fd))
    elim r [ success ↦ (free_client client >> pure success) | failure ↦ pure failure ]

  unfoldable pub add_client_to_list : (client : ℕ) → M (Server os.World) Status
  add_client_to_list client = do
    lock
    s ← get_state
    let enlist : M (Server os.World) Status = do
      put_list (s.client_list ++ client ∷ [])
      unlock
      pure success
    let reject : M (Server os.World) Status = do
      unlock
      c ← get_client client
      _ ← lift (call (os.close c.client_fd))
      free_client client
      pure failure
    if ltb (client_count s) max_clients then enlist else reject

  -- Where the client is not in the list the mutex stays locked.
  unfoldable pub remove_client_from_list : (client : ℕ) → M (Server os.World) Status
  unfolding swap_remove cleanup_client
  remove_client_from_list client = do
    lock
    s ← get_state
    elim (swap_remove client s.client_list) [
      | none ↦ pure failure
      | some rest ↦ do put_list rest; unlock; cleanup_client client
    ]

  -- From the last entry to the first; a `close` that fails ends the walk with the mutex locked.
  pub remove_each : List ℕ → M (Server os.World) Status
  unfolding cleanup_client
  remove_each [] = unlock >> pure success
  remove_each (p ∷ ps) = do
    c ← get_client p
    _ ← lift (call (os.epoll_ctl epoll_del c.client_fd))
    r ← cleanup_client p
    elim r [ success ↦ remove_each ps | failure ↦ pure failure ]

  unfoldable pub remove_all_clients : M (Server os.World) Status
  unfolding remove_each
  remove_all_clients = do lock; s ← get_state; remove_each (reverse s.client_list)

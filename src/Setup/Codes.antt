-- ===== src/Setup/Codes.antt =====
-- The codes of `init_server`, and what `main` makes of them.
use c_chat_server.Base.{
  ℕ, ◌≡◌, refl, ap, Bytes, some, ℤ, pos, is_minus_one, false, ◌>>=◌, if◌then◌else◌, ◌⊎◌, inl, inr,
}
use c_chat_server.Os.{Os, Status, success, failure}
use c_chat_server.Client.{ClientInfo}
use c_chat_server.Setup.{
  Net, Address, err_bind, err_listen, listen_addr, listen_backlog, port, htons, init_server,
  serve_on, server_main, prepare, setup_address, server_state_init,
}

-- A call answers so, and leaves the world so.
abbrev Answers : {W A : Type 0} → (W → A × W) → W → A → W → Type 0
Answers f w a w' = f w ≡ (a, w')

module _ (os : Os) (net : Net os) where
  -- The address that the server binds.
  abbrev pub any_address : Bytes → Address
  any_address a = record { sin_family = 2; sin_port = htons os.byte_order port; sin_addr = a }

  -- The calls of `init_server` up to `setsockopt`, all of which succeed.
  pub record Reaches (w : os.World) (fd : ℕ) (a : Bytes) (w3 : os.World) : Type 0 where
    pub w1 : os.World
    pub w2 : os.World
    pub socket : net.socket w ≡ (some fd, w1)
    pub nonblocking : os.set_nonblocking fd w1 ≡ (success, w2)
    pub address : net.inet_pton listen_addr ≡ some a
    pub reuse : net.setsockopt fd w2 ≡ (success, w3)

  -- What comes of `bind` and `listen` behind them.
  pub data Binds (fd : ℕ) (a : Bytes) (w : os.World) : ℤ → os.World → Type 0 where
    unbound :
        {r : ℤ} {w' : os.World}
        → r ≡ err_bind
        → net.bind fd (any_address a) w ≡ (failure, w')
        → Binds fd a w r w'
    mute :
        {r : ℤ} {w' : os.World} (w1 : os.World)
        → r ≡ err_listen
        → net.bind fd (any_address a) w ≡ (success, w1)
        → net.listen fd listen_backlog w1 ≡ (failure, w')
        → Binds fd a w r w'
    listens :
        {r : ℤ} {w' : os.World} (w1 : os.World)
        → r ≡ pos 0
        → net.bind fd (any_address a) w ≡ (success, w1)
        → net.listen fd listen_backlog w1 ≡ (success, w')
        → Binds fd a w r w'

  addressed :
      (a : Bytes)
      → net.inet_pton listen_addr ≡ some a
      → setup_address os net listen_addr ≡ (pos 0, any_address a)
  unfolding setup_address
  addressed a h = rw (h, setup_address)

  init_server-Binds :
      (w : os.World) (fd : ℕ) (a : Bytes) (w3 : os.World)
      → Reaches w fd a w3
      → (r : ℤ) × (w' : os.World) × (init_server os net w ≡ some ((r, some fd), w'))
        × Binds fd a w3 r w'
  unfolding init_server
  init_server-Binds w fd a w3 h = elim (status-of (net.bind fd (any_address a) w3)) [
    | inr (w4, bound) ↦ (
      err_bind,
      w4,
      rw (
        h.socket,
        ◌>>=◌,
        h.nonblocking,
        prepare,
        addressed a h.address,
        h.reuse,
        addressed a h.address,
        bound,
      ),
      unbound refl bound,
    )
    | inl (w4, bound) ↦ elim (status-of (net.listen fd listen_backlog w4)) [
      | inr (w5, heard) ↦ (
        err_listen,
        w5,
        rw (
          h.socket,
          ◌>>=◌,
          h.nonblocking,
          prepare,
          addressed a h.address,
          h.reuse,
          addressed a h.address,
          bound,
          heard,
        ),
        mute w4 refl bound heard,
      )
      | inl (w5, heard) ↦ (
        pos 0,
        w5,
        rw (
          h.socket,
          ◌>>=◌,
          h.nonblocking,
          prepare,
          addressed a h.address,
          h.reuse,
          addressed a h.address,
          bound,
          heard,
        ),
        listens w4 refl bound heard,
      )
    ]
  ]
    where
      status-of :
          {W : Type 0}
          → (p : Status × W) → ((w : W) × (p ≡ (success, w))) ⊎ ((w : W) × (p ≡ (failure, w)))
      status-of (success, w) = inl (w, refl)
      status-of (failure, w) = inr (w, refl)

  -- When every call up to `setsockopt` succeeds, `init_server` returns with the socket, and 0
  -- exactly when it is bound to port 8000 of all addresses and then listens, `ERR_BIND` when
  -- `bind` fails, and `ERR_LISTEN` when `listen` does. In each of these cases `main` runs the
  -- event loop on the socket and then destroys the state: a server whose socket is not bound or
  -- does not listen is not reported, since `main` looks only for -1.
  pub server_main-Binds :
      (fuel rounds : ℕ) (garbage : ClientInfo) (v w0 w : os.World) (epoll_fd fd : ℕ) (a : Bytes)
      (w3 : os.World)
      → net.mutex_init v ≡ (success, w0)
      → net.epoll_create w0 ≡ (some epoll_fd, w)
      → Reaches w fd a w3
      → (r : ℤ) × (w' : os.World) × (init_server os net w ≡ some ((r, some fd), w'))
        × Binds fd a w3 r w'
        × (server_main os net fuel rounds garbage v ≡ serve_on os net fuel rounds garbage fd w')
  unfolding server_main
  server_main-Binds fuel rounds garbage v w0 w epoll_fd fd a w3 mutex epoll h =
      let (r, w', run, binds) = init_server-Binds w fd a w3 h in
      (r, w', run, binds, goes r w' run (code r w' binds))
    where
      code : (r : ℤ) (w' : os.World) → Binds fd a w3 r w' → is_minus_one r ≡ false
      code r w' (unbound e h) = ap is_minus_one e
      code r w' (mute w1 e h k) = ap is_minus_one e
      code r w' (listens w1 e h k) = ap is_minus_one e

      goes :
          (r : ℤ) (w' : os.World)
          → init_server os net w ≡ some ((r, some fd), w')
          → is_minus_one r ≡ false
          → server_main os net fuel rounds garbage v ≡ serve_on os net fuel rounds garbage fd w'
      goes r w' run fine = rw (mutex, ◌>>=◌, server_state_init, epoll, run, fine, if◌then◌else◌)

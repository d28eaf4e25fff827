-- ===== src/Handlers/Listing.antt =====
-- What `handle_list` sends: each name, and then a newline or the mark of the user's own entry.
use c_chat_server.Base.{
  ℕ, ◌+◌, ◌≤◌, ◌<◌, ◌≡◌, refl, arith, Bytes, List, [], ◌∷◌, Option, some, Bool, true, false, length,
  All, ◌>>=◌, ◌==◌,
}
use c_chat_server.Os.{Os, Count}
use c_chat_server.Protocol.{msg_type_admin}
use c_chat_server.Client.{ClientInfo}
use c_chat_server.Transfer.Sending.{Sent}
use c_chat_server.Command.{cmd_ok}
use c_chat_server.Server.{Server, get_client-some}
use c_chat_server.Broadcast.{server_send_message}
use c_chat_server.Broadcast.Direct.{IsDirect, direct_header, sent_status, server_send_message-Sent}
use c_chat_server.Handlers.{handle_list, list_loop, indicator}

-- What stands behind a name.
abbrev pub mark : Bool → Bytes
mark true = indicator
mark false = 10 ∷ []

-- A client whose name is inside its field of at most 64 bytes.
abbrev pub Named : {W : Type 0} → Server W → ℕ → Type 0
Named s p =
    (c : ClientInfo) × (s.clients p ≡ some c) × (c.name_len ≤ length c.name) × (length c.name ≤ 64)

module _ (os : Os) (bound : ℕ) (direct : IsDirect os bound) (fuel : ℕ)
    (enough : 80 + bound < fuel) where
  module _ (user fd : ℕ) (clients : ℕ → Option ClientInfo) where
    -- Two messages of type 1 for each entry of the list, in its order, to the descriptor of the user.
    pub data Listing : List ℕ → os.World → os.World → Type 0 where
      listed : {w : os.World} → Listing [] w w
      entry :
          {p : ℕ} {rest : List ℕ} {w w' : os.World} (c : ClientInfo) (r1 r2 : Count)
          (w1 w2 : os.World)
          → clients p ≡ some c
          → Sent os
              (direct.out fd)
              (direct_header os.byte_order msg_type_admin c.name_len)
              c.name
              c.name_len
              w
              w1
              r1
          → Sent os
              (direct.out fd)
              (direct_header os.byte_order msg_type_admin (length (mark (p == user))))
              (mark (p == user))
              (length (mark (p == user)))
              w1
              w2
              r2
          → Listing rest w2 w'
          → Listing (p ∷ rest) w w'

  list_loop-Listing :
      (user : ℕ) (u : ClientInfo) (l : List ℕ) (s : Server os.World)
      → s.clients user ≡ some u
      → All (Named s) l
      → (w' : os.World) × (list_loop os fuel user l s ≡ some (tt, record s { world = w' }))
        × Listing user u.client_fd s.clients l s.world w'
  unfolding list_loop
  list_loop-Listing user u [] s here h = (s.world, refl, listed)
  list_loop-Listing user u (p ∷ rest) s here ((c, there, named, short), h) =
      let (r1, w1, run, name_sent) =
        server_send_message-Sent os (direct.out u.client_fd) fuel bound (direct.calm u.client_fd)
          c.name c.name_len s.world named (omega (arith, named, short)) in
      let (r2, w2, run', mark_sent) =
        server_send_message-Sent os (direct.out u.client_fd) fuel bound (direct.calm u.client_fd)
          (mark (p == user)) (length (mark (p == user))) w1 (omega arith)
          (omega (arith, mark-size (p == user))) in
      let (w', rest_run, rest_sent) =
        list_loop-Listing user u rest (record s { world = w2 }) here h in
      (
        w',
        marked (p == user) refl r1 w1 run r2 w2 run' rest_run,
        entry c r1 r2 w1 w2 there name_sent mark_sent rest_sent,
      )
    where
      mark-size : (b : Bool) → length (mark b) ≤ 9
      mark-size true = omega arith
      mark-size false = omega arith

      marked :
          (b : Bool)
          → (p == user) ≡ b
          → (r1 : Count) (w1 : os.World)
          → server_send_message os fuel u.client_fd c.name c.name_len s.world
            ≡ some (sent_status r1, w1)
          → (r2 : Count) (w2 : os.World)
          → server_send_message os fuel u.client_fd (mark b) (length (mark b)) w1
            ≡ some (sent_status r2, w2)
          → {w' : os.World}
          → list_loop os fuel user rest (record s { world = w2 })
            ≡ some (tt, record s { world = w' })
          → list_loop os fuel user (p ∷ rest) s ≡ some (tt, record s { world = w' })
      marked true e r1 w1 run r2 w2 run' more =
          rw (get_client-some p s there, ◌>>=◌, get_client-some user s here, run, e, run') more
      marked false e r1 w1 run r2 w2 run' more =
          rw (get_client-some p s there, ◌>>=◌, get_client-some user s here, run, e, run') more

  -- With sockets for direct messages whose calls are interrupted finitely often, more fuel than
  -- 80 rounds and the interruptions, an allocated user, and when every client of the list is
  -- allocated and has its name inside a field of at most 64 bytes: `handle_list` returns CMD_OK
  -- with no access out of bounds, whatever the calls of `write` answer, and changes nothing but
  -- the world. For each entry of the list in turn, the user is sent a frame of type 1 with its
  -- name, and then one with a newline, or with " <-- YOU" and a newline when the entry is the
  -- user; each of them whole, or only the part of it that the calls of `write` took before one of
  -- them failed or took no byte.
  pub handle_list-Listing :
      (user : ℕ) (u : ClientInfo) (s : Server os.World)
      → s.clients user ≡ some u
      → All (Named s) s.client_list
      → (w' : os.World) × (handle_list os fuel user s ≡ some (cmd_ok, record s { world = w' }))
        × Listing user u.client_fd s.clients s.client_list s.world w'
  unfolding handle_list
  handle_list-Listing user u s here h =
      let (w', run, sent) = list_loop-Listing user u s.client_list s here h in
      (w', rw (◌>>=◌, run), sent)

-- ===== src/Loop/Offer.antt =====
-- The steps of a round of `accept_new_clients`.
use mathlib.Core.Path.{subst}
use c_chat_server.Base.{
  ℕ, suc, ◌<◌, ◌≡◌, refl, arith, ap, sym, ◌∙◌, Bytes, [], ◌∷◌, ◌++◌, some, none, false, Bool-cases,
  inl, inr, ◌⊎◌, ◌==◌, length, length-append, ◌>>=◌,
}
use c_chat_server.Os.{Os, Io, ok, again, interrupted, failed, Status, success, failure, epoll_add}
use c_chat_server.Protocol.{header_size}
use c_chat_server.Client.{ClientInfo, client_info_init, buf_size, name_max}
use c_chat_server.Text.{c_string}
use c_chat_server.Server.{Server, max_clients, add_client_to_list}
use c_chat_server.Server.RemoveAll.{IsNot}
use c_chat_server.Server.Distinct.{snoc-All, snoc-Distinct}
use c_chat_server.Broadcast.Kept.{Holds}
use c_chat_server.Broadcast.Rounds.{after, map-All}
use c_chat_server.Loop.{admit, accept_new_clients}
use c_chat_server.Loop.Hall.{IsActive, IsHall, Stays, stay-Keeps}

-- The arrays of an uninitialised struct have their sizes, and a NUL happens to stand in the name.
pub record IsBlock (garbage : ClientInfo) : Type 0 where
  pub headers : length garbage.header_buffer ≡ header_size
  pub payloads : length garbage.payload_buffer ≡ buf_size
  pub names : length garbage.name ≡ name_max
  pub ended : (n : Bytes) × (c_string garbage.name ≡ some n)

module _ (os : Os) (garbage : ClientInfo) where
  -- The round of `accept_new_clients` from `s` gets a socket and the block at `info` for it.
  pub record Gets (s : Server os.World) (info : ℕ) : Type 0 where
    pub socket : ℕ
    pub w1 : os.World
    pub w2 : os.World
    pub w3 : os.World
    pub accepts : os.accept s.server_fd s.world ≡ (ok socket, w1)
    pub nonblocking : os.set_nonblocking socket w1 ≡ (success, w2)
    pub allocates : os.new_struct w2 ≡ (some info, w3)

  module _ (s : Server os.World) (rounds : ℕ) where
    pub refused :
        {answer : Io ℕ} {r : Status} {w1 : os.World}
        → os.accept s.server_fd s.world ≡ (answer, w1)
        → ((answer ≡ again) × (r ≡ success))
          ⊎ (((answer ≡ interrupted) ⊎ (answer ≡ failed)) × (r ≡ failure))
        → accept_new_clients os (suc rounds) garbage s ≡ some (r, record s { world = w1 })
    unfolding accept_new_clients
    refused e (inl (is, same)) = rw (◌>>=◌, e, is, same)
    refused e (inr (inl is, same)) = rw (◌>>=◌, e, is, same)
    refused e (inr (inr is, same)) = rw (◌>>=◌, e, is, same)

    pub blocking :
        {fd : ℕ} {w1 w2 : os.World}
        → os.accept s.server_fd s.world ≡ (ok fd, w1)
        → os.set_nonblocking fd w1 ≡ (failure, w2)
        → accept_new_clients os (suc rounds) garbage s ≡ some (failure, record s { world = w2 })
    unfolding accept_new_clients
    blocking e f = rw (◌>>=◌, e, f)

    pub admits-failure :
        {info : ℕ} {s' : Server os.World} (g : Gets s info)
        → admit os info garbage g.socket (record s { world = g.w3 }) ≡ some (failure, s')
        → accept_new_clients os (suc rounds) garbage s ≡ some (failure, s')
    unfolding accept_new_clients
    admits-failure g run = rw (◌>>=◌, g.accepts, g.nonblocking, g.allocates, run)

    pub admits-success :
        {info : ℕ} {s' : Server os.World} (g : Gets s info)
        → admit os info garbage g.socket (record s { world = g.w3 }) ≡ some (success, s')
        → accept_new_clients os (suc rounds) garbage s ≡ accept_new_clients os rounds garbage s'
    unfolding accept_new_clients
    admits-success g run = rw (◌>>=◌, g.accepts, g.nonblocking, g.allocates, run)

  module _ (s : Server os.World) (info fd : ℕ) {c : ClientInfo} {w1 w2 : os.World}
      (made : client_info_init os garbage fd s.world ≡ some ((success, c), w1)) where
    pub not_watched :
        os.epoll_ctl epoll_add fd w1 ≡ (failure, w2)
        → admit os info garbage fd s ≡ some (failure, after s info c w2)
    unfolding admit
    not_watched e = rw (made, ◌>>=◌, e)

    pub watched :
        {r : Status} {s' : Server os.World}
        → os.epoll_ctl epoll_add fd w1 ≡ (success, w2)
        → add_client_to_list os info (after s info c w2) ≡ some (r, s')
        → admit os info garbage fd s ≡ some (r, s')
    unfolding admit
    watched e run = rw (made, ◌>>=◌, e, run)

module _ (os : Os) (limit : ℕ) where
  -- A step that changes no client but a new one, and not the list.
  pub aside :
      (s s' : Server os.World) (info : ℕ)
      → IsHall os limit s
      → s.clients info ≡ none
      → ((q : ℕ) → (info == q) ≡ false → s'.clients q ≡ s.clients q)
      → s'.locked ≡ false
      → s'.client_list ≡ s.client_list
      → Stays os limit limit s s'
  aside s s' info hall absent same free list =
      let k = stay-Keeps hall free list moves in record { hall = k.hall; stay = moves }
    where
      moves : (q : ℕ) → Holds (IsActive os limit) s q → Holds (IsActive os limit) s' q
      moves q (c, there, a) = elim (Bool-cases (info == q)) [
        | inr miss ↦ (c, same q miss ∙ there, a)
        | inl hit ↦
            let at : info ≡ q = ground arith in absurd (cc (sym absent ∙ ap s.clients at ∙ there))
      ]

  -- A step of the world alone.
  pub world-Stays :
      (s : Server os.World) (w : os.World)
      → IsHall os limit s
      → Stays os limit limit s (record s { world = w })
  world-Stays s w hall = record {
    hall = record {
      free = hall.free;
      few = hall.few;
      distinct = hall.distinct;
      active = hall.active;
    };
    stay = λ q h. h;
  }

  -- The new client goes behind the others.
  pub enlisted :
      (s s1 : Server os.World) (info : ℕ) (c : ClientInfo)
      → Stays os limit limit s s1
      → IsHall os limit s
      → s.clients info ≡ none
      → s1.client_list ≡ s.client_list
      → s1.clients info ≡ some c
      → IsActive os limit c
      → length s.client_list < max_clients
      → Stays os limit limit s
          (record s1 { client_list = s1.client_list ++ info ∷ []; locked = false })
  enlisted s s1 info c g hall absent list there a room = record {
    hall = record {
      free = refl;
      few = omega (arith, length-append s1.client_list (info ∷ []), ap length list, room);
      distinct =
          snoc-Distinct s1.client_list info
            (subst (IsNot info) (sym list) (map-All unlike s.client_list hall.active))
            g.hall.distinct;
      active =
          snoc-All (Holds (IsActive os limit) s1) s1.client_list info g.hall.active (c, there, a);
    };
    stay = λ q h. g.stay q h;
  }
    where
      unlike : (q : ℕ) → Holds (IsActive os limit) s q → (q == info) ≡ false
      unlike q (d, at, v) = elim (Bool-cases (q == info)) [
        | inr miss ↦ miss
        | inl hit ↦
            let is : q ≡ info = ground arith in
            absurd (cc (sym absent ∙ ap s.clients (sym is) ∙ at))
      ]

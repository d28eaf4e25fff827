-- ===== src/Loop/Accept.antt =====
-- The new clients of an event of the listening socket.

use c_chat_server.Base.{
  ℕ, zero, suc, ◌+◌, ◌≤◌, ◌≡◌, refl, arith, ap, ◌∙◌, Bytes, [], ◌∷◌, ◌++◌, Option, some, none,
  false, inl, inr, ==_refl, length, length-append,
}
use c_chat_server.Os.{Os, Status, success, failure, epoll_add}
use c_chat_server.Os.Laws.{
  IsAllocator, IsPlentiful, answered, is_ok, is_again, is_interrupted, is_failed, Status-cases,
  allocated,
}
use c_chat_server.Client.{ClientInfo}
use c_chat_server.Queue.Content.{unsent}
use c_chat_server.Text.{c_string}
use c_chat_server.Server.{Server, max_clients, update}
use c_chat_server.Server.ListLaws.{add_client_to_list-limit}
use c_chat_server.Broadcast.Rounds.{after, update-other}
use c_chat_server.Handlers.Room.{IsMember}
use c_chat_server.Loop.{accept_new_clients, admit}
use c_chat_server.Loop.Fresh.{IsClient, client_info_init-IsClient}
use c_chat_server.Loop.Hall.{IsActive, IsHall, Stays, Stays-same, Stays-trans}
use c_chat_server.Loop.Offer.{
  IsBlock, Gets, refused, blocking, admits-failure, admits-success, not_watched, watched, aside,
  world-Stays, enlisted,
}

module _ (os : Os) (garbage : ClientInfo) (stack : IsBlock garbage) (laws : IsAllocator os)
    (rich : IsPlentiful os) (limit : ℕ) where
  -- So many new clients, one after the other: each gets a block that is not in use, is admitted,
  -- and stands behind the others.
  pub data Admits : ℕ → Server os.World → Server os.World → Type 0 where
    none_yet : {s : Server os.World} → Admits 0 s s
    one_more :
        {k : ℕ} {s s1 s' : Server os.World} (info : ℕ) (g : Gets os garbage s info)
        → s.clients info ≡ none
        → admit os info garbage g.socket (record s { world = g.w3 }) ≡ some (success, s1)
        → Stays os limit limit s s1
        → s1.client_list ≡ s.client_list ++ info ∷ []
        → Admits k s1 s'
        → Admits (suc k) s s'

  -- What a round of `accept_new_clients` comes to.
  data Round (s : Server os.World) : Type 0 where
    ends :
        (r : Status) (s' : Server os.World)
        → ((m : ℕ) → accept_new_clients os (suc m) garbage s ≡ some (r, s'))
        → Stays os limit limit s s'
        → Round s
    goes_on :
        (s' : Server os.World)
        → ((m : ℕ) → accept_new_clients os (suc m) garbage s ≡ accept_new_clients os m garbage s')
        → (info : ℕ) (g : Gets os garbage s info) → s.clients info ≡ none
        → admit os info garbage g.socket (record s { world = g.w3 }) ≡ some (success, s')
        → Stays os limit limit s s'
        → s'.client_list ≡ s.client_list ++ info ∷ []
        → Round s
    in_use :
        (info : ℕ) (c : ClientInfo) → Gets os garbage s info → s.clients info ≡ some c → Round s

  fresh-IsActive :
      (c : ClientInfo) (block : Bytes)
      → IsClient os.byte_order c block
      → unsent c.msg_queue.packets ≡ []
      → c.partial_len ≡ 0
      → c.name ≡ garbage.name
      → IsActive os limit c
  fresh-IsActive c block v nothing short name =
      let member : IsMember c = record {
        queue = v.queue;
        limit = omega (arith, v.queue.bytes, ap length nothing);
        named = omega (arith, v.named, v.name_sized);
        sized = v.name_sized;
        ended = (stack.ended.0, ap c_string name ∙ stack.ended.1);
      } in
      (
        member,
        inr (
          block,
          record { member = member; buffered = v.buffer; reader = v.reader },
          omega (arith, short),
        ),
      )

  -- A new socket with a new block.
  admitted :
      (s : Server os.World) (info : ℕ) (g : Gets os garbage s info)
      → IsHall os limit s
      → s.clients info ≡ none
      → Round s
  admitted s info g hall absent =
      elim (client_info_init-IsClient os laws garbage g.socket g.w3 stack.headers stack.payloads
        stack.names) [
          | inl (w, e, run) ↦ absurd (rich.malloc_gives _ _ _ e)
          | inr (block, c, w, e, made, v, empty, nothing, fd, open_, short, name) ↦
              let a = fresh-IsActive c block v nothing short name in
              let s3 : Server os.World = record s { world = g.w3 } in
              let w4 = (os.epoll_ctl epoll_add g.socket w).1 in
              let s4 : Server os.World = after s3 info c w4 in
              let there : s4.clients info ≡ some c = rw (==_refl info) in
              let g4 : Stays os limit limit s s4 =
                aside os limit s s4 info hall absent
                  (λ q miss. update-other s.clients info (some c) q miss) hall.free refl in
              elim (Status-cases (os.epoll_ctl epoll_add g.socket w).0) [
                | inr unwatched ↦
                    ends failure s4
                      (λ m. admits-failure os garbage s m g (
                        not_watched os garbage s3 info g.socket made (ap (λ r. (r, w4)) unwatched)))
                      g4
                | inl watching ↦
                    elim (add_client_to_list-limit os s4 info c hall.free there hall.few) [
                      | inl (room, added, few) ↦
                          goes_on
                            (record s4 {
                              client_list = s4.client_list ++ info ∷ [];
                              locked = false;
                            })
                            (λ m. admits-success os garbage s m g (
                              watched os garbage s3 info g.socket made (ap (λ r. (r, w4)) watching)
                                added))
                            info g absent
                            (watched os garbage s3 info g.socket made (ap (λ r. (r, w4)) watching)
                              added)
                            (enlisted os limit s s4 info c g4 hall absent refl there a room) refl
                      | inr (full, rejected) ↦
                          ends failure _
                            (λ m. admits-failure os garbage s m g (
                              watched os garbage s3 info g.socket made (ap (λ r. (r, w4)) watching)
                                rejected))
                            (aside os limit s
                              (record s4 {
                                world = (os.close c.client_fd s4.world).1;
                                locked = false;
                                clients = update s4.clients info none;
                              })
                              info hall absent
                              (λ q miss.
                                update-other s4.clients info none q miss
                                ∙ update-other s.clients info (some c) q miss)
                              refl refl)
                    ]
              ]
        ]

  round : (s : Server os.World) → IsHall os limit s → Round s
  round s hall = elim (answered (os.accept s.server_fd s.world)) [
    | is_again w e ↦
        ends success _ (λ m. refused os garbage s m e (inl (refl, refl)))
          (world-Stays os limit s w hall)
    | is_interrupted w e ↦
        ends failure _ (λ m. refused os garbage s m e (inr (inl refl, refl)))
          (world-Stays os limit s w hall)
    | is_failed w e ↦
        ends failure _ (λ m. refused os garbage s m e (inr (inr refl, refl)))
          (world-Stays os limit s w hall)
    | is_ok fd w e ↦
        let w2 = (os.set_nonblocking fd w).1 in
        elim (Status-cases (os.set_nonblocking fd w).0) [
          | inr blocks ↦
              ends failure _ (λ m. blocking os garbage s m e (ap (λ r. (r, w2)) blocks))
                (world-Stays os limit s w2 hall)
          | inl fine ↦ elim (allocated (os.new_struct w2)) [
            | inl (w3, none_left) ↦ absurd (rich.struct_gives w2 w3 none_left)
            | inr (info, w3, some_block) ↦
                let g : Gets os garbage s info = record {
                  socket = fd;
                  w1 = w;
                  w2 = w2;
                  w3 = w3;
                  accepts = e;
                  nonblocking = ap (λ r. (r, w2)) fine;
                  allocates = some_block;
                } in
                by_client info g (s.clients info) refl
          ]
        ]
  ]
    where
      by_client :
          (info : ℕ)
          → Gets os garbage s info
          → (r : Option ClientInfo) → s.clients info ≡ r
          → Round s
      by_client info g none absent = admitted s info g hall absent
      by_client info g (some c) there = in_use info c g there

  -- `accept_new_clients` returns, or, after some rounds that went on, the block for a new client
  -- is one that is in use.
  pub data Accepts (rounds : ℕ) (s : Server os.World) : Type 0 where
    accepted :
        (r : Status) (s' : Server os.World)
        → accept_new_clients os rounds garbage s ≡ some (r, s')
        → Stays os limit limit s s'
        → Accepts rounds s
    reused :
        (k m : ℕ) (s1 : Server os.World) (info : ℕ) (c : ClientInfo)
        → rounds ≡ k + m
        → accept_new_clients os rounds garbage s ≡ accept_new_clients os m garbage s1
        → Admits k s s1
        → Stays os limit limit s s1
        → Gets os garbage s1 info
        → s1.clients info ≡ some c
        → Accepts rounds s

  -- With memory, an allocator as documented, and structs whose arrays have their sizes and whose
  -- uninitialised name holds a NUL, for a server whose mutex is free and whose list has at most 1000
  -- clients, none of them twice and each of them active, and with rounds for the clients that the
  -- list still takes and one more: `accept_new_clients` returns, and the server is one of these
  -- again, with all clients that were active; or, behind rounds that each admit a new client to the
  -- end of the list and leave such a server, the allocator hands out the block of a client that is
  -- still in use.
  pub accept_new_clients-Accepts :
      (rounds : ℕ) (s : Server os.World)
      → IsHall os limit s
      → max_clients + 1 ≤ rounds + length s.client_list
      → Accepts rounds s
  accept_new_clients-Accepts zero s hall enough = absurd (omega (arith, hall.few))
  accept_new_clients-Accepts (suc rounds) s hall enough = elim (round s hall) [
    | ends r s' run g ↦ accepted r s' (run rounds) g
    | in_use info c g there ↦
        reused 0 (suc rounds) s info c (omega arith) refl none_yet (Stays-same hall) g there
    | goes_on s1 run fresh gets' absent admitted_ g longer ↦
        elim (accept_new_clients-Accepts rounds s1 g.hall
          (omega (arith, ap length longer, length-append s.client_list (fresh ∷ []), enough))) [
            | accepted r s' rest g' ↦ accepted r s' (run rounds ∙ rest) (Stays-trans g g')
            | reused k m s2 info c e rest t g' gets there ↦
                reused (suc k) m s2 info c (ap suc e ∙ omega arith) (run rounds ∙ rest)
                  (one_more fresh gets' absent admitted_ g longer t) (Stays-trans g g') gets there
          ]
  ]

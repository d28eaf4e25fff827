-- ===== src/Broadcast/Rounds.antt =====
-- A whole broadcast: the mutex, the clients that get the message, and those that are left alone.
use mathlib.Core.Option.{some-injective}
use mathlib.Core.Path.{subst}
use c_chat_server.Base.{
  ℕ, ◌+◌, ◌≤◌, ◌<◌, ◌≡◌, ◌^◌, ◌%◌, refl, arith, ap, sym, ◌∙◌, Bytes, List, [], ◌∷◌, some, Option,
  true, false, length, All, Bool-cases, inl, inr, ◌>>=◌, ◌==◌, ==_refl,
}
use c_chat_server.Os.{Os, Endian, success}
use c_chat_server.Os.Laws.{IsAllocator, IsServing}
use c_chat_server.Protocol.{
  MsgHeader, header_size, msg_size_limit, msg_type_normal, htonl, create_header,
}
use c_chat_server.Client.{ClientInfo}
use c_chat_server.Queue.Content.{IsQueue}
use c_chat_server.Server.{Server, get_client-some, lock-free, update}
use c_chat_server.Broadcast.{is_sender, broadcast_loop, broadcast}
use c_chat_server.Broadcast.Deliver.{Delivered, deliver-Delivered}

-- The client at an address is allocated, and its queue is valid and within the limit.
abbrev pub Served : {W : Type 0} → Server W → ℕ → Type 0
Served s p =
    (c : ClientInfo) × (s.clients p ≡ some c)
    × IsQueue c.msg_queue
    × (c.msg_queue.queued_bytes ≤ msg_size_limit)

-- A client that a broadcast to the list leaves alone: the sender, a closed one, and one that is not
-- in the list.
pub data Aside {W : Type 0} (sender : Option ℕ) (s : Server W) (l : List ℕ) (q : ℕ) : Type 0 where
  is_from : is_sender sender q ≡ true → Aside sender s l q
  is_closed : (c : ClientInfo) → s.clients q ≡ some c → c.closed ≡ true → Aside sender s l q
  is_absent : All (λ p. (p == q) ≡ false) l → Aside sender s l q

-- What holds of the server behind a broadcast, by the server before it.
pub record Sends {W : Type 0} (sender : Option ℕ) (l : List ℕ) (s s' : Server W) : Type 0 where
  pub list : s'.client_list ≡ s.client_list
  pub served : (q : ℕ) → Served s q → Served s' q
  pub aside : (q : ℕ) → Aside sender s l q → s'.clients q ≡ s.clients q

pub update-other :
    (m : ℕ → Option ClientInfo) (p : ℕ) (c : Option ClientInfo) (q : ℕ)
    → (p == q) ≡ false
    → update m p c q ≡ m q
update-other m p c q ne = rw ne

-- The server behind one delivery.
abbrev pub after : {W : Type 0} → Server W → ℕ → ClientInfo → W → Server W
after s p c w = record s { world = w; clients = update s.clients p (some c) }

pub after-Served :
    {W : Type 0} (s : Server W) (p : ℕ) (c : ClientInfo) (w : W)
    → IsQueue c.msg_queue
    → c.msg_queue.queued_bytes ≤ msg_size_limit
    → (q : ℕ) → Served s q
    → Served (after s p c w) q
after-Served s p c w v lim q (d, here, vd, limd) = elim (Bool-cases (p == q)) [
  | inl hit ↦ (c, rw hit, v, lim)
  | inr miss ↦ (d, update-other s.clients p (some c) q miss ∙ here, vd, limd)
]

-- Another record at an address, with the same queue.
pub same_queue-Served :
    {W : Type 0} (s : Server W) (p : ℕ) (c c' : ClientInfo) (w : W)
    → s.clients p ≡ some c
    → c'.msg_queue ≡ c.msg_queue
    → (q : ℕ) → Served s q
    → Served (after s p c' w) q
same_queue-Served s p c c' w here same q (d, there, v, lim) = elim (Bool-cases (p == q)) [
  | inr miss ↦ (d, update-other s.clients p (some c') q miss ∙ there, v, lim)
  | inl hit ↦
      let e : p ≡ q = ground arith in
      let is : d ≡ c = some-injective _ _ (sym there ∙ ap s.clients (sym e) ∙ here) in
      let queue : d.msg_queue ≡ c'.msg_queue = ap (λ x. x.msg_queue) is ∙ sym same in
      (c', rw hit, subst IsQueue queue v, subst (λ x. x.queued_bytes ≤ msg_size_limit) queue lim)
]

pub is_sender_refl : (p : ℕ) → is_sender (some p) p ≡ true
unfolding is_sender
is_sender_refl p = ==_refl p

pub map-All : {P Q : ℕ → Type 0} → ((q : ℕ) → P q → Q q) → (l : List ℕ) → All P l → All Q l
map-All f [] h = tt
map-All f (p ∷ l) h = (f p h.0, map-All f l h.1)

-- An open client of the list that is not the sender is none of those left alone.
Aside-other :
    {W : Type 0} {sender : Option ℕ} {s : Server W} {p : ℕ} {rest : List ℕ} {c : ClientInfo}
    → is_sender sender p ≡ false
    → s.clients p ≡ some c
    → c.closed ≡ false
    → (q : ℕ) → Aside sender s (p ∷ rest) q
    → (p == q) ≡ false
Aside-other {sender = sender} {s = s} {p = p} {rest = rest} {c = c} miss here open_ q a =
    elim (Bool-cases (p == q)) [
      | inr ne ↦ ne
      | inl hit ↦ let e : p ≡ q = ground arith in absurd (clash e a)
    ]
  where
    clash : p ≡ q → Aside sender s (p ∷ rest) q → ⊥
    clash e (is_from h) = cc (rw e at miss)
    clash e (is_closed d there shut) =
        let same : c ≡ d = some-injective _ _ (sym here ∙ ap s.clients e ∙ there) in
        cc (rw same at open_)
    clash e (is_absent h) = let no : (p == q) ≡ false = h.0 in ground arith

Aside-rest :
    {W : Type 0} {sender : Option ℕ} {s s1 : Server W} {p : ℕ} {rest : List ℕ}
    → (q : ℕ) → s1.clients q ≡ s.clients q
    → Aside sender s (p ∷ rest) q
    → Aside sender s1 rest q
Aside-rest q same (is_from h) = is_from h
Aside-rest q same (is_closed d there shut) = is_closed d (same ∙ there) shut
Aside-rest q same (is_absent h) = is_absent h.1

-- The header of a broadcast.
abbrev pub out_header : Endian → (len : ℕ) → MsgHeader
out_header order len = record {
  msg_len = htonl order (len % 2 ^ 32);
  msg_type = msg_type_normal;
  msg_done = 1;
}

module _ (os : Os) (bound : ℕ) (serve : IsServing os bound) (fuel : ℕ)
    (enough : msg_size_limit + bound < fuel) (laws : IsAllocator os) (msg : Bytes) (len : ℕ)
    (within : len ≤ length msg) (small : header_size + len < 2 ^ 62) (sender : Option ℕ) where
  -- One delivery after the other: every client of the list in its order, but not the sender and
  -- not one that is closed by then.
  pub data Deliveries (header : MsgHeader)
      : List ℕ → Server os.World → Server os.World → Type 0 where
    finished : {s : Server os.World} → Deliveries header [] s s
    passed_sender :
        {p : ℕ} {rest : List ℕ} {s s' : Server os.World}
        → is_sender sender p ≡ true
        → Deliveries header rest s s'
        → Deliveries header (p ∷ rest) s s'
    passed_closed :
        {p : ℕ} {rest : List ℕ} {s s' : Server os.World} (c : ClientInfo)
        → s.clients p ≡ some c
        → c.closed ≡ true
        → Deliveries header rest s s'
        → Deliveries header (p ∷ rest) s s'
    delivered :
        {p : ℕ} {rest : List ℕ} {s s' : Server os.World} (c c' : ClientInfo) (w' : os.World)
        → is_sender sender p ≡ false
        → s.clients p ≡ some c
        → c.closed ≡ false
        → Delivered os bound serve fuel enough laws header msg len c s.world c' w'
        → Deliveries header rest (after s p c' w') s'
        → Deliveries header (p ∷ rest) s s'

  loop-Deliveries :
      (header : MsgHeader) (l : List ℕ) (s : Server os.World)
      → All (Served s) l
      → (s' : Server os.World) × (broadcast_loop os fuel header msg len sender l s ≡ some (tt, s'))
        × Deliveries header l s s'
  unfolding broadcast_loop
  loop-Deliveries header [] s h = (s, refl, finished)
  loop-Deliveries header (p ∷ rest) s h = elim (Bool-cases (is_sender sender p)) [
    | inl hit ↦
        let (s', run, ds) = loop-Deliveries header rest s h.1 in
        (s', rw (hit, ◌>>=◌) run, passed_sender hit ds)
    | inr miss ↦
        let (c, here, v, lim) = h.0 in
        elim (Bool-cases c.closed) [
          | inl shut ↦
              let (s', run, ds) = loop-Deliveries header rest s h.1 in
              (
                s',
                rw (miss, get_client-some p s here, ◌>>=◌, shut) run,
                passed_closed c here shut ds,
              )
          | inr open_ ↦
              let (c', w', sent, d) =
                deliver-Delivered os bound serve fuel enough laws header msg len c s.world within
                  small v lim open_ in
              let keeps = after-Served s p c' w' d.queue d.limit in
              let (s', run, ds) =
                loop-Deliveries header rest (after s p c' w') (map-All keeps rest h.1) in
              (
                s',
                rw (miss, get_client-some p s here, ◌>>=◌, open_, sent) run,
                delivered c c' w' miss here open_ d ds,
              )
        ]
  ]

  Deliveries-Sends :
      {header : MsgHeader} {l : List ℕ} {s s' : Server os.World}
      → Deliveries header l s s'
      → (s'.locked ≡ s.locked) × Sends sender l s s'
  Deliveries-Sends finished = (refl, record { list = refl; served = λ q a. a; aside = λ q a. refl })
  Deliveries-Sends (passed_sender hit ds) =
      let (same, sends) = Deliveries-Sends ds in
      (
        same,
        record {
          list = sends.list;
          served = sends.served;
          aside = λ q a. sends.aside q (Aside-rest q refl a);
        },
      )
  Deliveries-Sends (passed_closed c here shut ds) =
      let (same, sends) = Deliveries-Sends ds in
      (
        same,
        record {
          list = sends.list;
          served = sends.served;
          aside = λ q a. sends.aside q (Aside-rest q refl a);
        },
      )
  Deliveries-Sends {s = s} (delivered {p = p} c c' w' miss here open_ d ds) =
      let (same, sends) = Deliveries-Sends ds in
      let keeps = after-Served s p c' w' d.queue d.limit in
      (
        same,
        record {
          list = sends.list;
          served = λ q a. sends.served q (keeps q a);
          aside = λ q a.
              let other = update-other s.clients p (some c') q (Aside-other miss here open_ q a) in
              sends.aside q (Aside-rest q other a) ∙ other;
        },
      )

  -- With the sockets and the allocator as documented, more fuel than the queue's limit and the
  -- interruptions together, a message inside its buffer and below 2 ^ 62 bytes with its header,
  -- the mutex free, and every client of the list allocated with a valid queue within the limit:
  -- `broadcast` returns 0 with no access out of bounds and the mutex free again. Between the lock
  -- and the unlock it makes, in the order of the list, one delivery to each client that is
  -- neither the sender nor closed by then, each of which comes to `Delivered`: the client's
  -- stream is longer by exactly the header and the message, or there was no memory or no room.
  -- The list is as it was, all queues are valid and within the limit again, and the sender, the
  -- closed clients and those that are not in the list are left exactly as they were.
  pub broadcast-Sends :
      (s : Server os.World)
      → s.locked ≡ false
      → All (Served s) s.client_list
      → (s' : Server os.World) × (broadcast os fuel sender msg len s
          ≡ some (success, record s' { locked = false }))
        × Deliveries (out_header os.byte_order len) s.client_list (record s { locked = true }) s'
        × Sends sender s.client_list s s'
  unfolding broadcast create_header
  broadcast-Sends s free h =
      let (s', run, ds) =
        loop-Deliveries (out_header os.byte_order len) s.client_list (record s { locked = true })
          h in
      let (same, sends) = Deliveries-Sends ds in
      (
        s',
        rw (lock-free s free, ◌>>=◌, run),
        ds,
        record {
          list = sends.list;
          served = sends.served;
          aside = λ q a. sends.aside q (moved q a);
        },
      )
    where
      moved :
          (q : ℕ)
          → Aside sender s s.client_list q
          → Aside sender (record s { locked = true }) s.client_list q
      moved q (is_from e) = is_from e
      moved q (is_closed d there shut) = is_closed d there shut
      moved q (is_absent e) = is_absent e

-- ===== src/Broadcast/Kept.antt =====
-- A property of clients that does not depend on their queues outlasts a broadcast.
use mathlib.Core.Option.{some-injective}
use mathlib.Core.Path.{subst}
use c_chat_server.Base.{
  ℕ, ◌+◌, ◌≤◌, ◌<◌, ◌≡◌, ◌^◌, ap, sym, ◌∙◌, Bytes, List, Bool, false, some, Option, length,
  Bool-cases, inl, inr, ◌==◌, arith,
}
use c_chat_server.Os.{Os}
use c_chat_server.Os.Laws.{IsAllocator, IsServing}
use c_chat_server.Protocol.{MsgHeader, header_size, msg_size_limit}
use c_chat_server.Client.{ClientInfo, MsgQueue}
use c_chat_server.Queue.Content.{IsQueue}
use c_chat_server.Server.{Server}
use c_chat_server.Broadcast.Attempt.{with_queue}
use c_chat_server.Broadcast.Rounds.{
  Deliveries, finished, passed_sender, passed_closed, delivered, update-other,
}

-- A property that an open client keeps with another valid queue and other flags.
pub record IsStable (P : ClientInfo → Type 0) : Type 0 where
  pub moves :
      (c : ClientInfo) (q : MsgQueue) (e b : Bool)
      → IsQueue q
      → q.queued_bytes ≤ msg_size_limit
      → c.closed ≡ false
      → P c
      → P (with_queue c q e b)

-- What the steps for other clients leave of a client: the same record, or, of an open one, the record
-- with another valid queue and other flags.
pub data Later (c d : ClientInfo) : Type 0 where
  unchanged : d ≡ c → Later c d
  requeued :
      (q : MsgQueue) (e b : Bool)
      → c.closed ≡ false
      → IsQueue q
      → q.queued_bytes ≤ msg_size_limit
      → d ≡ with_queue c q e b
      → Later c d

pub Later-IsStable : (c : ClientInfo) → IsStable (Later c)
Later-IsStable c = record { moves = λ d q e b v lim open_ l. step d q e b v lim open_ l }
  where
    step :
        (d : ClientInfo) (q : MsgQueue) (e b : Bool)
        → IsQueue q
        → q.queued_bytes ≤ msg_size_limit
        → d.closed ≡ false
        → Later c d
        → Later c (with_queue d q e b)
    step d q e b v lim open_ (unchanged same) =
        requeued q e b (ap (λ x. x.closed) (sym same) ∙ open_) v lim
          (ap (λ x. with_queue x q e b) same)
    step d q e b v lim open_ (requeued q1 e1 b1 was_open v1 lim1 same) =
        requeued q e b was_open v lim (ap (λ x. with_queue x q e b) same)

-- A stable property outlasts these steps.
pub Later-stable :
    (P : ClientInfo → Type 0) → IsStable P → (c d : ClientInfo) → Later c d → P c → P d
Later-stable P stable c d (unchanged same) v = subst P (sym same) v
Later-stable P stable c d (requeued q e b open_ w lim same) v =
    subst P (sym same) (stable.moves c q e b w lim open_ v)

pub Later-trans : (c d e : ClientInfo) → Later c d → Later d e → Later c e
Later-trans c d e l m = Later-stable (Later c) (Later-IsStable c) d e m l

-- The client at an address is allocated and has the property.
abbrev pub Holds : {W : Type 0} → (ClientInfo → Type 0) → Server W → ℕ → Type 0
Holds P s p = (c : ClientInfo) × (s.clients p ≡ some c) × P c

module _ (os : Os) (bound : ℕ) (serve : IsServing os bound) (fuel : ℕ)
    (enough : msg_size_limit + bound < fuel) (laws : IsAllocator os) (msg : Bytes) (len : ℕ)
    (within : len ≤ length msg) (small : header_size + len < 2 ^ 62) (sender : Option ℕ) where
  pub Deliveries-Holds :
      (P : ClientInfo → Type 0)
      → IsStable P
      → {header : MsgHeader} {l : List ℕ} {s s' : Server os.World}
      → Deliveries os bound serve fuel enough laws msg len within small sender header l s s'
      → (q : ℕ) → Holds P s q
      → Holds P s' q
  Deliveries-Holds P stable finished q h = h
  Deliveries-Holds P stable (passed_sender hit ds) q h = Deliveries-Holds P stable ds q h
  Deliveries-Holds P stable (passed_closed c here shut ds) q h = Deliveries-Holds P stable ds q h
  Deliveries-Holds P stable {s = s} (delivered {p = p} c c' w' miss here open_ d ds) q
        (e, there, v) =
      Deliveries-Holds P stable ds q (elim (Bool-cases (p == q)) [
        | inr other ↦ (e, update-other s.clients p (some c') q other ∙ there, v)
        | inl hit ↦
            let at : p ≡ q = ground arith in
            let is : e ≡ c = some-injective _ _ (sym there ∙ ap s.clients (sym at) ∙ here) in
            (
              c',
              rw hit,
              subst P (sym d.kept) (
                  stable.moves c c'.msg_queue c'.epollout_enabled c'.closed d.queue d.limit open_
                    (subst P is v)),
            )
      ])

-- ===== src/Loop/Hall.antt =====
-- The server between two events, when its clients can be read from as well.
use mathlib.Core.Path.{subst}
use c_chat_server.Base.{
  ℕ, ◌≤◌, ◌≡◌, ◌⊎◌, inl, inr, arith, ap, sym, ◌∙◌, Bytes, some, true, false, Bool, All, length,
  Bool-cases, ◌==◌,
}
use c_chat_server.Os.{Os, Endian}
use c_chat_server.Protocol.{msg_size_limit}
use c_chat_server.Client.{ClientInfo, MsgQueue, ReadState, read_header, read_payload}
use c_chat_server.Reader.Position.{Position}
use c_chat_server.Queue.Content.{IsQueue}
use c_chat_server.Server.{Server, max_clients}
use c_chat_server.Server.RemoveAll.{IsDistinct}
use c_chat_server.Broadcast.Attempt.{with_queue}
use c_chat_server.Broadcast.Kept.{IsStable, Later-stable, Holds}
use c_chat_server.Broadcast.Rounds.{map-All}
use c_chat_server.Handlers.Room.{IsMember, IsMember-IsStable, IsRoom}
use c_chat_server.Reader.Going.{IsReading, Goes}

-- A client that every event can work on: a member of the room that is closed, or that can be read
-- from and has a message of at most so many bytes.
abbrev pub IsActive : Os → (limit : ℕ) → ClientInfo → Type 0
IsActive os limit c =
    IsMember c
    × ((c.closed ≡ true) ⊎ ((block : Bytes) × IsReading os c block × (c.partial_len ≤ limit)))

with_queue-Position :
    (order : Endian) (c : ClientInfo) (q : MsgQueue) (e b : Bool) (t : ReadState)
    → Position order c t
    → Position order (with_queue c q e b) t
with_queue-Position order c q e b read_header h = h
with_queue-Position order c q e b read_payload (most, parsed) = (
  most,
  record { len = parsed.len; type = parsed.type; done = parsed.done; limit = parsed.limit },
)

module _ {os : Os} where
  -- Another valid queue and other flags do not matter to the reader.
  pub with_queue-IsReading :
      (c : ClientInfo) (block : Bytes) (q : MsgQueue) (e b : Bool)
      → IsQueue q
      → q.queued_bytes ≤ msg_size_limit
      → IsReading os c block
      → IsReading os (with_queue c q e b) block
  with_queue-IsReading c block q e b w lim v = record {
    member = record {
      queue = w;
      limit = lim;
      named = v.member.named;
      sized = v.member.sized;
      ended = v.member.ended;
    };
    buffered = record {
      is_block = v.buffered.is_block;
      within = v.buffered.within;
      used = v.buffered.used;
      least = v.buffered.least;
    };
    reader = record {
      header_sized = v.reader.header_sized;
      payload_sized = v.reader.payload_sized;
      position = with_queue-Position os.byte_order c q e b c.state v.reader.position;
    };
  }

  pub IsActive-IsStable : (limit : ℕ) → IsStable (IsActive os limit)
  IsActive-IsStable limit = record {
    moves = λ c q e b w lim open_ a. (
      IsMember-IsStable.moves c q e b w lim open_ (a.0),
      elim (a.1) [
        | inl shut ↦ absurd (cc (open_, shut))
        | inr (block, v, short) ↦ inr (block, with_queue-IsReading c block q e b w lim v, short)
      ],
    );
  }

  pub IsActive-weaken :
      {limit limit' : ℕ}
      → limit ≤ limit'
      → (c : ClientInfo) → IsActive os limit c
      → IsActive os limit' c
  IsActive-weaken less c (m, inl shut) = (m, inl shut)
  IsActive-weaken less c (m, inr (block, v, short)) =
      (m, inr (block, v, omega (arith, less, short)))

-- The mutex is free, and the list has at most 1000 clients, none twice, and each of them active.
pub record IsHall (os : Os) (limit : ℕ) (s : Server os.World) : Type 0 where
  pub free : s.locked ≡ false
  pub few : length s.client_list ≤ max_clients
  pub distinct : IsDistinct s.client_list
  pub active : All (Holds (IsActive os limit) s) s.client_list

-- The server behind an event: a hall for longer messages with the same list, which keeps all its
-- clients active.
pub record Keeps (os : Os) (limit limit' : ℕ) (s s' : Server os.World) : Type 0 where
  pub hall : IsHall os limit' s'
  pub list : s'.client_list ≡ s.client_list
  pub stay : (q : ℕ) → Holds (IsActive os limit) s q → Holds (IsActive os limit') s' q

pub hall-weaken :
    {os : Os} {limit limit' : ℕ} {s : Server os.World}
    → limit ≤ limit'
    → IsHall os limit s
    → IsHall os limit' s
hall-weaken {os = os} {limit' = limit'} {s = s} less h = record {
  free = h.free;
  few = h.few;
  distinct = h.distinct;
  active =
      map-All {Q = Holds (IsActive os limit') s}
        (λ q (c, there, a). (c, there, IsActive-weaken less c a)) s.client_list h.active;
}

-- The server behind any events: a hall for longer messages, with all its clients.
pub record Stays (os : Os) (limit limit' : ℕ) (s s' : Server os.World) : Type 0 where
  pub hall : IsHall os limit' s'
  pub stay : (q : ℕ) → Holds (IsActive os limit) s q → Holds (IsActive os limit') s' q

module _ {os : Os} {limit : ℕ} where
  pub Stays-same : {s : Server os.World} → IsHall os limit s → Stays os limit limit s s
  Stays-same hall = record { hall = hall; stay = λ q h. h }

  pub Stays-weaken :
      {l1 l2 : ℕ} {s s' : Server os.World}
      → l1 ≤ l2
      → Stays os limit l1 s s'
      → Stays os limit l2 s s'
  Stays-weaken {l2 = l2} {s' = s'} less g = record {
    hall = hall-weaken less g.hall;
    stay = λ q h. let (c, there, a) = g.stay q h in (c, there, IsActive-weaken less c a);
  }

  pub Stays-trans :
      {l1 l2 : ℕ} {s s1 s' : Server os.World}
      → Stays os limit l1 s s1
      → Stays os l1 l2 s1 s'
      → Stays os limit l2 s s'
  Stays-trans g h = record { hall = h.hall; stay = λ q x. h.stay q (g.stay q x) }

  pub hall-IsRoom : {s : Server os.World} → IsHall os limit s → IsRoom s
  hall-IsRoom {s = s} h = record {
    free = h.free;
    members = map-All (λ q (c, there, a). (c, there, a.0)) s.client_list h.active;
  }

  pub stay-Keeps :
      {limit' : ℕ} {s s' : Server os.World}
      → IsHall os limit s
      → s'.locked ≡ false
      → s'.client_list ≡ s.client_list
      → ((q : ℕ) → Holds (IsActive os limit) s q → Holds (IsActive os limit') s' q)
      → Keeps os limit limit' s s'
  stay-Keeps {limit' = limit'} {s = s} {s' = s'} h free list stay = record {
    hall = record {
      free = free;
      few = subst (λ l. length l ≤ max_clients) (sym list) h.few;
      distinct = subst IsDistinct (sym list) h.distinct;
      active =
          subst (All (Holds (IsActive os limit') s')) (sym list)
            (map-All stay s.client_list h.active);
    };
    list = list;
    stay = stay;
  }

  -- A step of the client at `p` that leaves it active keeps the hall.
  pub Goes-Keeps :
      {limit' p : ℕ} {s s' : Server os.World} {d : ClientInfo}
      → limit ≤ limit'
      → IsHall os limit s
      → Goes p s s'
      → s'.clients p ≡ some d
      → IsActive os limit' d
      → Keeps os limit limit' s s'
  Goes-Keeps {limit' = limit'} {p = p} {s = s} {s' = s'} {d = d} less h g there a =
      stay-Keeps h g.room.free g.list (λ q (c, here, v). elim (Bool-cases (p == q)) [
        | inl hit ↦ let at : p ≡ q = ground arith in (d, ap s'.clients (sym at) ∙ there, a)
        | inr miss ↦
            let (e, there', l) = g.others q miss c here in
            (
              e,
              there',
              IsActive-weaken less e
                  (Later-stable (IsActive os limit) (IsActive-IsStable limit) c e l v),
            )
      ])

-- ===== src/Reader/Going.antt =====
-- What the steps of the reader keep: the room, its list, and a client that can be read from.
use c_chat_server.Base.{
  ℕ, ◌+◌, ◌≤◌, ◌≡◌, Bytes, some, false, Bool-cases, inl, inr, ◌==◌, refl, ◌∙◌, ◌⊎◌, arith,
}
use c_chat_server.Os.{Os, Status, failure}
use c_chat_server.Client.{ClientInfo, read_header}
use c_chat_server.Client.Buffer.{HasBuffer}
use c_chat_server.Server.{Server}
use c_chat_server.Broadcast.Kept.{Holds, Later, unchanged, Later-trans}
use c_chat_server.Broadcast.Rounds.{after, update-other}
use c_chat_server.Handlers.Room.{IsMember, IsRoom, IsRoom-next}
use c_chat_server.Reader.Position.{IsReader}

-- A client of the room whose reader and message buffer are valid.
pub record IsReading (os : Os) (c : ClientInfo) (block : Bytes) : Type 0 where
  pub member : IsMember c
  pub buffered : HasBuffer c block
  pub reader : IsReader os.byte_order c

-- A client's record is replaced by one that is as good.
pub put-Holds :
    {W : Type 0} (s : Server W) (p : ℕ) (d : ClientInfo) (w : W)
    → IsMember d
    → (q : ℕ) → Holds IsMember s q
    → Holds IsMember (after s p d w) q
put-Holds s p d w m q (e, there, v) = elim (Bool-cases (p == q)) [
  | inl hit ↦ (d, rw hit, m)
  | inr miss ↦ (e, update-other s.clients p (some d) q miss ∙ there, v)
]

-- The server behind a step of the reader of the client at `info`: a room with the same list, which
-- keeps its clients, the others but for their queues and flags.
pub record Goes {W : Type 0} (info : ℕ) (s s' : Server W) : Type 0 where
  pub room : IsRoom s'
  pub list : s'.client_list ≡ s.client_list
  pub moves : (q : ℕ) → Holds IsMember s q → Holds IsMember s' q
  pub others :
      (q : ℕ) → (info == q) ≡ false → (c : ClientInfo) → s.clients q ≡ some c → Holds (Later c) s' q

pub Goes-same : {W : Type 0} {info : ℕ} {s : Server W} → IsRoom s → Goes info s s
Goes-same room = record {
  room = room;
  list = refl;
  moves = λ q h. h;
  others = λ q miss c there. (c, there, unchanged refl);
}

pub Goes-trans :
    {W : Type 0} {info : ℕ} {s s1 s' : Server W} → Goes info s s1 → Goes info s1 s' → Goes info s s'
Goes-trans g h = record {
  room = h.room;
  list = h.list ∙ g.list;
  moves = λ q x. h.moves q (g.moves q x);
  others = λ q miss c there.
      let (d, there', l) = g.others q miss c there in
      let (e, there'', m) = h.others q miss d there' in (e, there'', Later-trans c d e l m);
}

pub put-Goes :
    {W : Type 0} (s s' : Server W) (p : ℕ) (d : ClientInfo) (w : W)
    → Goes p s s'
    → IsMember d
    → Goes p s (after s' p d w)
put-Goes s s' p d w g m = record {
  room = IsRoom-next {s = s'} {s' = after s' p d w} refl g.room.free (put-Holds s' p d w m) g.room;
  list = g.list;
  moves = λ q h. put-Holds s' p d w m q (g.moves q h);
  others = λ q miss c there.
      let (e, there', l) = g.others q miss c there in
      (e, update-other s'.clients p (some d) q miss ∙ there', l);
}

-- The client when the reader returns: unless it is given up, it can be read from again, and its
-- message is within the limit.
pub record Rests (os : Os) (info limit : ℕ) (r : Status) (s' : Server os.World) : Type 0 where
  pub client : ClientInfo
  pub there : s'.clients info ≡ some client
  pub valid :
      (r ≡ failure) ⊎ ((block : Bytes) × IsReading os client block × (client.partial_len ≤ limit))

pub Rests-weaken :
    {os : Os} {info limit limit' : ℕ} {r : Status} {s' : Server os.World}
    → limit ≤ limit'
    → Rests os info limit r s'
    → Rests os info limit' r s'
Rests-weaken less rests = record {
  client = rests.client;
  there = rests.there;
  valid = elim rests.valid [
    | inl refused ↦ inl refused
    | inr (block, v, short) ↦ inr (block, v, omega (arith, less, short))
  ];
}

-- The client is back at the next header.
pub record Idle (os : Os) (c d : ClientInfo) : Type 0 where
  pub block : Bytes
  pub reading : IsReading os d block
  pub at_header : d.state ≡ read_header
  pub same_socket : d.client_fd ≡ c.client_fd
  pub shorter : d.partial_len ≤ c.partial_len + c.payload_bytes_read

-- ===== src/Loop/Sides.antt =====
-- The steps of an event of a client, one side after the other.

use c_chat_server.Base.{
  ℕ, ◌≤◌, ◌≡◌, refl, arith, Bytes, Bool, some, true, false, ◌>>=◌, if◌then◌else◌,
}
use c_chat_server.Os.{Os, Status, failure, ready}
use c_chat_server.Os.Laws.{IsServing}
use c_chat_server.Client.{ClientInfo, MsgQueue, ReadState, read_header, read_payload}
use c_chat_server.Queue.{client_try_write}
use c_chat_server.Queue.Content.{IsQueue}
use c_chat_server.Queue.TryWrite.{Drains, drained, blocked, broken}
use c_chat_server.Server.{Server, get_client-some}
use c_chat_server.Broadcast.Attempt.{with_queue}
use c_chat_server.Broadcast.Rounds.{after}
use c_chat_server.Reader.{handle_client_read}
use c_chat_server.Reader.Going.{Goes, Goes-trans}
use c_chat_server.Reader.Rounds.{phase}
use c_chat_server.Loop.{handle_event, write_side, read_side, close_on, try_write_client}
use c_chat_server.Loop.Hall.{IsActive}

-- A step that leaves the client at `p` active.
abbrev pub Leaves : (os : Os) (p limit : ℕ) (s s' : Server os.World) → Type 0
Leaves os p limit s s' =
    Goes p s s' × (d : ClientInfo) × (s'.clients p ≡ some d) × IsActive os limit d

pub Leaves-trans :
    {os : Os} {p limit : ℕ} {s s1 s' : Server os.World}
    → Goes p s s1
    → Leaves os p limit s1 s'
    → Leaves os p limit s s'
Leaves-trans g (g', d, there, a) = (Goes-trans g g', d, there, a)

pub phase-1 : (t : ReadState) → phase t ≤ 1
phase-1 read_header = omega arith
phase-1 read_payload = omega arith

-- What a drained queue leaves of the client.
pub Drains-with_queue :
    (os : Os) (bound : ℕ) (serve : IsServing os bound) (c : ClientInfo) {w' : os.World} {r : Status}
    {c' : ClientInfo} {stream : Bytes}
    → Drains os c (serve.out c.client_fd) stream c.msg_queue.queued_bytes w' r c'
    → (q : MsgQueue) × (e : Bool) × (c' ≡ with_queue c q e c.closed)
      × IsQueue q
      × (q.queued_bytes ≤ c.msg_queue.queued_bytes)
Drains-with_queue os bound serve c (drained q e v lim nil all) = (q, e, refl, v, lim)
Drains-with_queue os bound serve c (blocked q bytes w n e v lim all) =
    (q, c.epollout_enabled, refl, v, lim)
Drains-with_queue os bound serve c (broken q bytes w n e v lim all) =
    (q, c.epollout_enabled, refl, v, lim)

module _ (os : Os) (fuel : ℕ) (garbage : ClientInfo) (p : ℕ) (s : Server os.World) where
  -- The steps of the two sides.
  pub write-run :
      {c c' : ClientInfo} {w' : os.World} {r : Status}
      → s.clients p ≡ some c
      → client_try_write os fuel c s.world ≡ some ((r, c'), w')
      → write_side os fuel garbage p s
        ≡ (close_on os fuel garbage p r >>= λ _ w. some (tt, w)) (after s p c' w')
  unfolding write_side try_write_client
  write-run here run = rw (get_client-some p s here, ◌>>=◌, run)

  pub closing :
      {c : ClientInfo}
      → s.clients p ≡ some c
      → close_on os fuel garbage p failure s
        ≡ some (false, after s p (record c { closed = true }) s.world)
  unfolding close_on
  closing here = rw (get_client-some p s here, ◌>>=◌)

  pub read-run :
      {r : Status} {s' : Server os.World}
      → handle_client_read os fuel fuel p s ≡ some (r, s')
      → read_side os fuel garbage p s ≡ close_on os fuel garbage p r s'
  unfolding read_side
  read-run run = rw (◌>>=◌, run)

  module _ {c : ClientInfo} (here : s.clients p ≡ some c) (input output : Bool) where
    pub event-closed :
        (hangup : Bool)
        → c.closed ≡ true
        → handle_event os fuel garbage (ready p hangup input output) s ≡ some (tt, s)
    unfolding handle_event
    event-closed hangup shut = rw (get_client-some p s here, ◌>>=◌, shut, if◌then◌else◌)

    pub event-hangup :
        {s' : Server os.World}
        → c.closed ≡ false
        → close_on os fuel garbage p failure s ≡ some (false, s')
        → handle_event os fuel garbage (ready p true input output) s ≡ some (tt, s')
    unfolding handle_event
    event-hangup open_ run = rw (get_client-some p s here, ◌>>=◌, open_, if◌then◌else◌, run)

  module _ {c : ClientInfo} (here : s.clients p ≡ some c) (open_ : c.closed ≡ false) where
    pub event-rest : handle_event os fuel garbage (ready p false false false) s ≡ some (tt, s)
    unfolding handle_event
    event-rest = rw (get_client-some p s here, ◌>>=◌, open_, if◌then◌else◌)

    pub event-write :
        {s' : Server os.World}
        → write_side os fuel garbage p s ≡ some (tt, s')
        → handle_event os fuel garbage (ready p false false true) s ≡ some (tt, s')
    unfolding handle_event
    event-write run = rw (get_client-some p s here, ◌>>=◌, open_, if◌then◌else◌, run)

    pub event-refused :
        (output : Bool) {s' : Server os.World}
        → read_side os fuel garbage p s ≡ some (false, s')
        → handle_event os fuel garbage (ready p false true output) s ≡ some (tt, s')
    unfolding handle_event
    event-refused output run = rw (get_client-some p s here, ◌>>=◌, open_, if◌then◌else◌, run)

    pub event-read :
        {s' : Server os.World}
        → read_side os fuel garbage p s ≡ some (true, s')
        → handle_event os fuel garbage (ready p false true false) s ≡ some (tt, s')
    unfolding handle_event
    event-read run = rw (get_client-some p s here, ◌>>=◌, open_, if◌then◌else◌, run)

    pub event-both :
        {s' : Server os.World}
        → read_side os fuel garbage p s ≡ some (true, s')
        → handle_event os fuel garbage (ready p false true true) s ≡ write_side os fuel garbage p s'
    unfolding handle_event
    event-both run = rw (get_client-some p s here, ◌>>=◌, open_, if◌then◌else◌, run)

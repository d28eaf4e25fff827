-- ===== src/Handlers/Room.antt =====
-- The server between two events, and the commands on it, whatever the client has typed.
use mathlib.Core.Path.{subst}
use c_chat_server.Base.{
  ℕ, ◌+◌, ◌≤◌, ◌<◌, ◌≡◌, refl, arith, ap, sym, ◌∙◌, Bytes, Bool, some, true, false, length, All,
  ◌>>=◌,
}
use c_chat_server.Os.{Os}
use c_chat_server.Os.Laws.{IsAllocator, IsPlentiful, HasClock}
use c_chat_server.Protocol.{msg_size_limit}
use c_chat_server.Client.{ClientInfo, name_max}
use c_chat_server.Text.{c_string}
use c_chat_server.Queue.Content.{IsQueue}
use c_chat_server.Command.{
  Cmd, cmd_quit, cmd_list, cmd_whisper, cmd_shutdown, cmd_unknown, CmdRes, cmd_ok, cmd_disconnect,
  find_command,
}
use c_chat_server.Server.{Server}
use c_chat_server.Broadcast.Kept.{Holds, IsStable}
use c_chat_server.Broadcast.Rounds.{Served, map-All}
use c_chat_server.Broadcast.Direct.{IsDirect}
use c_chat_server.Handlers.{server_handle_command, server_handle_unknown, handle_shutdown}
use c_chat_server.Handlers.Target.{name_at}
use c_chat_server.Handlers.Listing.{Named, handle_list-Listing}
use c_chat_server.Handlers.Whisper.{
  Whispers, no_text, no_target, whispered, handle_whisper-Whispers,
}

-- A client that every handler can work on: its queue is valid and within the limit, and its name
-- field of 64 bytes holds its name and a NUL.
pub record IsMember (c : ClientInfo) : Type 0 where
  pub queue : IsQueue c.msg_queue
  pub limit : c.msg_queue.queued_bytes ≤ msg_size_limit
  pub named : c.name_len ≤ length c.name
  pub sized : length c.name ≡ name_max
  pub ended : (n : Bytes) × (c_string c.name ≡ some n)

pub IsMember-IsStable : IsStable IsMember
IsMember-IsStable = record {
  moves = λ c q e b v lim open_ m. record {
    queue = v;
    limit = lim;
    named = m.named;
    sized = m.sized;
    ended = m.ended;
  };
}

-- A client that is marked closed.
pub closing-IsMember : (d : ClientInfo) → IsMember d → IsMember (record d { closed = true })
closing-IsMember d v = record {
  queue = v.queue;
  limit = v.limit;
  named = v.named;
  sized = v.sized;
  ended = v.ended;
}

-- The mutex is free, and every client of the list is such a client.
pub record IsRoom {W : Type 0} (s : Server W) : Type 0 where
  pub free : s.locked ≡ false
  pub members : All (Holds IsMember s) s.client_list

pub Holds-Served : {W : Type 0} (s : Server W) → (q : ℕ) → Holds IsMember s q → Served s q
Holds-Served s q (c, here, m) = (c, here, m.queue, m.limit)

Holds-Named : {W : Type 0} (s : Server W) → (q : ℕ) → Holds IsMember s q → Named s q
Holds-Named s q (c, here, m) = (c, here, m.named, omega (arith, m.sized))

Holds-name_at :
    {W : Type 0} (s : Server W)
    → (q : ℕ) → Holds IsMember s q
    → (n : Bytes) × (name_at s q ≡ some n)
Holds-name_at s q (c, here, m) = let (n, is) = m.ended in (n, rw here is)

-- The next server has the same list, and keeps its clients.
pub IsRoom-next :
    {W : Type 0} {s s' : Server W}
    → s'.client_list ≡ s.client_list
    → s'.locked ≡ false
    → ((q : ℕ) → Holds IsMember s q → Holds IsMember s' q)
    → IsRoom s
    → IsRoom s'
IsRoom-next {s = s} {s' = s'} list free moves room = record {
  free = free;
  members = subst (All (Holds IsMember s')) (sym list) (map-All moves s.client_list room.members);
}

module _ (os : Os) (bound : ℕ) (direct : IsDirect os bound) (fuel : ℕ) (laws : IsAllocator os)
    (rich : IsPlentiful os) (clock : HasClock os) where
  Whispers-world :
      {c : ClientInfo} {saveptr : Bytes} {s s' : Server os.World} {r : CmdRes}
      → Whispers os bound direct c saveptr s r s'
      → (w' : os.World) × (s' ≡ record s { world = w' })
  Whispers-world {s = s} (no_text e r same) = (s.world, same)
  Whispers-world {s = s} (no_target target e h r same) = (s.world, same)
  Whispers-world
        (whispered target p d stamp line text k w w' is found there content whole made frame r
          same) =
      (w', same)

  -- With memory, a clock and sockets for direct messages whose calls are interrupted finitely
  -- often, more fuel than the arguments of the command, 128 bytes and the interruptions, for an
  -- allocated client of the room and whatever the command and its arguments are:
  -- `server_handle_command` returns with no access out of bounds, and changes nothing but the
  -- world and the flag of the shutdown.
  pub server_handle_command-some :
      (user : ℕ) (cmd saveptr : Bytes) (s : Server os.World) (u : ClientInfo)
      → s.clients user ≡ some u
      → IsMember u
      → IsRoom s
      → length saveptr + 128 + bound < fuel
      → (r : CmdRes) × (w' : os.World) × (over : Bool) × (server_handle_command os fuel user cmd
            saveptr s
          ≡ some (r, record s { world = w'; server_shutdown = over }))
  unfolding server_handle_command server_handle_unknown handle_shutdown
  server_handle_command-some user cmd saveptr s u here m room enough = act (find_command cmd) refl
    where
      act :
          (k : Cmd)
          → find_command cmd ≡ k
          → (r : CmdRes) × (w' : os.World) × (over : Bool) × (server_handle_command os fuel user cmd
                saveptr s
              ≡ some (r, record s { world = w'; server_shutdown = over }))
      act cmd_quit e = (cmd_ok, s.world, s.server_shutdown, rw (server_handle_command, e))
      act cmd_unknown e = (cmd_ok, s.world, s.server_shutdown, rw (server_handle_command, e))
      act cmd_shutdown e = (cmd_disconnect, s.world, true, rw (server_handle_command, e, ◌>>=◌))
      act cmd_list e =
          let (w', run, _) =
            handle_list-Listing os bound direct fuel (omega (arith, enough)) user u s here
              (map-All (Holds-Named s) s.client_list room.members) in
          (cmd_ok, w', s.server_shutdown, rw (server_handle_command, e) run)
      act cmd_whisper e =
          let (r, s', run, whispers) =
            handle_whisper-Whispers os bound direct fuel laws rich clock user saveptr s u here
              m.named (omega (arith, m.sized))
              (map-All (Holds-name_at s) s.client_list room.members) enough in
          let (w', same) = Whispers-world whispers in
          (
            r,
            w',
            s.server_shutdown,
            rw (server_handle_command, e) (run ∙ ap (λ x. some (r, x)) same),
          )

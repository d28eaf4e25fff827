-- ===== src/Reader/Finish.antt =====
-- The runs of `finish_message` and `payload_complete`, by those of the calls that they make.
use c_chat_server.Base.{
  ℕ, ◌+◌, ◌≤◌, ◌≡◌, ◌^◌, Bytes, Option, ◌++◌, some, true, false, length, take, ◌>>=◌, ◌==◌, ==_refl,
  if◌then◌else◌,
}
use c_chat_server.Os.{Os, Status, success, failure}
use c_chat_server.Os.Laws.{IsAllocator, IsPlentiful}
use c_chat_server.Client.{ClientInfo, append_to_client_buffer, clear_client_buffer}
use c_chat_server.Client.Buffer.{
  HasBuffer, Appends, appended, no_memory, message, payload, append_to_client_buffer-Appends,
}
use c_chat_server.Text.{copy_buffer}
use c_chat_server.Server.{Server, get_client-some, update}
use c_chat_server.Broadcast.Rounds.{after}
use c_chat_server.Payload.{process_payload}
use c_chat_server.Reader.{payload_complete, finish_message, next_header}

-- The client with another message buffer.
abbrev pub with_message : ClientInfo → Bytes → (len cap : ℕ) → ClientInfo
with_message c block len cap = record c {
  partial_msg = some block;
  partial_len = len;
  partial_cap = cap;
}

-- The payload behind the message, with memory.
pub append_to_client_buffer-some :
    (os : Os) (laws : IsAllocator os) (rich : IsPlentiful os) (c : ClientInfo) (block : Bytes)
    (w : os.World)
    → HasBuffer c block
    → c.payload_bytes_read ≤ length c.payload_buffer
    → c.partial_len + c.payload_bytes_read ≤ 2 ^ 63
    → (block' : Bytes) × (cap : ℕ) × (w' : os.World) × (append_to_client_buffer os c w
        ≡ some ((success, with_message c block' (c.partial_len + c.payload_bytes_read) cap), w'))
      × HasBuffer (with_message c block' (c.partial_len + c.payload_bytes_read) cap) block'
      × (take (c.partial_len + c.payload_bytes_read) block' ≡ message c block ++ payload c)
append_to_client_buffer-some os laws rich c block w b read small =
    let (r, c', w', run, outcome) =
      append_to_client_buffer-Appends os laws c block w b read small in
    made r c' w' run outcome
  where
    made :
        (r : Status) (c' : ClientInfo) (w' : os.World)
        → append_to_client_buffer os c w ≡ some ((r, c'), w')
        → Appends os c block b read r c'
        → (block' : Bytes) × (cap : ℕ) × (w' : os.World) × (append_to_client_buffer os c w
            ≡ some
                ((success, with_message c block' (c.partial_len + c.payload_bytes_read) cap), w'))
          × HasBuffer (with_message c block' (c.partial_len + c.payload_bytes_read) cap) block'
          × (take (c.partial_len + c.payload_bytes_read) block' ≡ message c block ++ payload c)
    made r c' w' run (appended block' cap b' content) = (block', cap, w', run, b', content)
    made r c' w' run (no_memory cap v v' e) = absurd (rich.realloc_gives block cap v v' e)

-- The steps of `finish_message`, when all succeed.
pub finish_message-some :
    (os : Os) (fuel info : ℕ) (s : Server os.World) {c d d' : ClientInfo} {copy : Option Bytes}
    {w1 w2 : os.World} {r : Status} {s1 : Server os.World}
    → s.clients info ≡ some c
    → copy_buffer os c.partial_msg c.partial_len s.world ≡ some (copy, w1)
    → process_payload os fuel info copy (record s { world = w1 }) ≡ some (success, s1)
    → s1.clients info ≡ some d
    → clear_client_buffer d s1.world ≡ some ((r, d'), w2)
    → finish_message os fuel info s
      ≡ some (success, record s1 { world = w2; clients = update s1.clients info (some d') })
unfolding finish_message
finish_message-some os fuel info s {s1 = s1} here copied run still cleared =
    rw (get_client-some info s here, ◌>>=◌, copied, run, get_client-some info s1 still, cleared)

-- The steps of `payload_complete` for the last payload of a message, when all succeed.
pub payload_complete-last :
    (os : Os) (fuel info : ℕ) (s : Server os.World) {c c1 d : ClientInfo} {w1 : os.World}
    {r : Status} {f : Server os.World}
    → s.clients info ≡ some c
    → append_to_client_buffer os c s.world ≡ some ((r, c1), w1)
    → (c.msg_done == 0) ≡ false
    → finish_message os fuel info (after s info c1 w1) ≡ some (success, f)
    → f.clients info ≡ some d
    → payload_complete os fuel info s
      ≡ some (success, record f { clients = update f.clients info (some (next_header d)) })
unfolding payload_complete
payload_complete-last os fuel info s {f = f} here run done finished still = rw (
  get_client-some info s here,
  ◌>>=◌,
  run,
  done,
  if◌then◌else◌,
  finished,
  get_client-some info f still,
)

-- The steps of `finish_message` and `payload_complete` when the message is refused.
pub finish_message-failure :
    (os : Os) (fuel info : ℕ) (s : Server os.World) {c : ClientInfo} {copy : Option Bytes}
    {w1 : os.World} {s1 : Server os.World}
    → s.clients info ≡ some c
    → copy_buffer os c.partial_msg c.partial_len s.world ≡ some (copy, w1)
    → process_payload os fuel info copy (record s { world = w1 }) ≡ some (failure, s1)
    → finish_message os fuel info s ≡ some (failure, s1)
unfolding finish_message
finish_message-failure os fuel info s here copied run =
    rw (get_client-some info s here, ◌>>=◌, copied, run)

pub payload_complete-failure :
    (os : Os) (fuel info : ℕ) (s : Server os.World) {c c1 : ClientInfo} {w1 : os.World} {r : Status}
    {f : Server os.World}
    → s.clients info ≡ some c
    → append_to_client_buffer os c s.world ≡ some ((r, c1), w1)
    → (c.msg_done == 0) ≡ false
    → finish_message os fuel info (after s info c1 w1) ≡ some (failure, f)
    → payload_complete os fuel info s ≡ some (failure, f)
unfolding payload_complete
payload_complete-failure os fuel info s here run done finished =
    rw (get_client-some info s here, ◌>>=◌, run, done, if◌then◌else◌, finished)

-- The steps when the message goes on.
pub payload_complete-more :
    (os : Os) (fuel info : ℕ) (s : Server os.World) {c c1 : ClientInfo} {w1 : os.World} {r : Status}
    → s.clients info ≡ some c
    → append_to_client_buffer os c s.world ≡ some ((r, c1), w1)
    → (c.msg_done == 0) ≡ true
    → payload_complete os fuel info s
      ≡ some (success, after (after s info c1 w1) info (next_header c1) w1)
unfolding payload_complete
payload_complete-more os fuel info s {c1 = c1} {w1 = w1} here run done =
    let there : (after s info c1 w1).clients info ≡ some c1 = rw (==_refl info) in
    rw (
      get_client-some info s here,
      ◌>>=◌,
      run,
      done,
      if◌then◌else◌,
      get_client-some info (after s info c1 w1) there,
    )

-- ===== src/Payload/Naming.antt =====
-- The first message of a client: it becomes the name by which a whisper finds the client.
use Prim.Native.Nat.{min}
use c_chat_server.Base.{
  ℕ, ◌+◌, ◌≡◌, ◌≢◌, refl, ap, sym, ◌∙◌, Bytes, [], ◌∷◌, ◌++◌, Option, some, true, false, length,
  take, drop, All, take-append-drop, append_assoc, ◌>>=◌, ==_refl, if◌then◌else◌,
}
use c_chat_server.Os.{Os, success}
use c_chat_server.Client.{ClientInfo, name_max}
use c_chat_server.Client.Buffer.{HasBuffer, message}
use c_chat_server.Client.Name.{store_client_name-take}
use c_chat_server.Text.{c_string}
use c_chat_server.Text.Strings.{c_string-append}
use c_chat_server.Server.{Server, get_client-some, update}
use c_chat_server.Payload.{process_payload, take_name}
use c_chat_server.Handlers.Target.{name_at}

-- What follows the first NUL of a field does not count.
c_string-front :
    (name s : Bytes) (n : ℕ)
    → take n name ≡ s ++ 0 ∷ []
    → All (λ b. b ≢ 0) s
    → c_string name ≡ some s
c_string-front name s n front plain =
    ap c_string (
      sym (take-append-drop n name)
      ∙ ap (λ x. x ++ drop n name) front
      ∙ append_assoc s (0 ∷ []) (drop n name))
    ∙ c_string-append s (drop n name) plain

-- For an allocated client that has no name yet, with a valid message buffer and a name field of 64
-- bytes, and a message with no NUL in its first 63 bytes: `process_payload` returns 0 with no access
-- out of bounds, whatever the copy of the message is. The client then has a name, which as a C string
-- is the message cut to its first 63 bytes; the list, the mutex and the memory at all other addresses
-- are as they were.
pub process_payload-name_at :
    (os : Os) (fuel info : ℕ) (payload_copy : Option Bytes) (s : Server os.World) (c : ClientInfo)
    (block : Bytes)
    → s.clients info ≡ some c
    → c.has_name ≡ false
    → HasBuffer c block
    → length c.name ≡ name_max
    → All (λ b. b ≢ 0) (take 63 (message c block))
    → (d : ClientInfo) × (process_payload os fuel info payload_copy s
        ≡ some (success, record s { clients = update s.clients info (some d) }))
      × (d.has_name ≡ true)
      × (name_at (record s { clients = update s.clients info (some d) }) info
          ≡ some (take 63 (message c block)))
unfolding process_payload
process_payload-name_at os fuel info payload_copy s c block here unnamed b size plain =
    let (name', run, sized, front) =
      store_client_name-take (record c { has_name = false }) block s.world same size in
    let n = min 63 c.partial_len in
    let d : ClientInfo = record c {
      partial_len = n;
      name = name';
      name_len = n;
      has_name = true;
    } in
    (
      d,
      rw (get_client-some info s here, ◌>>=◌, unnamed, if◌then◌else◌, take_name, run),
      refl,
      rw (==_refl info) (c_string-front name' (take 63 (message c block)) (n + 1) front plain),
    )
  where
    same : HasBuffer (record c { has_name = false }) block
    same = record { is_block = b.is_block; within = b.within; used = b.used; least = b.least }

-- ===== src/Payload/Returns.antt =====
-- A complete message, whatever its bytes are: `process_payload` returns, and the room is a room
-- again.
use Prim.Native.Nat.{min}
use c_chat_server.Base.{
  ℕ, ◌+◌, ◌≤◌, ◌<◌, ◌≡◌, ◌^◌, refl, arith, ap, sym, ◌∙◌, Bytes, [], ◌∷◌, ◌++◌, M, some, Bool, true,
  false, length, take, drop, take-append-drop, append_assoc, length-append, length-take, ◌>>=◌,
  ◌==◌, ==_refl, if◌then◌else◌, inl, inr, Bool-cases,
}
use c_chat_server.Os.{Os, Status, success}
use c_chat_server.Os.Laws.{IsAllocator, IsPlentiful, HasClock, IsServing}
use c_chat_server.Protocol.{header_size, msg_size_limit}
use c_chat_server.Client.{ClientInfo}
use c_chat_server.Client.Buffer.{HasBuffer, message}
use c_chat_server.Client.Name.{store_client_name-take}
use c_chat_server.Text.{c_string, strtok_r, make_lowercase}
use c_chat_server.Text.Tokens.{c_string-bound, strtok_r-some, strtok_r-bound}
use c_chat_server.Format.Lines.{length-chat, format_chat_message-line}
use c_chat_server.Server.{Server, get_client-some, update}
use c_chat_server.Broadcast.Kept.{Holds, Later, unchanged, Later-IsStable, Deliveries-Holds}
use c_chat_server.Broadcast.Rounds.{update-other, is_from, is_sender_refl, map-All, broadcast-Sends}
use c_chat_server.Broadcast.Direct.{IsDirect}
use c_chat_server.Handlers.Room.{
  IsMember, IsMember-IsStable, IsRoom, IsRoom-next, Holds-Served, server_handle_command-some,
}
use c_chat_server.Payload.{process_payload, take_name, run_command, chat, status_of}
use c_chat_server.Payload.Chat.{chat_line}

-- The client behind its message: at most its name and the length of its message are others.
abbrev pub renamed :
    ClientInfo → (len : ℕ) → (name : Bytes) → (name_len : ℕ) → (has_name : Bool) → ClientInfo
renamed c len name name_len has_name = record c {
  partial_len = len;
  name = name;
  name_len = name_len;
  has_name = has_name;
}

-- What is left behind a message.
pub record Processed {W : Type 0} (info : ℕ) (c : ClientInfo) (s s' : Server W) : Type 0 where
  pub room : IsRoom s'
  pub list : s'.client_list ≡ s.client_list
  pub moves : (q : ℕ) → Holds IsMember s q → Holds IsMember s' q
  pub others :
      (q : ℕ) → (info == q) ≡ false → (d : ClientInfo) → s.clients q ≡ some d → Holds (Later d) s' q
  pub len : ℕ
  pub name : Bytes
  pub name_len : ℕ
  pub has_name : Bool
  pub here : s'.clients info ≡ some (renamed c len name name_len has_name)
  pub shorter : len ≤ c.partial_len
  pub member : IsMember (renamed c len name name_len has_name)

-- What follows the test of the name.
abbrev said : (os : Os) (fuel info : ℕ) → ClientInfo → Bytes → M (Server os.World) Status
said os fuel info c [] = chat os fuel info c
said os fuel info c (x ∷ xs) =
    if x == b'/' then run_command os fuel info (x ∷ (xs ++ 0 ∷ [])) else chat os fuel info c

module _ (os : Os) (bound : ℕ) (serve : IsServing os bound) (direct : IsDirect os bound) (fuel : ℕ)
    (enough : msg_size_limit + bound < fuel) (laws : IsAllocator os) (rich : IsPlentiful os)
    (clock : HasClock os) (info : ℕ) (s : Server os.World) (c : ClientInfo) (block : Bytes)
    (here : s.clients info ≡ some c) (m : IsMember c) (b : HasBuffer c block) (room : IsRoom s)
    (small : c.partial_len < 2 ^ 61) where
  chat-Processed :
      (r : Status) × (s' : Server os.World) × (chat os fuel info c s ≡ some (r, s'))
      × Processed info c s s'
  unfolding chat
  chat-Processed =
      let (stamp, w1, tells, brief, plain) = clock.tells s.world in
      let (w2, r) = format_chat_message-line os laws c block s.world stamp w1 b m.named tells in
      elim r [
        | inl (e, none_made) ↦ absurd (rich.malloc_gives _ _ _ e)
        | inr run ↦
            let line = chat_line stamp c block in
            let (text, is, less) = c_string-bound line [] in
            let size = length-chat stamp (take c.name_len c.name) (message c block) in
            let within : length text ≤ length (line ++ 0 ∷ []) =
              omega (arith, less, length-append line (0 ∷ [])) in
            let fits : header_size + length text < 2 ^ 62 = omega (
              arith,
              less,
              size,
              brief,
              length-take c.name_len c.name,
              length-take c.partial_len block,
              m.sized,
              small,
            ) in
            let (s', sent, ds, sends) =
              broadcast-Sends os bound serve fuel enough laws (line ++ 0 ∷ []) (length text) within
                fits (some info) (record s { world = w2 }) room.free
                (map-All (Holds-Served s) s.client_list room.members) in
            let moves : (q : ℕ)
                → Holds IsMember s q
                → Holds IsMember (record s' { locked = false }) q =
              λ q h.
                Deliveries-Holds os bound serve fuel enough laws (line ++ 0 ∷ []) (length text)
                  within fits (some info) IsMember IsMember-IsStable ds q h in
            (
              success,
              record s' { locked = false },
              rw (run, ◌>>=◌, is, sent),
              record {
                room =
                    IsRoom-next {s = s} {s' = record s' { locked = false }} sends.list refl moves
                      room;
                list = sends.list;
                moves = moves;
                others = λ q miss d there.
                    Deliveries-Holds os bound serve fuel enough laws (line ++ 0 ∷ []) (length text)
                      within fits (some info) (Later d) (Later-IsStable d) ds q
                      (d, there, unchanged refl);
                len = c.partial_len;
                name = c.name;
                name_len = c.name_len;
                has_name = c.has_name;
                here = sends.aside info (is_from (is_sender_refl info)) ∙ here;
                shorter = omega arith;
                member = m;
              },
            )
      ]

  take_name-Processed :
      (r : Status) × (s' : Server os.World) × (take_name os fuel info c s ≡ some (r, s'))
      × Processed info c s s'
  unfolding take_name
  take_name-Processed =
      let (name', run, sized, front) = store_client_name-take c block s.world b m.sized in
      let n = min 63 c.partial_len in
      let d : ClientInfo = renamed c n name' n true in
      let ys = drop (n + 1) name' in
      let split : name' ≡ take 63 (message c block) ++ 0 ∷ ys =
        sym (take-append-drop (n + 1) name')
        ∙ ap (λ x. x ++ ys) front
        ∙ append_assoc (take 63 (message c block)) (0 ∷ []) ys in
      let (text, is, less) = c_string-bound (take 63 (message c block)) ys in
      let member : IsMember d = record {
        queue = m.queue;
        limit = m.limit;
        named = ground arith;
        sized = sized;
        ended = (text, ap c_string split ∙ is);
      } in
      let s' : Server os.World = record s { clients = update s.clients info (some d) } in
      let moves : (q : ℕ) → Holds IsMember s q → Holds IsMember s' q = λ q (e, there, v).
        elim (Bool-cases (info == q)) [
          | inl hit ↦ (d, rw hit, member)
          | inr miss ↦ (e, update-other s.clients info (some d) q miss ∙ there, v)
        ] in
      (
        success,
        s',
        rw (run, ◌>>=◌),
        record {
          room = IsRoom-next {s = s} refl room.free moves room;
          list = refl;
          moves = moves;
          others = λ q miss e there.
              (e, update-other s.clients info (some d) q miss ∙ there, unchanged refl);
          len = n;
          name = name';
          name_len = n;
          has_name = true;
          here = rw (==_refl info);
          shorter = ground arith;
          member = member;
        },
      )

  run_command-Processed :
      (xs : Bytes)
      → length xs + 130 + bound < fuel
      → (r : Status) × (s' : Server os.World) × (run_command os fuel info (b'/' ∷ (xs ++ 0 ∷ [])) s
          ≡ some (r, s'))
        × Processed info c s s'
  unfolding run_command c_string
  run_command-Processed xs enough' =
      let (u, is, less) = c_string-bound xs [] in
      let (cmd, is_cmd) = strtok_r-some b'/' u refl in
      let rest = (strtok_r (b'/' ∷ u)).1 in
      let short = strtok_r-bound (b'/' ∷ u) in
      let (k, w', over, run) =
        server_handle_command-some os bound direct fuel laws rich clock info (make_lowercase cmd)
          rest s c here m room (omega (arith, less, short, enough')) in
      (
        status_of k,
        record s { world = w'; server_shutdown = over },
        rw (is, ◌>>=◌, is_cmd, run),
        record {
          room = record { free = room.free; members = room.members };
          list = refl;
          moves = λ q h. h;
          others = λ q miss d there. (d, there, unchanged refl);
          len = c.partial_len;
          name = c.name;
          name_len = c.name_len;
          has_name = c.has_name;
          here = here;
          shorter = omega arith;
          member = m;
        },
      )

  -- The copy of a message that is handed over.
  abbrev pub message_copy : Bytes
  message_copy = message c block ++ 0 ∷ []

  -- With the sockets, the allocator and the clock as documented, memory, and more fuel than the
  -- queue's limit, or the message with 130 bytes, and the interruptions, for an allocated client
  -- with a valid message buffer below 2 ^ 61 bytes, in a room (the mutex is free, and every
  -- client of the list, and this one, has a valid queue within the limit and a name field of 64
  -- bytes with a NUL): whatever the bytes of the message are, `process_payload` on their copy
  -- returns with no access out of bounds, no use of NULL or of freed memory, and no lock of the
  -- locked mutex. The server is a room again with the same list, and of the client at most the
  -- name and the length of its message are others.
  pub process_payload-Processed :
      c.partial_len + 130 + bound < fuel
      → (r : Status) × (s' : Server os.World) × (process_payload os fuel info (some message_copy) s
          ≡ some (r, s'))
        × Processed info c s s'
  unfolding process_payload
  process_payload-Processed enough' = elim (Bool-cases c.has_name) [
    | inr unnamed ↦
        let (r, s', run, done) = take_name-Processed in (r, s', naming unnamed ∙ run, done)
    | inl named ↦
        let (r, s', run, done) =
          spoken (message c block) (omega (arith, length-take c.partial_len block, enough')) in
        (r, s', speaks named (message c block) ∙ run, done)
  ]
    where
      naming :
          c.has_name ≡ false
          → process_payload os fuel info (some message_copy) s ≡ take_name os fuel info c s
      naming unnamed = rw (get_client-some info s here, ◌>>=◌, unnamed, if◌then◌else◌)

      speaks :
          c.has_name ≡ true
          → (text : Bytes)
          → process_payload os fuel info (some (text ++ 0 ∷ [])) s ≡ said os fuel info c text s
      speaks named [] = rw (get_client-some info s here, ◌>>=◌, named, if◌then◌else◌)
      speaks named (x ∷ xs) = rw (get_client-some info s here, ◌>>=◌, named, if◌then◌else◌)

      spoken :
          (text : Bytes)
          → length text + 130 + bound < fuel
          → (r : Status) × (s' : Server os.World) × (said os fuel info c text s ≡ some (r, s'))
            × Processed info c s s'
      spoken [] h = chat-Processed
      spoken (x ∷ xs) h = elim (Bool-cases (x == b'/')) [
        | inr miss ↦
            let (r, s', run, done) = chat-Processed in (r, s', rw (miss, if◌then◌else◌) run, done)
        | inl hit ↦
            let e : x ≡ b'/' = ground arith in
            let (r, s', run, done) = run_command-Processed xs (omega (arith, h)) in
            (
              r,
              s',
              rw (hit, if◌then◌else◌)
                  (ap (λ y. run_command os fuel info (y ∷ (xs ++ 0 ∷ [])) s) e ∙ run),
              done,
            )
      ]

-- ===== src/Reader/Complete.antt =====
use mathlib.Core.Path.{subst}
-- A complete payload: it goes behind the message, and the last one of a message sends the line of
-- the whole message.
use c_chat_server.Base.{
  ℕ, ◌+◌, ◌≤◌, ◌<◌, ◌≡◌, ◌≢◌, ◌^◌, refl, arith, ap, sym, ◌∙◌, Bytes, [], ◌∷◌, ◌++◌, Option, some,
  true, false, length, take, All, All-append, ◌==◌, ==_refl, length-take, get_elem?,
}
use c_chat_server.Os.{Os, success}
use c_chat_server.Os.Laws.{IsAllocator, IsPlentiful, HasClock, IsServing}
use c_chat_server.Protocol.{header_size, msg_size_limit}
use c_chat_server.Client.{ClientInfo, read_header, buf_size, append_to_client_buffer}
use c_chat_server.Client.Buffer.{HasBuffer, message, payload, clear_client_buffer-empty}
use c_chat_server.Text.{copy_buffer}
use c_chat_server.Payload.{process_payload}
use c_chat_server.Text.Copies.{copy_buffer-take}
use c_chat_server.Format.{format_chat_message}
use c_chat_server.Format.Lines.{concat, chat_pieces, length-chat}
use c_chat_server.Server.{Server, update}
use c_chat_server.Queue.Content.{IsQueue}
use c_chat_server.Broadcast.Rounds.{
  Served, Deliveries, is_from, out_header, after, same_queue-Served, is_sender_refl, map-All,
}
use c_chat_server.Payload.Chat.{chat_line, line_within, process_payload-Deliveries}
use c_chat_server.Reader.Finish.{
  with_message, append_to_client_buffer-some, finish_message-some, payload_complete-last,
}
use c_chat_server.Reader.{payload_complete, finish_message, next_header}

-- The line of a text without NULs has none, and its length.
chat_pieces-plain :
    (stamp name text : Bytes)
    → All (λ b. b ≢ 0) stamp
    → All (λ b. b ≢ 0) name
    → All (λ b. b ≢ 0) text
    → All (λ b. b ≢ 0) (concat (chat_pieces stamp name text))
chat_pieces-plain stamp name text s n t =
    All-append _ stamp (32 ∷ (name ++ (b':' ∷ 32 ∷ (text ++ (10 ∷ []))))) s (
      (λ e. omega arith),
      All-append _ name (b':' ∷ 32 ∷ (text ++ (10 ∷ []))) n (
        (λ e. omega arith),
        ((λ e. omega arith), All-append _ text (10 ∷ []) t ((λ e. omega arith), tt)),
      ),
    )

-- The first byte of a string with its NUL.
first_of :
    (text : Bytes)
    → get_elem? text 0 ≢ some b'/'
    → (b : ℕ) × (rest : Bytes) × (text ++ 0 ∷ [] ≡ b ∷ rest) × (b ≢ b'/')
first_of [] ne = (0, [], refl, λ e. omega arith)
first_of (x ∷ xs) ne = (x, xs ++ 0 ∷ [], refl, λ e. ne (ap some e))

-- A named client that is about to get a last payload: its message with that payload is a text and
-- no command.
pub record IsTalking (c : ClientInfo) (block : Bytes) : Type 0 where
  pub buffered : HasBuffer c block
  pub read : c.payload_bytes_read ≤ length c.payload_buffer
  pub small : c.partial_len + c.payload_bytes_read < 2 ^ 61
  pub last : c.msg_done ≢ 0
  pub has_name : c.has_name ≡ true
  pub named : c.name_len ≤ length c.name
  pub short : length c.name ≤ 64
  pub name_plain : All (λ b. b ≢ 0) (take c.name_len c.name)
  pub text_plain : All (λ b. b ≢ 0) (message c block ++ payload c)
  pub no_command : get_elem? (message c block ++ payload c) 0 ≢ some b'/'
  pub queue : IsQueue c.msg_queue
  pub limit : c.msg_queue.queued_bytes ≤ msg_size_limit

-- The client behind the message: its buffer is empty, and it waits for the next header.
abbrev pub idle : ClientInfo → Bytes → ClientInfo
idle c block = record c {
  partial_msg = some block;
  partial_len = 0;
  partial_cap = buf_size;
  state = read_header;
  header_bytes_read = 0;
  expected_payload_len = 0;
}

module _ (os : Os) (bound : ℕ) (serve : IsServing os bound) (fuel : ℕ)
    (enough : msg_size_limit + bound < fuel) (laws : IsAllocator os) (rich : IsPlentiful os)
    (clock : HasClock os) where
  -- The line of a whole message, built from `s`, goes out to the other open clients in the world
  -- that building it leaves, and the deliveries end in the world of `f`.
  pub record Spoken (info : ℕ) (name text : Bytes) (s f : Server os.World) : Type 0 where
    pub stamp : Bytes
    pub line : Bytes
    pub is_line : line ≡ concat (chat_pieces stamp name text)
    pub small : header_size + length line < 2 ^ 62
    pub sender : ClientInfo
    pub here : s.clients info ≡ some sender
    pub copy : Option Bytes
    pub v : os.World
    pub copied : copy_buffer os sender.partial_msg sender.partial_len s.world ≡ some (copy, v)
    pub w : os.World
    pub formatted : format_chat_message os sender v ≡ some (some (line ++ 0 ∷ []), w)
    pub s' : Server os.World
    pub deliveries :
        Deliveries os bound serve fuel enough laws
          (line ++ 0 ∷ [])
          (length line)
          (line_within line)
          small
          (some info)
          (out_header os.byte_order (length line))
          s.client_list
          (record s { world = w; locked = true })
          s'
    pub world : f.world ≡ s'.world
    pub list : f.client_list ≡ s.client_list
    pub free : f.locked ≡ false
    pub served : (q : ℕ) → Served s q → Served f q
    pub others : (q : ℕ) → (info == q) ≡ false → f.clients q ≡ s'.clients q

  -- The message of a talking client goes out.
  speak :
      (info : ℕ) (s : Server os.World) (c : ClientInfo) (block : Bytes)
      → s.clients info ≡ some c
      → HasBuffer c block
      → c.partial_len < 2 ^ 61
      → c.has_name ≡ true
      → c.name_len ≤ length c.name
      → length c.name ≤ 64
      → All (λ b. b ≢ 0) (take c.name_len c.name)
      → All (λ b. b ≢ 0) (message c block)
      → get_elem? (message c block) 0 ≢ some b'/'
      → s.locked ≡ false
      → All (Served s) s.client_list
      → (block' : Bytes) × (f : Server os.World) × (finish_message os fuel info s
          ≡ some (success, f))
        × (f.clients info ≡ some (with_message c block' 0 buf_size))
        × HasBuffer (with_message c block' 0 buf_size) block'
        × Spoken info (take c.name_len c.name) (message c block) s f
  speak info s c block here b small has_name named short name_plain text_plain no_command free h =
      let (w1, copied) =
        copy_buffer-take os laws rich block c.partial_len s.world
          (omega (arith, b.within, b.used)) in
      let (x, rest, begins, other) = first_of (message c block) no_command in
      let (stamp, w2, tells, brief, stamp_plain) = clock.tells w1 in
      let line = chat_line stamp c block in
      let plain =
        chat_pieces-plain stamp (take c.name_len c.name) (message c block) stamp_plain name_plain
          text_plain in
      let fits : header_size + length line < 2 ^ 62 = omega (
        arith,
        length-chat stamp (take c.name_len c.name) (message c block),
        length-take c.name_len c.name,
        length-take c.partial_len block,
      ) in
      let (w3, s', run, made, ds, sends) =
        process_payload-Deliveries os bound serve fuel enough laws info (record s { world = w1 }) c
          block x rest stamp w2 here has_name b named other tells (λ v e. rich.malloc_gives _ _ v e)
          plain fits free h in
      let still : s'.clients info ≡ some c =
        sends.aside info (is_from (is_sender_refl info)) ∙ here in
      let (block', cleared, b', _) = clear_client_buffer-empty c block s'.world b in
      let f : Server os.World = record s' {
        locked = false;
        clients = update s'.clients info (some (with_message c block' 0 buf_size));
      } in
      (
        block',
        f,
        finish_message-some os fuel info s here
            (ap (λ m. copy_buffer os m c.partial_len s.world) b.is_block ∙ copied)
            (ap (λ m. process_payload os fuel info (some m) (record s { world = w1 })) begins ∙ run)
            still cleared,
        rw (==_refl info),
        b',
        record {
          stamp = stamp;
          line = line;
          is_line = refl;
          small = fits;
          sender = c;
          here = here;
          copy = some (message c block ++ 0 ∷ []);
          v = w1;
          copied = ap (λ m. copy_buffer os m c.partial_len s.world) b.is_block ∙ copied;
          w = w3;
          formatted = made;
          world = refl;
          s' = s';
          deliveries = ds;
          list = sends.list;
          free = refl;
          served = λ q a.
              same_queue-Served s' info c (with_message c block' 0 buf_size) s'.world still refl q
                (sends.served q a);
          others = λ q ne. rw ne;
        },
      )

  -- With the sockets and the allocator as documented, memory and a clock, fuel for the queues,
  -- for a client that talks (it has a name, and its message with the payload just read, which is
  -- the last one, is a text without NUL that does not begin with a slash), the mutex free, and
  -- every client of the list allocated with a valid queue within the limit: `payload_complete`
  -- returns 0 with no access out of bounds. The line of the whole message, which is all its
  -- payloads put together, is built, and then delivered to each other open client of the list in
  -- turn, and the world that the last delivery leaves is the one at the end. The
  -- client's buffer is empty again and it waits for the next header, the list is as it was, the
  -- mutex is free, and all queues are valid and within the limit.
  pub payload_complete-Spoken :
      (info : ℕ) (s : Server os.World) (c : ClientInfo) (block : Bytes)
      → s.clients info ≡ some c
      → IsTalking c block
      → s.locked ≡ false
      → All (Served s) s.client_list
      → (c1 : ClientInfo) × (w1 : os.World) × (block' : Bytes) × (f : Server os.World)
        × (append_to_client_buffer os c s.world ≡ some ((success, c1), w1))
        × (payload_complete os fuel info s
            ≡ some (success, record f { clients = update f.clients info (some (idle c block')) }))
        × HasBuffer (idle c block') block'
        × Spoken info (take c.name_len c.name) (message c block ++ payload c) (after s info c1 w1) f
  unfolding next_header
  payload_complete-Spoken info s c block here t free h =
      let (block1, cap, w1, run, b1, text) =
        append_to_client_buffer-some os laws rich c block s.world t.buffered t.read
          (omega (arith, t.small)) in
      let c1 : ClientInfo = with_message c block1 (c.partial_len + c.payload_bytes_read) cap in
      let (block', f, finished, still, b', spoken) =
        speak info (after s info c1 w1) c1 block1 (rw (==_refl info)) b1 t.small t.has_name t.named
          t.short t.name_plain (subst (All (λ x. x ≢ 0)) (sym text) t.text_plain)
          (subst (λ x. get_elem? x 0 ≢ some b'/') (sym text) t.no_command) free
          (map-All (same_queue-Served s info c c1 w1 here refl) s.client_list h) in
      (
        c1,
        w1,
        block',
        f,
        run,
        payload_complete-last os fuel info s here run (ground (arith, t.last)) finished still,
        record { is_block = refl; within = b'.within; used = b'.used; least = b'.least },
        subst (λ x. Spoken info (take c.name_len c.name) x (after s info c1 w1) f) text spoken,
      )

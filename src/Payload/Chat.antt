-- ===== src/Payload/Chat.antt =====
-- A message of a client that has a name: its line goes to every other open client.
use c_chat_server.Base.{
  ℕ, ◌+◌, ◌≤◌, ◌<◌, ◌≡◌, ◌≢◌, ◌^◌, arith, Bytes, [], ◌∷◌, ◌++◌, some, none, true, false, length,
  take, All, ◌>>=◌, ◌==◌, if◌then◌else◌, length-append, inl, inr, ◌⊎◌,
}
use c_chat_server.Os.{Os, success}
use c_chat_server.Os.Laws.{IsAllocator, IsServing}
use c_chat_server.Protocol.{header_size, msg_size_limit}
use c_chat_server.Client.{ClientInfo}
use c_chat_server.Client.Buffer.{HasBuffer, message}
use c_chat_server.Text.Strings.{c_string-append}
use c_chat_server.Format.{format_chat_message}
use c_chat_server.Format.Lines.{concat, chat_pieces, format_chat_message-line}
use c_chat_server.Server.{Server, get_client-some}
use c_chat_server.Broadcast.Rounds.{Served, Sends, Deliveries, out_header, broadcast-Sends}
use c_chat_server.Payload.{process_payload, chat}

-- The line of a message.
abbrev pub chat_line : Bytes → ClientInfo → Bytes → Bytes
chat_line stamp c block = concat (chat_pieces stamp (take c.name_len c.name) (message c block))

-- The line with the NUL behind it has room for the line.
pub line_within : (line : Bytes) → length line ≤ length (line ++ 0 ∷ [])
line_within line = omega (arith, length-append line (0 ∷ []))

module _ (os : Os) (bound : ℕ) (serve : IsServing os bound) (fuel : ℕ)
    (enough : msg_size_limit + bound < fuel) (laws : IsAllocator os) where
  -- With the sockets and the allocator as documented and fuel for the queues, for an allocated
  -- client that has a name inside its field and a valid message buffer, a copy of its message
  -- that does not begin with a slash, a clock, memory for the line, a line that has no NUL in it
  -- and is below 2 ^ 62 bytes with its header, the mutex free, and every client of the list
  -- allocated with a valid queue within the limit: `process_payload` returns 0 with no access out
  -- of bounds and the mutex free again. In the order of the list, one delivery is made to each
  -- client that is neither the sender nor closed by then, and what is delivered is exactly the
  -- time, a space, the name, a colon, a space, the message and a newline. All queues are valid
  -- and within the limit again, and the sender and the closed clients are left as they were.
  pub process_payload-Deliveries :
      (info : ℕ) (s : Server os.World) (c : ClientInfo) (block : Bytes) (b : ℕ) (rest stamp : Bytes)
      (w1 : os.World)
      → s.clients info ≡ some c
      → c.has_name ≡ true
      → HasBuffer c block
      → c.name_len ≤ length c.name
      → b ≢ b'/'
      → os.local_time s.world ≡ (some stamp, w1)
      → ((w2 : os.World)
          → os.malloc (length stamp + 1 + c.name_len + 2 + c.partial_len + 2) w1 ≢ (none, w2))
      → All (λ x. x ≢ 0) (chat_line stamp c block)
      → (small : header_size + length (chat_line stamp c block) < 2 ^ 62) → s.locked ≡ false
      → All (Served s) s.client_list
      → (w2 : os.World) × (s' : Server os.World) × (process_payload os fuel info (some (b ∷ rest)) s
          ≡ some (success, record s' { locked = false }))
        × (format_chat_message os c s.world ≡ some (some (chat_line stamp c block ++ 0 ∷ []), w2))
        × Deliveries os bound serve fuel enough laws
            (chat_line stamp c block ++ 0 ∷ [])
            (length (chat_line stamp c block))
            (line_within (chat_line stamp c block))
            small
            (some info)
            (out_header os.byte_order (length (chat_line stamp c block)))
            s.client_list
            (record s { world = w2; locked = true })
            s'
        × Sends (some info) s.client_list (record s { world = w2 }) s'
  unfolding process_payload
  process_payload-Deliveries info s c block b rest stamp w1 here named buf fits other clock memory
        plain small free h =
      let (w2, r) = format_chat_message-line os laws c block s.world stamp w1 buf fits clock in
      let run = formatted w2 r in
      let (s', sent, ds, sends) =
        broadcast-Sends os bound serve fuel enough laws (line ++ 0 ∷ []) (length line)
          (line_within line) small (some info) (record s { world = w2 }) free h in
      (w2, s', rw (speaks, chat, ◌>>=◌, run, c_string-append line [] plain, sent), run, ds, sends)
    where
      line : Bytes
      line = chat_line stamp c block

      miss : (b == b'/') ≡ false
      miss = ground (arith, other)

      speaks : process_payload os fuel info (some (b ∷ rest)) s ≡ chat os fuel info c s
      speaks = rw (get_client-some info s here, ◌>>=◌, named, miss, if◌then◌else◌)

      formatted :
          (w2 : os.World)
          → ((os.malloc (length stamp + 1 + c.name_len + 2 + c.partial_len + 2) w1 ≡ (none, w2))
              × (format_chat_message os c s.world ≡ some (none, w2)))
            ⊎ (format_chat_message os c s.world ≡ some (some (line ++ 0 ∷ []), w2))
          → format_chat_message os c s.world ≡ some (some (line ++ 0 ∷ []), w2)
      formatted w2 (inl (e, run)) = absurd (memory w2 e)
      formatted w2 (inr run) = run

-- ===== src/Handlers/Whisper.antt =====
-- What a whisper comes to.
use mathlib.Core.Option.{some-injective}
use c_chat_server.Base.{
  ℕ, ◌+◌, ◌≤◌, ◌<◌, ◌≡◌, ◌≢◌, refl, arith, ap, sym, ◌∙◌, Bytes, [], ◌∷◌, ◌++◌, Option, some, none,
  length, take, drop, take-all, take-append-drop, append_assoc, length-append, length-take, All,
  ◌>>=◌, inl, inr,
}
use c_chat_server.Os.{Os, Count, success, failure}
use c_chat_server.Os.Laws.{IsAllocator, IsPlentiful, HasClock}
use c_chat_server.Protocol.{msg_type_normal}
use c_chat_server.Client.{ClientInfo}
use c_chat_server.Transfer.Sending.{Sent}
use c_chat_server.Text.{c_string, strtok_r}
use c_chat_server.Text.Tokens.{
  strtok_r-bound, take-c_string, c_string-behind, c_string-bound, strtok_r-rest,
}
use c_chat_server.Command.{CmdRes, cmd_ok, cmd_error, cmd_warning}
use c_chat_server.Format.{format_whisper_message}
use c_chat_server.Format.Lines.{concat, whisper_pieces, length-whisper, format_whisper_message-line}
use c_chat_server.Server.{Server, get_client-some}
use c_chat_server.Broadcast.Direct.{
  IsDirect, direct_header, sent_status, client_send_direct_message-Sent,
}
use c_chat_server.Handlers.{handle_whisper, send_whisper, find_target}
use c_chat_server.Handlers.Target.{Found, first, nobody, name_at, named-client, find_target-Found}

-- What the handler makes of the result of the message.
abbrev pub whisper_result : Count → CmdRes
whisper_result (Count.count n) = cmd_ok
whisper_result Count.error = cmd_error

module _ (os : Os) (bound : ℕ) (direct : IsDirect os bound) where
  -- No text: a warning. Nobody of that name: a warning. Else the line, cut at its first NUL, goes
  -- to the first client of the list that has the name, as one frame.
  pub data Whispers (c : ClientInfo) (saveptr : Bytes) (s : Server os.World) (r : CmdRes)
      (s' : Server os.World) : Type 0 where
    no_text : (strtok_r saveptr).1 ≡ [] → r ≡ cmd_warning → s' ≡ s → Whispers c saveptr s r s'
    no_target :
        (target : Bytes)
        → (strtok_r saveptr).0 ≡ some target
        → All (λ q. name_at s q ≢ some target) s.client_list
        → r ≡ cmd_warning
        → s' ≡ s
        → Whispers c saveptr s r s'
    whispered :
        (target : Bytes) (p : ℕ) (d : ClientInfo) (stamp line text : Bytes) (count : Count)
        (w w' : os.World)
        → (strtok_r saveptr).0 ≡ some target
        → Found s target s.client_list (some p)
        → s.clients p ≡ some d
        → c_string
            (concat (whisper_pieces stamp (take c.name_len c.name) (strtok_r saveptr).1) ++ 0 ∷ [])
          ≡ some text
        → take (length text) line ≡ text
        → format_whisper_message os c (strtok_r saveptr).1 (length (strtok_r saveptr).1) s.world
          ≡ some (some line, w)
        → Sent os
            (direct.out d.client_fd)
            (direct_header os.byte_order msg_type_normal (length text))
            line
            (length text)
            w
            w'
            count
        → r ≡ whisper_result count
        → s' ≡ record s { world = w' }
        → Whispers c saveptr s r s'

  module _ (fuel : ℕ) (laws : IsAllocator os) (rich : IsPlentiful os) (clock : HasClock os) where
    send_whisper-Sent :
        (c d : ClientInfo) (p : ℕ) (msg : Bytes) (s : Server os.World)
        → s.clients p ≡ some d
        → c.name_len ≤ length c.name
        → length c.name ≤ 64
        → length msg + 128 + bound < fuel
        → (stamp line text : Bytes) × (r : Count) × (w w' : os.World) × (send_whisper os fuel c p
              msg s
            ≡ some (whisper_result r, record s { world = w' }))
          × (c_string (concat (whisper_pieces stamp (take c.name_len c.name) msg) ++ 0 ∷ [])
              ≡ some text)
          × (take (length text) line ≡ text)
          × (format_whisper_message os c msg (length msg) s.world ≡ some (some line, w))
          × Sent os
              (direct.out d.client_fd)
              (direct_header os.byte_order msg_type_normal (length text))
              line
              (length text)
              w
              w'
              r
    unfolding send_whisper
    send_whisper-Sent c d p msg s there named short enough =
        let (stamp, w1, tells, brief, plain) = clock.tells s.world in
        let all : take (length msg) msg ≡ msg = take-all (length msg) msg (omega arith) in
        let (w2, r) =
          format_whisper_message-line os laws c msg (length msg) s.world stamp w1 named
            (omega arith) tells in
        elim r [
          | inl (e, none_made) ↦ absurd (rich.malloc_gives _ _ _ e)
          | inr (line, made, front) ↦
              let full =
                concat (whisper_pieces stamp (take c.name_len c.name) (take (length msg) msg)) in
              let ys = drop (length full + 1) line in
              let split : line ≡ full ++ 0 ∷ ys =
                sym (take-append-drop (length full + 1) line)
                ∙ ap (λ x. x ++ ys) front
                ∙ append_assoc full (0 ∷ []) ys in
              let (text, is, less) = c_string-bound full ys in
              let string : c_string line ≡ some text = ap c_string split ∙ is in
              let whole : c_string (full ++ 0 ∷ []) ≡ some text =
                sym (c_string-behind full ys) ∙ is in
              let size : length full
                  ≡ length stamp
                    + 16
                    + length (take c.name_len c.name)
                    + 3
                    + length (take (length msg) msg)
                    + 1 =
                length-whisper stamp (take c.name_len c.name) (take (length msg) msg) in
              let room : length full < length line =
                omega (arith, ap length split, length-append full (0 ∷ ys)) in
              let (k, w', sent, frame) =
                client_send_direct_message-Sent os (direct.out d.client_fd) fuel bound
                  (direct.calm d.client_fd) line (length text) w2 (omega (arith, less, room))
                  (omega (
                    arith,
                    less,
                    size,
                    brief,
                    length-take c.name_len c.name,
                    length-take (length msg) msg,
                    enough,
                    short,
                  )) in
              (
                stamp,
                line,
                text,
                k,
                w2,
                w',
                rw (made, ◌>>=◌, string, get_client-some p (record s { world = w2 }) there, sent)
                    (ap (λ x. some (x, record s { world = w' })) (result k)),
                ap
                      (λ m.
                        c_string
                          (concat (whisper_pieces stamp (take c.name_len c.name) m) ++ 0 ∷ []))
                      (sym all)
                    ∙ whole,
                take-c_string line text string,
                made,
                frame,
              )
        ]
      where
        result :
            (k : Count)
            → elim (sent_status k) [ failure ↦ cmd_error | success ↦ cmd_ok ] ≡ whisper_result k
        result (Count.count n) = refl
        result Count.error = refl

    -- With memory, a clock and sockets for direct messages whose calls are interrupted finitely
    -- often, with more fuel than the string of the command, 128 bytes and the interruptions,
    -- for a sender with a name inside its field of at most 64 bytes, and when every client of
    -- the list is allocated and has a name that ends in a NUL inside its field:
    -- `handle_whisper` returns with no access out of bounds and changes nothing but the world.
    -- It gives a warning, and sends nothing, when there is no text behind the target or no
    -- client has the name. Else the whisper line of the sender and the text, cut at its first
    -- NUL, goes as one frame to the first client of the list that has the name: it is sent
    -- whole and the result is CMD_OK; or only the part that the calls of `write` took before
    -- one of them failed, and the result is CMD_ERROR, or before one took no byte.
    pub handle_whisper-Whispers :
        (user : ℕ) (saveptr : Bytes) (s : Server os.World) (c : ClientInfo)
        → s.clients user ≡ some c
        → c.name_len ≤ length c.name
        → length c.name ≤ 64
        → All (λ p. (n : Bytes) × (name_at s p ≡ some n)) s.client_list
        → length saveptr + 128 + bound < fuel
        → (r : CmdRes) × (s' : Server os.World) × (handle_whisper os fuel user saveptr s
            ≡ some (r, s'))
          × Whispers c saveptr s r s'
    unfolding handle_whisper
    handle_whisper-Whispers user saveptr s c here named short names enough =
        case (strtok_r saveptr).1 refl
      where
        look_up :
            (b : ℕ) (bs : Bytes)
            → (strtok_r saveptr).1 ≡ b ∷ bs
            → (target : Bytes) → (strtok_r saveptr).0 ≡ some target
            → (found : Option ℕ)
            → find_target os fuel (strtok_r saveptr).0 s.client_list s ≡ some (found, s)
            → Found s target s.client_list found
            → (r : CmdRes) × (s' : Server os.World) × (handle_whisper os fuel user saveptr s
                ≡ some (r, s'))
              × Whispers c saveptr s r s'
        look_up b bs e target is none run there = (
          cmd_warning,
          s,
          rw (handle_whisper, e, ◌>>=◌, run),
          no_target target is (others there) refl refl,
        )
          where
            others :
                Found s target s.client_list none
                → All (λ q. name_at s q ≢ some target) s.client_list
            others (nobody f h) = h
            others (first before after p f split h here') = absurd (cc f)
        look_up b bs e target is (some p) run there =
            let (n, d, at) = at_target there in
            let (stamp, line, text, k, w, w', sends, content, whole, made, frame) =
              send_whisper-Sent c d p (b ∷ bs) s at named short
                (omega (arith, strtok_r-bound saveptr, ap length e, enough)) in
            (
              whisper_result k,
              record s { world = w' },
              rw (handle_whisper, e, ◌>>=◌, run, get_client-some user s here) sends,
              whispered target p d stamp line text k w w' is there at
                  (ap
                      (λ m.
                        c_string
                          (concat (whisper_pieces stamp (take c.name_len c.name) m) ++ 0 ∷ []))
                      e
                    ∙ content)
                  whole (ap (λ m. format_whisper_message os c m (length m) s.world) e ∙ made) frame
                  refl refl,
            )
          where
            at_target :
                Found s target s.client_list (some p)
                → (n : Bytes) × (d : ClientInfo) × (s.clients p ≡ some d)
            at_target (nobody f h) = absurd (cc f)
            at_target (first before after q f split h here') =
                let same : p ≡ q = some-injective _ _ f in
                let (d, is, named) = named-client s q here' in (target, d, ap s.clients same ∙ is)

        case :
            (msg : Bytes)
            → (strtok_r saveptr).1 ≡ msg
            → (r : CmdRes) × (s' : Server os.World) × (handle_whisper os fuel user saveptr s
                ≡ some (r, s'))
              × Whispers c saveptr s r s'
        case [] e = (cmd_warning, s, rw (handle_whisper, e), no_text e refl refl)
        case (b ∷ bs) e =
            let (target, is) = strtok_r-rest saveptr b bs e in
            let (found, run, first_there) =
              find_target-Found os fuel s target s.client_list names in
            let run' : find_target os fuel (strtok_r saveptr).0 s.client_list s ≡ some (found, s) =
              ap (λ t. find_target os fuel t s.client_list s) is ∙ run in
            look_up b bs e target is found run' first_there

-- ===== src/Reader/Chunks.antt =====
-- The reader over a sequence of reads: however the stream is cut, the frames are those of its bytes.
use mathlib.Core.Path.{subst}
use mathlib.Core.Option.{some-injective}
use c_chat_server.Base.{
  Option-cases, ℕ, ◌≤◌, ◌<◌, ◌≡◌, refl, arith, Bytes, List, [], ◌∷◌, ◌++◌, Option, some, none,
  length, take, All, inl, inr, leb, leb→le, if◌then◌else◌, Bool-cases, append-nil, append_assoc,
  length-append, length-take, ap, ◌∙◌, sym,
}
use c_chat_server.Os.{Endian, ok, success, failure}
use c_chat_server.Protocol.{header_size}
use c_chat_server.Client.{ClientInfo, ReadState, read_header, read_payload}
use c_chat_server.Reader.{Round, stop, next, complete, receive, wanted, next_header}
use c_chat_server.Reader.Decode.{
  Frame, IsFrame, encode, decode, decode-encode, announced, announced-append, IsPartial,
}
use c_chat_server.Reader.Position.{IsReader, IsParsed, Position, held, held_in}
use c_chat_server.Reader.Frames.{Received, grows, completes, ends, too_long, receive-Received}

-- The frame that a complete payload belongs to.
abbrev pub frame_of : ClientInfo → Frame
frame_of c = record {
  header = c.header_buffer;
  payload = take c.payload_bytes_read c.payload_buffer;
}

none_ne : {A : Type 0} {a : A} → ◌≡◌ {A = Option A} none (some a) → ⊥
none_ne h = cc

pub resume :
    (ClientInfo → Option (List Frame × ClientInfo))
    → Round
    → ClientInfo
    → Option (List Frame × ClientInfo)
resume more (stop failure) d = none
resume more (stop success) d = more d
resume more next d = more d
resume more complete d = elim (more (next_header d)) [
  | none ↦ none
  | some (fs, e) ↦ some (frame_of d ∷ fs, e)
]

-- The rounds of the loop, and of the later calls of it, on the chunks that `read` hands out: the
-- frames that were completed and the client at the end. `none` if the client is given up, or a
-- chunk is longer than asked for.
unfoldable pub feed : Endian → ClientInfo → List Bytes → Option (List Frame × ClientInfo)
unfolding resume
feed order c [] = some ([], c)
feed order c (xs ∷ rest) =
    let more : Option (List Frame × ClientInfo) = elim (receive order c (ok xs)) [
      | none ↦ none
      | some (r, d) ↦ resume (λ e. feed order e rest) r d
    ] in
    if leb (length xs) (wanted c) then more else none

abbrev pub flatten : List Bytes → Bytes
flatten [] = []
flatten (xs ∷ rest) = xs ++ flatten rest

-- The client does not stand right before the end of a frame with no payload left to read.
abbrev pub IsWaiting : ClientInfo → ReadState → Type 0
IsWaiting c read_header = Unit {0}
IsWaiting c read_payload = c.payload_bytes_read < c.expected_payload_len

frame_of-IsFrame :
    (order : Endian) (d : ClientInfo)
    → IsReader order d
    → d.state ≡ read_payload
    → d.payload_bytes_read ≡ d.expected_payload_len
    → IsFrame order (frame_of d)
unfolding announced
frame_of-IsFrame order d v here all =
    let before : (d.payload_bytes_read ≤ d.expected_payload_len) × IsParsed order d =
      subst (Position order d) here v.position in
    record {
      header_sized = v.header_sized;
      payload_sized = omega (
        arith,
        length-take d.payload_bytes_read d.payload_buffer,
        before.1.limit,
        before.1.len,
        v.payload_sized,
      );
    }

next_header-IsReader :
    (order : Endian) (d : ClientInfo) → IsReader order d → IsReader order (next_header d)
unfolding next_header
next_header-IsReader order d v = record {
  header_sized = v.header_sized;
  payload_sized = v.payload_sized;
  position = omega arith;
}

next_header-held : (d : ClientInfo) → held (next_header d) ≡ []
unfolding next_header
next_header-held d = refl

-- What the frames of a run and what is held at its end are made of.
pub record Framed (order : Endian) (stream : Bytes) (r : List Frame × ClientInfo) : Type 0 where
  pub frames : All (IsFrame order) r.0
  pub reader : IsReader order r.1
  pub bytes : stream ≡ encode r.0 ++ held r.1

module _ (order : Endian) (rest : Bytes) (more : ClientInfo → Option (List Frame × ClientInfo))
    (ih : (e : ClientInfo) (r : List Frame × ClientInfo)
      → IsReader order e
      → more e ≡ some r
      → Framed order (held e ++ rest) r)
    (c : ClientInfo) (xs : Bytes) (res : List Frame × ClientInfo) where
  regroup : (d : ClientInfo) → held d ≡ held c ++ xs → held d ++ rest ≡ held c ++ (xs ++ rest)
  regroup d e = ap (λ x. x ++ rest) e ∙ append_assoc (held c) xs rest

  go_on :
      (d : ClientInfo)
      → IsReader order d
      → held d ≡ held c ++ xs
      → more d ≡ some res
      → Framed order (held c ++ (xs ++ rest)) res
  go_on d v e run = subst (λ x. Framed order x res) (regroup d e) (ih d res v run)

  close_frame :
      (d : ClientInfo)
      → IsReader order d
      → d.state ≡ read_payload
      → d.payload_bytes_read ≡ d.expected_payload_len
      → held d ≡ held c ++ xs
      → (r : List Frame × ClientInfo) → more (next_header d) ≡ some r
      → Framed order (held c ++ (xs ++ rest)) (frame_of d ∷ r.0, r.1)
  close_frame d v here all e r run =
      let tail = ih (next_header d) r (next_header-IsReader order d v) run in
      record {
        frames = (frame_of-IsFrame order d v here all, tail.frames);
        reader = tail.reader;
        bytes =
            sym (regroup d e)
            ∙ ap (λ x. x ++ rest) (ap (held_in d) here)
            ∙ append_assoc d.header_buffer (take d.payload_bytes_read d.payload_buffer) rest
            ∙ ap (λ x. d.header_buffer ++ (take d.payload_bytes_read d.payload_buffer ++ x))
                (ap (λ x. x ++ rest) (sym (next_header-held d)) ∙ tail.bytes)
            ∙ ap (λ x. d.header_buffer ++ x)
                (sym (
                  append_assoc (take d.payload_bytes_read d.payload_buffer) (encode r.0)
                    (held r.1)))
            ∙ sym (
                append_assoc d.header_buffer
                  (take d.payload_bytes_read d.payload_buffer ++ encode r.0) (held r.1));
      }

  resume-Framed :
      (r : Round) (d : ClientInfo)
      → Received order c xs r d
      → resume more r d ≡ some res
      → Framed order (held c ++ (xs ++ rest)) res
  unfolding resume
  resume-Framed r d (grows (inl (e, _)) v h) run =
      go_on d v h (subst (λ t. resume more t d ≡ some res) e run)
  resume-Framed r d (grows (inr (e, _)) v h) run =
      go_on d v h (subst (λ t. resume more t d ≡ some res) e run)
  resume-Framed r d (ends e here nil) run =
      absurd (none_ne (subst (λ t. resume more t d ≡ some res) e run))
  resume-Framed r d (too_long e at all h over) run =
      absurd (none_ne (subst (λ t. resume more t d ≡ some res) e run))
  resume-Framed r d (completes e v here all h) run =
      let run' : resume more complete d ≡ some res =
        subst (λ t. resume more t d ≡ some res) e run in
      elim (Option-cases (more (next_header d))) [
        | inl nothing ↦ absurd (none_ne (rw (nothing, resume) at run'))
        | inr (t, found) ↦
            subst (Framed order (held c ++ (xs ++ rest)))
              (some-injective _ _ (rw (found, resume) at run')) (close_frame d v here all h t found)
      ]

feed-Framed :
    (order : Endian) (chunks : List Bytes) (c : ClientInfo) (r : List Frame × ClientInfo)
    → IsReader order c
    → feed order c chunks ≡ some r
    → Framed order (held c ++ flatten chunks) r
unfolding feed
feed-Framed order [] c r v run =
    subst (Framed order (held c ++ [])) (some-injective _ _ run)
      (record { frames = tt; reader = v; bytes = append-nil (held c) })
feed-Framed order (xs ∷ rest) c r v run = elim (Bool-cases (leb (length xs) (wanted c))) [
  | inr long ↦ absurd (none_ne (rw long at run))
  | inl short ↦
      let (t, d, round, received) = receive-Received order c xs v (leb→le _ _ short) in
      resume-Framed order (flatten rest) (λ e. feed order e rest)
        (λ e s u h. feed-Framed order rest e s u h) c xs r t d received (rw (short, round) at run)
]

waiting-IsPartial :
    (order : Endian) (c : ClientInfo) (t : ReadState)
    → IsReader order c
    → c.state ≡ t
    → IsWaiting c t
    → IsPartial order (held c)
unfolding announced
waiting-IsPartial order c read_header v here wait =
    let inside : c.header_bytes_read < header_size = subst (Position order c) here v.position in
    subst (IsPartial order) (sym (ap (held_in c) here))
      (inl (omega (arith, inside, length-take c.header_bytes_read c.header_buffer)))
waiting-IsPartial order c read_payload v here wait =
    let before : (c.payload_bytes_read ≤ c.expected_payload_len) × IsParsed order c =
      subst (Position order c) here v.position in
    let size = length-append c.header_buffer (take c.payload_bytes_read c.payload_buffer) in
    let front =
      announced-append order c.header_buffer (take c.payload_bytes_read c.payload_buffer)
        v.header_sized in
    subst (IsPartial order) (sym (ap (held_in c) here)) (
      inr (
        omega (arith, size, v.header_sized),
        omega (
          arith,
          size,
          front,
          before.1.len,
          v.header_sized,
          wait,
          length-take c.payload_bytes_read c.payload_buffer,
        ),
      ))

-- For a client whose reader is valid and any way to cut a stream into chunks of at most as many
-- bytes as the code asks for: if the rounds of the reader take them all without giving the client
-- up, and it then waits for more bytes, then the frames that it completed, and the bytes that it
-- holds, are those that the framing specification, with fuel for that many frames, finds in the
-- bytes held before followed by the whole stream. So they do not depend on how the stream was cut.
pub feed-decode :
    (order : Endian) (chunks : List Bytes) (c : ClientInfo) (fs : List Frame) (c' : ClientInfo)
    (fuel : ℕ)
    → IsReader order c
    → feed order c chunks ≡ some (fs, c')
    → IsWaiting c' c'.state
    → length fs ≤ fuel
    → decode order fuel (held c ++ flatten chunks) ≡ (fs, held c')
feed-decode order chunks c fs c' fuel v run wait enough =
    let framed = feed-Framed order chunks c (fs, c') v run in
    ap (decode order fuel) framed.bytes
    ∙ decode-encode order fuel fs (held c') framed.frames
        (waiting-IsPartial order c' c'.state framed.reader refl wait) enough

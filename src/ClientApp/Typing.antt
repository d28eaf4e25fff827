-- ===== src/ClientApp/Typing.antt =====
-- What one block of input makes the client send: one frame, with the flag set exactly when the
-- block ends a line.
use c_chat_server.Base.{
  ℕ, ◌+◌, ◌-◌, ◌≤◌, ◌<◌, ◌≡◌, ◌≢◌, refl, ap, sym, ◌∙◌, arith, Bytes, [], ◌∷◌, ◌++◌, some, Bool,
  true, false, not, ◌&&◌, All, All-append, All-drop, length, length-append, length-drop, drop,
  take-append, drop-append, drop-drop, append_assoc, get_elem?, memcpy, memcpy-some, blit, ◌>>=◌,
  ◌==◌, if◌then◌else◌, Bool-cases, ◌⊎◌, inl, inr,
}
use c_chat_server.Os.{Os, Count, count, error}
use c_chat_server.Os.Laws.{IsOutbound}
use c_chat_server.Protocol.{MsgHeader, header_size, header_bytes}
use c_chat_server.Client.{buf_size}
use c_chat_server.Transfer.Sending.{
  frame_bytes, Calm, Part, Sent, whole, part, no_header, both, write-Pair,
}
use c_chat_server.Transfer.{write_header, write_payload}
use c_chat_server.ClientApp.{
  Input, After, go_on, quit_failed, has_byte, input_header, send_input, end_line, finish_input,
  handle_input,
}

has_byte-none : (b : ℕ) (xs : Bytes) → All (λ x. x ≢ b) xs → has_byte b xs ≡ false
unfolding has_byte
has_byte-none b [] h = refl
has_byte-none b (x ∷ xs) h =
    let e : (x == b) ≡ false = ground (arith, h.0) in rw (e, has_byte, has_byte-none b xs h.1)

has_byte-mid : (b : ℕ) (xs ys : Bytes) → has_byte b (xs ++ b ∷ ys) ≡ true
unfolding has_byte
has_byte-mid b [] ys = let e : (b == b) ≡ true = ground arith in rw (e, has_byte)
has_byte-mid b (x ∷ xs) ys = elim (Bool-cases (x == b)) [
  | inl e ↦ rw (e, has_byte)
  | inr e ↦ rw (e, has_byte, has_byte-mid b xs ys)
]

-- A byte written over another one.
blit-mid :
    (xs : Bytes) (x y : ℕ) (ys : Bytes) → blit (xs ++ x ∷ ys) (length xs) (y ∷ []) ≡ xs ++ y ∷ ys
blit-mid xs x y ys =
    let behind : drop (length xs + 1) (xs ++ x ∷ ys) ≡ ys =
      sym (drop-drop 1 (length xs) (xs ++ x ∷ ys))
      ∙ ap (drop 1) (drop-append xs (x ∷ ys) (length xs) refl) in
    rw (take-append xs (x ∷ ys) (length xs) refl, behind)

-- The buffer of the client between two rounds: its size, and no newline in it.
pub record IsInput (i : Input) : Type 0 where
  pub sized : length i.buf ≡ buf_size
  pub plain : All (λ b. b ≢ 10) i.buf

-- What the count of `write_payload` makes of the round.
abbrev after_write : Input → Count → After
after_write i error = quit_failed
after_write i (count k) = go_on i

module _ (os : Os) {sfd : ℕ} (s : IsOutbound os (os.write sfd)) where
  -- How a round ends: the frame is sent and the next round follows; or only a part is sent as a call
  -- of `write` failed, and the program exits; or as one took no byte, and the next round follows.
  pub data Typed (text : Bytes) (line : Bool) (w : os.World) (a : After) (w' : os.World)
      : Type 0 where
    sends :
        (i : Input)
        → a ≡ go_on i
        → IsInput i
        → i.last_chunk_filled ≡ not line
        → s.sent w'
          ≡ s.sent w
            ++ (header_bytes os.byte_order (input_header os.byte_order (length text) line) ++ text)
        → Typed text line w a w'
    fails :
        (rest : Bytes)
        → a ≡ quit_failed
        → Part os s
            (input_header os.byte_order (length text) line)
            (text ++ rest)
            (length text)
            w
            w'
            error
        → Typed text line w a w'
    stuck :
        (rest : Bytes) (i : Input) (k : ℕ)
        → a ≡ go_on i
        → Part os s
            (input_header os.byte_order (length text) line)
            (text ++ rest)
            (length text)
            w
            w'
            (count k)
        → Typed text line w a w'

  module _ (fuel bound : ℕ) (calm : Calm os s bound)
      (enough : header_size + buf_size + bound < fuel) where
    -- Sending the first bytes of a buffer in order.
    send_input-Typed :
        (text rest : Bytes) (line : Bool) (w : os.World)
        → IsInput (record { buf = text ++ rest; last_chunk_filled = not line })
        → (a : After) × (w' : os.World) × (send_input os fuel sfd
              (record { buf = text ++ rest; last_chunk_filled = not line })
              (input_header os.byte_order (length text) line)
              (length text)
              false
              w
            ≡ some (a, w'))
          × Typed text line w a w'
    unfolding send_input
    send_input-Typed text rest line w v =
        elim (write-Pair os s header (text ++ rest) (length text) w fuel bound calm
          (omega (arith, size)) (omega (arith, size, v.sized))) [
            | no_header w1 run sent ↦ (quit_failed, w1, rw (run, ◌>>=◌), typed w1 error sent)
            | both k w1 r w2 run run' sent ↦ second k w1 r w2 run run' sent
          ]
      where
        i : Input
        i = record { buf = text ++ rest; last_chunk_filled = not line }

        header : MsgHeader
        header = input_header os.byte_order (length text) line

        size : length (text ++ rest) ≡ length text + length rest
        size = length-append text rest

        bytes :
            frame_bytes os header (text ++ rest) (length text)
            ≡ header_bytes os.byte_order header ++ text
        bytes =
            ap (λ x. header_bytes os.byte_order header ++ x)
              (take-append text rest (length text) refl)

        -- The count of `write_payload` decides how the round ends.
        typed :
            (w' : os.World) (r : Count)
            → Sent os s header (text ++ rest) (length text) w w' r
            → Typed text line w (after_write i r) w'
        typed w' error (whole e all) = absurd (cc e)
        typed w' (count k) (whole e all) = sends i refl v refl (all ∙ ap (λ x. s.sent w ++ x) bytes)
        typed w' error (part p) = fails rest refl p
        typed w' (count k) (part p) = stuck rest i k refl p

        second :
            (k : ℕ) (w1 : os.World) (r : Count) (w2 : os.World)
            → write_header os fuel sfd header w ≡ some (count k, w1)
            → write_payload os fuel sfd (text ++ rest) (length text) w1 ≡ some (r, w2)
            → Sent os s header (text ++ rest) (length text) w w2 r
            → (a : After) × (w' : os.World) × (send_input os fuel sfd i header (length text) false w
                ≡ some (a, w'))
              × Typed text line w a w'
        second k w1 error w2 run run' sent =
            (quit_failed, w2, rw (run, ◌>>=◌, run'), typed w2 error sent)
        second k w1 (count n) w2 run run' sent =
            (go_on i, w2, rw (run, ◌>>=◌, run'), typed w2 (count n) sent)

    -- The bytes of a block, its newline taken off if it ends a line.
    abbrev pub block : Bytes → Bool → Bytes
    block text true = text ++ 10 ∷ []
    block text false = text

    end_line-Typed :
        (text ys : Bytes) (last : Bool) (w : os.World)
        → length (text ++ 10 ∷ ys) ≡ buf_size
        → All (λ b. b ≢ 10) text
        → All (λ b. b ≢ 10) ys
        → (a : After) × (w' : os.World) × (end_line os fuel sfd
              (record { buf = text ++ 10 ∷ ys; last_chunk_filled = last })
              (length text)
              false
              w
            ≡ some (a, w'))
          × Typed text true w a w'
    unfolding end_line
    end_line-Typed text ys last w size plain stale =
        let room : length text + 1 ≤ length (text ++ 10 ∷ ys) =
          omega (arith, length-append text (10 ∷ ys)) in
        let ended : memcpy (text ++ 10 ∷ ys) (length text) (0 ∷ []) ≡ some (text ++ 0 ∷ ys) =
          memcpy-some (text ++ 10 ∷ ys) (length text) (0 ∷ []) room
          ∙ ap some (blit-mid text 10 0 ys) in
        let v : IsInput (record { buf = text ++ 0 ∷ ys; last_chunk_filled = false }) = record {
          sized = omega (arith, length-append text (0 ∷ ys), length-append text (10 ∷ ys), size);
          plain = All-append _ text (0 ∷ ys) plain ((λ e. zero_ne e), stale);
        } in
        let (a, w', run, typed) = send_input-Typed text (0 ∷ ys) true w v in
        (a, w', rw ended run, typed)
      where
        zero_ne : ◌≡◌ {A = ℕ} 0 10 → ⊥
        zero_ne e = omega arith

    finish-Typed :
        (text ys : Bytes) (last line : Bool) (w : os.World)
        → length (block text line ++ ys) ≡ buf_size
        → All (λ b. b ≢ 10) text
        → All (λ b. b ≢ 10) ys
        → (a : After) × (w' : os.World) × (finish_input os fuel sfd
              (record { buf = block text line ++ ys; last_chunk_filled = last })
              (length (block text line))
              false
              w
            ≡ some (a, w'))
          × Typed text line w a w'
    unfolding finish_input
    finish-Typed text ys last false w size plain stale =
        let v : IsInput (record { buf = text ++ ys; last_chunk_filled = true }) = record {
          sized = size;
          plain = All-append _ text ys plain stale;
        } in
        let (a, w', run, typed) = send_input-Typed text ys false w v in
        (a, w', rw (has_byte-none 10 (text ++ ys) v.plain) run, typed)
    finish-Typed text ys last true w size plain stale =
        let grouped : (text ++ 10 ∷ []) ++ ys ≡ text ++ 10 ∷ ys = append_assoc text (10 ∷ []) ys in
        let less : length (text ++ 10 ∷ []) - 1 ≡ length text =
          omega (arith, length-append text (10 ∷ [])) in
        let (a, w', run, typed) =
          end_line-Typed text ys last w (ap length (sym grouped) ∙ size) plain stale in
        (a, w', rw (grouped, has_byte-mid 10 text ys, less) run, typed)

    -- For a block of at most 4096 bytes from the terminal, which is a line with its newline or
    -- a part of one without, and does not begin with a slash, and which is not a lone byte
    -- outside a longer message: when the buffer holds no newline of an earlier block,
    -- `handle_input` returns with no access out of bounds. Either exactly one frame is sent,
    -- whose payload is the block without its newline and whose flag is set just when there was
    -- one, the next round follows, and the buffer again holds no newline; or only the part of that
    -- frame is sent that the calls of `write` took before one failed, and the program exits, or
    -- before one took no byte.
    pub handle_input-Typed :
        (i : Input) (text : Bytes) (line : Bool) (w : os.World)
        → IsInput i
        → All (λ b. b ≢ 10) text
        → 0 < length (block text line)
        → length (block text line) ≤ buf_size
        → get_elem? (block text line) 0 ≢ some b'/'
        → (1 < length (block text line)) ⊎ (i.last_chunk_filled ≡ true)
        → (a : After) × (w' : os.World) × (handle_input os fuel sfd i (block text line) w
            ≡ some (a, w'))
          × Typed text line w a w'
    unfolding handle_input
    handle_input-Typed i text line w v plain some_bytes short not_command long =
        let ys = drop (0 + length bs) i.buf in
        let (b, first, other) = head bs some_bytes not_command in
        let (a, w', run, typed) =
          finish-Typed text ys i.last_chunk_filled line w
            (omega (arith, length-append bs ys, length-drop (0 + length bs) i.buf, v.sized)) plain
            (All-drop _ (0 + length bs) i.buf v.plain) in
        (
          a,
          w',
          rw
              (
                memcpy-some i.buf 0 bs (omega (arith, v.sized)),
                ◌>>=◌,
                begins bs ys b first,
                other,
                if◌then◌else◌,
                skipped,
              )
              run,
          typed,
        )
      where
        bs : Bytes
        bs = block text line

        head :
            (xs : Bytes)
            → 0 < length xs
            → get_elem? xs 0 ≢ some b'/'
            → (b : ℕ) × (get_elem? xs 0 ≡ some b) × ((b == b'/') ≡ false)
        head [] h ne = absurd (omega arith)
        head (x ∷ xs) h ne = elim (Bool-cases (x == b'/')) [
          | inr miss ↦ (x, refl, miss)
          | inl hit ↦ let e : x ≡ b'/' = ground arith in absurd (ne (ap some e))
        ]

        begins : (xs ys : Bytes) (b : ℕ) → get_elem? xs 0 ≡ some b → get_elem? (xs ++ ys) 0 ≡ some b
        begins [] ys b h = cc
        begins (x ∷ xs) ys b h = h

        skipped : (length bs == 1 && not i.last_chunk_filled) ≡ false
        skipped = elim long [
          | inl more ↦ ground arith
          | inr old ↦ rw old (elim (Bool-cases (length bs == 1)) [ inl e ↦ rw e | inr e ↦ rw e ])
        ]

-- ===== src/Format/Lines.antt =====
-- The lines that formatting.c makes, and where `strlen` ends them.
use c_chat_server.Base.{
  checked, ℕ, ◌+◌, ◌≤◌, ◌<◌, ◌≡◌, refl, arith, Bytes, List, [], ◌∷◌, ◌++◌, some, none, length, take,
  ◌⊎◌, inl, inr, memcpy-some, slice-some, length-blit, take-blit, blit, take-all, length-append,
  append_assoc, append-nil, length-take, lt→leb, ap, ◌∙◌, sym, ◌>>=◌,
}
use c_chat_server.Os.{Os}
use c_chat_server.Os.Laws.{IsAllocator, allocated}
use c_chat_server.Client.{ClientInfo}
use c_chat_server.Client.Buffer.{HasBuffer, message}
use c_chat_server.Format.{
  get_timestamp, put_pieces, fill_line, format_chat_message, format_whisper_message, whisper_thing,
  newline,
}

abbrev pub concat : List Bytes → Bytes
concat [] = []
concat (x ∷ xs) = x ++ concat xs

-- Pieces that fit are written one behind the other.
put_pieces-concat :
    (dst : Bytes) (index : ℕ) (pieces : List Bytes)
    → index + length (concat pieces) ≤ length dst
    → (dst' : Bytes) × (put_pieces dst index pieces ≡ some (dst', index + length (concat pieces)))
      × (length dst' ≡ length dst)
      × (take (index + length (concat pieces)) dst' ≡ take index dst ++ concat pieces)
unfolding put_pieces
put_pieces-concat dst index [] fits =
    let e : index + 0 ≡ index = omega arith in (dst, rw e, refl, rw (e, append-nil))
put_pieces-concat dst index (p ∷ ps) fits =
    let size = length-append p (concat ps) in
    let room : index + length p ≤ length dst = omega (arith, size) in
    let same = length-blit dst index p room in
    let (dst', run, len, front) =
      put_pieces-concat (blit dst index p) (index + length p) ps (omega (arith, size, same)) in
    let e : index + length (p ++ concat ps) ≡ index + length p + length (concat ps) =
      omega (arith, size) in
    (
      dst',
      rw (memcpy-some dst index p room, put_pieces, e) run,
      len ∙ same,
      rw e (
          front
          ∙ ap (λ x. x ++ concat ps) (take-blit dst index p (index + length p) room refl)
          ∙ append_assoc (take index dst) p (concat ps)),
    )

-- A block with one byte more than the pieces holds them and the NUL.
fill_line-pieces :
    {W : Type 0} (block : Bytes) (n : ℕ) (pieces : List Bytes) (w : W)
    → length block ≡ n
    → length (concat pieces) < n
    → (line : Bytes) × (fill_line block n pieces w ≡ some (some line, w))
      × (length line ≡ n)
      × (take (length (concat pieces) + 1) line ≡ concat pieces ++ 0 ∷ [])
unfolding fill_line
fill_line-pieces block n pieces w size small =
    let (filled, run, same, front) = put_pieces-concat block 0 pieces (omega arith) in
    let e : 0 + length (concat pieces) ≡ length (concat pieces) = omega arith in
    let run' : put_pieces block 0 pieces ≡ some (filled, length (concat pieces)) =
      run ∙ ap (λ k. some (filled, k)) e in
    let room : length (concat pieces) + 1 ≤ length filled = omega arith in
    (
      blit filled (length (concat pieces)) (0 ∷ []),
      rw (
        run',
        memcpy-some filled (length (concat pieces)) (0 ∷ []) room,
        lt→leb n (length (concat pieces)) small,
      ),
      length-blit filled (length (concat pieces)) (0 ∷ []) room ∙ same ∙ size,
      take-blit filled (length (concat pieces)) (0 ∷ []) (length (concat pieces) + 1) room refl
          ∙ ap (λ x. x ++ 0 ∷ []) (ap (λ k. take k filled) (sym e) ∙ front),
    )

get_timestamp-some :
    (os : Os) (w : os.World) {stamp : Bytes} {w1 : os.World}
    → os.local_time w ≡ (some stamp, w1)
    → get_timestamp os w ≡ some (stamp, w1)
unfolding get_timestamp
get_timestamp-some os w clock = rw (clock, ◌>>=◌, checked)

-- "[time] name: message\n"
abbrev pub chat_pieces : (stamp name text : Bytes) → List Bytes
chat_pieces stamp name text = stamp ∷ (32 ∷ []) ∷ name ∷ (b':' ∷ 32 ∷ []) ∷ text ∷ newline ∷ []

-- "[time] [Whisper from: name]: message\n"
abbrev pub whisper_pieces : (stamp name text : Bytes) → List Bytes
whisper_pieces stamp name text =
    stamp ∷ whisper_thing ∷ name ∷ (b']' ∷ b':' ∷ 32 ∷ []) ∷ text ∷ newline ∷ []

pub length-chat :
    (stamp name text : Bytes)
    → length (concat (chat_pieces stamp name text))
      ≡ length stamp + 1 + length name + 2 + length text + 1
length-chat stamp name text = omega (
  arith,
  length-append stamp (32 ∷ (name ++ (b':' ∷ 32 ∷ (text ++ newline)))),
  length-append name (b':' ∷ 32 ∷ (text ++ newline)),
  length-append text newline,
)

pub length-whisper :
    (stamp name text : Bytes)
    → length (concat (whisper_pieces stamp name text))
      ≡ length stamp + 16 + length name + 3 + length text + 1
length-whisper stamp name text = omega (
  arith,
  length-append stamp (whisper_thing ++ (name ++ (b']' ∷ b':' ∷ 32 ∷ (text ++ newline)))),
  length-append name (b']' ∷ b':' ∷ 32 ∷ (text ++ newline)),
  length-append text newline,
)

-- With a clock, a name inside its field and a valid message buffer, `format_chat_message` stays
-- inside its blocks. It returns NULL only if `malloc` does, and else a block that is exactly the
-- time, a space, the name, a colon, a space, the message, a newline and a NUL.
pub format_chat_message-line :
    (os : Os) (laws : IsAllocator os) (c : ClientInfo) (block : Bytes) (w : os.World)
    (stamp : Bytes) (w1 : os.World)
    → HasBuffer c block
    → c.name_len ≤ length c.name
    → os.local_time w ≡ (some stamp, w1)
    → (w2 : os.World) × (((os.malloc (length stamp + 1 + c.name_len + 2 + c.partial_len + 2) w1
            ≡ (none, w2))
          × (format_chat_message os c w ≡ some (none, w2)))
        ⊎ (format_chat_message os c w
            ≡ some (
              some
                  (concat (chat_pieces stamp (take c.name_len c.name) (message c block)) ++ 0 ∷ []),
              w2,
            )))
unfolding format_chat_message
format_chat_message-line os laws c block w stamp w1 b named clock =
    elim (allocated (os.malloc size w1)) [
      | inl (w2, e) ↦ (w2, inl (e, rw (time, ◌>>=◌, e)))
      | inr (fresh, w2, e) ↦
          let (line, run, len, front) =
            fill_line-pieces fresh size pieces w2 (laws.malloc_size _ _ _ _ e)
              (omega (arith, total)) in
          let exact : line ≡ concat pieces ++ 0 ∷ [] =
            sym (take-all (length (concat pieces) + 1) line (omega (arith, len, total))) ∙ front in
          (
            w2,
            inr (
                rw
                  (
                    time,
                    ◌>>=◌,
                    e,
                    slice-some c.name 0 c.name_len named',
                    b.is_block,
                    slice-some block 0 c.partial_len held,
                  )
                  (run ∙ ap (λ l. some (some l, w2)) exact)),
          )
    ]
  where
    time : get_timestamp os w ≡ some (stamp, w1)
    time = get_timestamp-some os w clock

    size : ℕ
    size = length stamp + 1 + c.name_len + 2 + c.partial_len + 2

    named' : 0 + c.name_len ≤ length c.name
    named' = omega arith

    held : 0 + c.partial_len ≤ length block
    held = omega (arith, b.within, b.used)

    pieces : List Bytes
    pieces = chat_pieces stamp (take c.name_len c.name) (message c block)

    total : length (concat pieces) + 1 ≡ size
    total = omega (
      arith,
      length-chat stamp (take c.name_len c.name) (message c block),
      length-take c.name_len c.name,
      length-take c.partial_len block,
      held,
    )

-- With a clock, a sender's name inside its field and a message inside its buffer,
-- `format_whisper_message` stays inside its blocks. It returns NULL only if `malloc` does, and else a
-- block that starts with the time, " [Whisper from: ", the name, "]: ", the message, a newline and a
-- NUL.
pub format_whisper_message-line :
    (os : Os) (laws : IsAllocator os) (c : ClientInfo) (msg : Bytes) (n : ℕ) (w : os.World)
    (stamp : Bytes) (w1 : os.World)
    → c.name_len ≤ length c.name
    → n ≤ length msg
    → os.local_time w ≡ (some stamp, w1)
    → let text = concat (whisper_pieces stamp (take c.name_len c.name) (take n msg)) in
      (w2 : os.World) × (((os.malloc
              (length stamp + 2 + length whisper_thing + c.name_len + 3 + n + 2)
              w1
            ≡ (none, w2))
          × (format_whisper_message os c msg n w ≡ some (none, w2)))
        ⊎ ((line : Bytes) × (format_whisper_message os c msg n w ≡ some (some line, w2))
            × (take (length text + 1) line ≡ text ++ 0 ∷ [])))
unfolding format_whisper_message
format_whisper_message-line os laws c msg n w stamp w1 named within clock =
    elim (allocated (os.malloc size w1)) [
      | inl (w2, e) ↦ (w2, inl (e, rw (time, ◌>>=◌, e)))
      | inr (fresh, w2, e) ↦
          let (line, run, len, front) =
            fill_line-pieces fresh size pieces w2 (laws.malloc_size _ _ _ _ e)
              (omega (arith, total)) in
          (
            w2,
            inr (
              line,
              rw
                  (
                    time,
                    ◌>>=◌,
                    e,
                    slice-some c.name 0 c.name_len (omega arith),
                    slice-some msg 0 n (omega arith),
                  )
                  run,
              front,
            ),
          )
    ]
  where
    time : get_timestamp os w ≡ some (stamp, w1)
    time = get_timestamp-some os w clock

    size : ℕ
    size = length stamp + 2 + length whisper_thing + c.name_len + 3 + n + 2

    pieces : List Bytes
    pieces = whisper_pieces stamp (take c.name_len c.name) (take n msg)

    total : length (concat pieces) + 1 < size
    total = omega (
      arith,
      length-whisper stamp (take c.name_len c.name) (take n msg),
      length-take c.name_len c.name,
      length-take n msg,
      named,
      within,
    )

-- ===== src/Reader/Decode.antt =====
-- The protocol's framing as a specification of its own: a stream of bytes is cut into frames.
use c_chat_server.Base.{
  ℕ, zero, suc, ◌+◌, ◌≤◌, ◌<◌, ◌≡◌, refl, arith, Bytes, List, [], ◌∷◌, ◌++◌, Bool, true, ◌&&◌,
  length, take, drop, All, ◌⊎◌, inl, inr, leb, if◌then◌else◌, take-append, drop-append,
  length-append, append_assoc, ap, ◌∙◌, sym, le→leb, lt→leb,
}
use c_chat_server.Os.{Endian}
use c_chat_server.Protocol.{header_size, header_at, ntohl}

pub record Frame : Type 0 where
  pub header : Bytes
  pub payload : Bytes

-- The length that the header at the front of the bytes announces.
unfoldable pub announced : Endian → Bytes → ℕ
announced order bs = ntohl order (header_at order bs).msg_len

-- The bytes of a whole frame stand at the front.
abbrev pub has_frame : Endian → Bytes → Bool
has_frame order bs =
    leb header_size (length bs) && leb (header_size + announced order bs) (length bs)

-- The frames of a stream and the bytes behind the last whole one.
unfoldable pub decode : Endian → (fuel : ℕ) → Bytes → List Frame × Bytes
decode order zero bs = ([], bs)
decode order (suc fuel) bs =
    let n = announced order bs in
    let rest = decode order fuel (drop n (drop header_size bs)) in
    let found : List Frame × Bytes = (
      record { header = take header_size bs; payload = take n (drop header_size bs) } ∷ rest.0,
      rest.1,
    ) in
    if has_frame order bs then found else ([], bs)

pub record IsFrame (order : Endian) (f : Frame) : Type 0 where
  pub header_sized : length f.header ≡ header_size
  pub payload_sized : length f.payload ≡ announced order f.header

abbrev pub encode : List Frame → Bytes
encode [] = []
encode (f ∷ fs) = f.header ++ (f.payload ++ encode fs)

pub encode-append : (fs gs : List Frame) → encode (fs ++ gs) ≡ encode fs ++ encode gs
encode-append [] gs = refl
encode-append (f ∷ fs) gs = rw (
  encode-append fs gs,
  append_assoc f.header (f.payload ++ encode fs) (encode gs),
  append_assoc f.payload (encode fs) (encode gs),
)

-- Only the first six bytes count for the announced length.
pub announced-append :
    (order : Endian) (h xs : Bytes)
    → length h ≡ header_size
    → announced order (h ++ xs) ≡ announced order h
unfolding announced header_at
announced-append order [] xs e = absurd (omega arith)
announced-append order (a ∷ []) xs e = absurd (omega arith)
announced-append order (a ∷ b ∷ []) xs e = absurd (omega arith)
announced-append order (a ∷ b ∷ c ∷ []) xs e = absurd (omega arith)
announced-append order (a ∷ b ∷ c ∷ d ∷ []) xs e = absurd (omega arith)
announced-append order (a ∷ b ∷ c ∷ d ∷ t ∷ []) xs e = absurd (omega arith)
announced-append order (a ∷ b ∷ c ∷ d ∷ t ∷ f ∷ rest) xs e = refl

-- Too few bytes for a frame: less than a header, or less than the header announces.
abbrev pub IsPartial : Endian → Bytes → Type 0
IsPartial order bs =
    (length bs < header_size)
    ⊎ ((header_size ≤ length bs) × (length bs < header_size + announced order bs))

decode-partial :
    (order : Endian) (fuel : ℕ) (bs : Bytes) → IsPartial order bs → decode order fuel bs ≡ ([], bs)
unfolding decode
decode-partial order zero bs h = refl
decode-partial order (suc fuel) bs (inl short) = rw (lt→leb header_size (length bs) short)
decode-partial order (suc fuel) bs (inr (some_header, short)) = rw (
  le→leb header_size (length bs) some_header,
  lt→leb (header_size + announced order bs) (length bs) short,
)

decode-frame :
    (order : Endian) (fuel : ℕ) (f : Frame) (xs : Bytes)
    → IsFrame order f
    → decode order (suc fuel) (f.header ++ (f.payload ++ xs))
      ≡ (f ∷ (decode order fuel xs).0, (decode order fuel xs).1)
unfolding decode
decode-frame order fuel f xs v = rw (
  enough,
  announced-append order f.header (f.payload ++ xs) v.header_sized,
  body,
  front,
  take-append f.payload xs (announced order f.header) (sym v.payload_sized),
  drop-append f.payload xs (announced order f.header) (sym v.payload_sized),
)
  where
    body : drop header_size (f.header ++ (f.payload ++ xs)) ≡ f.payload ++ xs
    body = drop-append f.header (f.payload ++ xs) header_size (sym v.header_sized)

    front : take header_size (f.header ++ (f.payload ++ xs)) ≡ f.header
    front = take-append f.header (f.payload ++ xs) header_size (sym v.header_sized)

    size :
        length (f.header ++ (f.payload ++ xs)) ≡ header_size + announced order f.header + length xs
    size = omega (
      arith,
      length-append f.header (f.payload ++ xs),
      length-append f.payload xs,
      v.header_sized,
      v.payload_sized,
    )

    enough : has_frame order (f.header ++ (f.payload ++ xs)) ≡ true
    enough = rw (
      announced-append order f.header (f.payload ++ xs) v.header_sized,
      le→leb header_size (length (f.header ++ (f.payload ++ xs))) (omega (arith, size)),
      le→leb (header_size + announced order f.header) (length (f.header ++ (f.payload ++ xs)))
          (omega (arith, size)),
    )

-- What frames and a partial frame were put together from is what the specification finds.
pub decode-encode :
    (order : Endian) (fuel : ℕ) (fs : List Frame) (bs : Bytes)
    → All (IsFrame order) fs
    → IsPartial order bs
    → length fs ≤ fuel
    → decode order fuel (encode fs ++ bs) ≡ (fs, bs)
decode-encode order fuel [] bs v p enough = decode-partial order fuel bs p
decode-encode order zero (f ∷ fs) bs v p enough = absurd (omega arith)
decode-encode order (suc fuel) (f ∷ fs) bs v p enough =
    ap (decode order (suc fuel)) (
      append_assoc f.header (f.payload ++ encode fs) bs
      ∙ ap (λ x. f.header ++ x) (append_assoc f.payload (encode fs) bs))
    ∙ decode-frame order fuel f (encode fs ++ bs) v.0
    ∙ ap (λ (r : List Frame × Bytes). (f ∷ r.0, r.1))
        (decode-encode order fuel fs bs v.1 p (omega arith))

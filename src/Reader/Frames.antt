-- ===== src/Reader/Frames.antt =====
-- One round of the reader: where the bytes of a read go.
use c_chat_server.Base.{
  append-nil, nil_of_length, le→ltb, ℕ, ◌+◌, ◌-◌, ◌≤◌, ◌<◌, ◌≡◌, refl, arith, Bytes, [], ◌++◌, some,
  length, take, ◌⊎◌, inl, inr, Bool-cases, ltb, ◌==◌, blit, memcpy, memcpy-some, length-blit,
  take-blit, take-all, append_assoc, ap, ◌∙◌, sym,
}
use mathlib.Core.Path.{subst}
use c_chat_server.Os.{Endian, ok, success, failure}
use c_chat_server.Protocol.{header_size, header_at, ntohl}
use c_chat_server.Client.{ClientInfo, ReadState, read_header, read_payload, buf_size}
use c_chat_server.Reader.{
  Round, stop, next, complete, receive, wanted, wanted_in, bytes_in, header_bytes_in,
  payload_bytes_in, parse_header,
}
use c_chat_server.Reader.Position.{IsParsed, Position, IsReader, held_in, held}

-- The bytes are the last ones of the header, and the payload is awaited.
abbrev pub Turns : ClientInfo → Bytes → ClientInfo → Type 0
Turns c bs c' =
    (c.state ≡ read_header)
    × (0 < length bs)
    × (c.header_bytes_read + length bs ≡ header_size)
    × (c'.state ≡ read_payload)
    × (c'.payload_bytes_read ≡ 0)

-- Bytes of the header or of the payload are still missing; at a header, some have come.
abbrev pub Waits : ClientInfo → Bytes → ClientInfo → Type 0
Waits c bs c' =
    ((c'.state ≡ read_header) × (0 < length bs) × (c'.header_bytes_read < header_size))
    ⊎ ((c'.state ≡ read_payload) × (c'.payload_bytes_read < c'.expected_payload_len))

-- What a round does with `bs`: the frame grows; it is complete; or the connection is given up,
-- because the stream ended between or inside headers or because the header announces more than the
-- buffer holds.
pub data Received (order : Endian) (c : ClientInfo) (bs : Bytes) : Round → ClientInfo → Type 0 where
  grows :
      {r : Round} {c' : ClientInfo}
      → ((r ≡ next) × Turns c bs c') ⊎ ((r ≡ stop success) × Waits c bs c')
      → IsReader order c'
      → held c' ≡ held c ++ bs
      → Received order c bs r c'
  completes :
      {r : Round} {c' : ClientInfo}
      → r ≡ complete
      → IsReader order c'
      → c'.state ≡ read_payload
      → c'.payload_bytes_read ≡ c'.expected_payload_len
      → held c' ≡ held c ++ bs
      → Received order c bs r c'
  ends :
      {r : Round} {c' : ClientInfo}
      → r ≡ stop failure
      → c.state ≡ read_header
      → bs ≡ []
      → Received order c bs r c'
  too_long :
      {r : Round} {c' : ClientInfo}
      → r ≡ stop failure
      → c.state ≡ read_header
      → c.header_bytes_read + length bs ≡ header_size
      → c'.header_buffer ≡ held c ++ bs
      → buf_size < ntohl order (header_at order (held c ++ bs)).msg_len
      → Received order c bs r c'

module _ (order : Endian) (bs : Bytes) (c : ClientInfo) (v : IsReader order c) where
  module _ (at_header : c.state ≡ read_header)
      (short : length bs ≤ header_size - c.header_bytes_read) where
    -- The buffer and the client after the read.
    buffer : Bytes
    buffer = blit c.header_buffer c.header_bytes_read bs

    read : ClientInfo
    unfolding buffer
    read = record c { header_buffer = buffer; header_bytes_read = c.header_bytes_read + length bs }

    inside : c.header_bytes_read < header_size
    inside = subst (Position order c) at_header v.position

    fits : c.header_bytes_read + length bs ≤ length c.header_buffer
    fits = omega (arith, inside, v.header_sized)

    buffer-size : length buffer ≡ header_size
    unfolding buffer
    buffer-size = length-blit c.header_buffer c.header_bytes_read bs fits ∙ v.header_sized

    buffer-held : (n : ℕ) → n ≡ c.header_bytes_read + length bs → take n buffer ≡ held c ++ bs
    unfolding buffer
    buffer-held n e =
        take-blit c.header_buffer c.header_bytes_read bs n fits e
        ∙ ap (λ x. x ++ bs) (sym (ap (held_in c) at_header))

    part-Received :
        c.header_bytes_read + length bs < header_size
        → 0 < length bs
        → Received order c bs (stop success) read
    unfolding read
    part-Received less some_bytes =
        grows (inr (refl, inl (at_header, some_bytes, less)))
          (record {
            header_sized = buffer-size;
            payload_sized = v.payload_sized;
            position = subst (Position order read) (sym at_header) less;
          })
          (ap (held_in read) at_header ∙ buffer-held _ refl)

    parsed : ClientInfo
    unfolding read
    parsed = record read {
      expected_payload_len = ntohl order (header_at order buffer).msg_len;
      msg_type = (header_at order buffer).msg_type;
      msg_done = (header_at order buffer).msg_done;
    }

    full-Received :
        c.header_bytes_read + length bs ≡ header_size
        → 0 < length bs
        → (r : Round) × (c' : ClientInfo) × (parse_header order read ≡ (r, c'))
          × Received order c bs r c'
    unfolding parse_header read parsed
    full-Received all some_bytes =
        elim (Bool-cases (ltb buf_size (ntohl order (header_at order buffer).msg_len))) [
          | inl over ↦ (
            stop failure,
            parsed,
            rw over,
            too_long refl at_header all whole (rw (← whole) (ground arith)),
          )
          | inr under ↦ (
            next,
            record parsed { state = read_payload; header_bytes_read = 0; payload_bytes_read = 0 },
            rw under,
            grows (inl (refl, (at_header, some_bytes, all, refl, refl)))
                (record {
                  header_sized = buffer-size;
                  payload_sized = v.payload_sized;
                  position = (
                    omega arith,
                    record { len = refl; type = refl; done = refl; limit = ground arith },
                  );
                })
                (append-nil buffer ∙ whole),
          )
        ]
      where
        whole : buffer ≡ held c ++ bs
        whole =
            sym (take-all header_size buffer (omega (arith, buffer-size)))
            ∙ buffer-held header_size (omega (arith, all))

    header-Received :
        (r : Round) × (c' : ClientInfo) × (header_bytes_in order c bs ≡ some (r, c'))
        × Received order c bs r c'
    unfolding header_bytes_in read buffer
    header-Received = elim (Bool-cases (length bs == 0)) [
      | inl nothing ↦ (
        stop failure,
        c,
        rw (copied, header_bytes_in, nothing),
        ends refl at_header (nil_of_length bs (ground arith)),
      )
      | inr some_bytes ↦ elim (Bool-cases (ltb (c.header_bytes_read + length bs) header_size)) [
        | inl less ↦ (
          stop success,
          read,
          rw (copied, header_bytes_in, some_bytes, less),
          part-Received (ground arith) (ground (arith, some_bytes)),
        )
        | inr enough ↦
            let all : c.header_bytes_read + length bs ≡ header_size = ground (arith, inside) in
            let (r, c', run, received) = full-Received all (ground (arith, some_bytes)) in
            (
              r,
              c',
              rw
                  (
                    copied,
                    header_bytes_in,
                    some_bytes,
                    enough,
                    le→ltb header_size (c.header_bytes_read + length bs) (omega arith),
                  )
                  (ap some run),
              received,
            )
      ]
    ]
      where
        copied :
            memcpy c.header_buffer c.header_bytes_read bs
            ≡ some (blit c.header_buffer c.header_bytes_read bs)
        copied = memcpy-some c.header_buffer c.header_bytes_read bs fits

  module _ (at_payload : c.state ≡ read_payload)
      (short : length bs ≤ c.expected_payload_len - c.payload_bytes_read) where
    filled : ClientInfo
    filled = record c {
      payload_buffer = blit c.payload_buffer c.payload_bytes_read bs;
      payload_bytes_read = c.payload_bytes_read + length bs;
    }

    before : (c.payload_bytes_read ≤ c.expected_payload_len) × IsParsed order c
    before = subst (Position order c) at_payload v.position

    room : c.payload_bytes_read + length bs ≤ length c.payload_buffer
    room = omega (arith, before.0, before.1.limit, v.payload_sized)

    filled-IsReader : IsReader order filled
    unfolding filled
    filled-IsReader = record {
      header_sized = v.header_sized;
      payload_sized = length-blit c.payload_buffer c.payload_bytes_read bs room ∙ v.payload_sized;
      position = subst (Position order filled) (sym at_payload) (
        omega (arith, before.0),
        record {
          len = before.1.len;
          type = before.1.type;
          done = before.1.done;
          limit = before.1.limit;
        },
      );
    }

    filled-held : held filled ≡ held c ++ bs
    unfolding filled
    filled-held =
        ap (held_in filled) at_payload
        ∙ ap (λ x. c.header_buffer ++ x)
            (take-blit c.payload_buffer c.payload_bytes_read bs (c.payload_bytes_read + length bs)
              room refl)
        ∙ sym (append_assoc c.header_buffer (take c.payload_bytes_read c.payload_buffer) bs)
        ∙ ap (λ x. x ++ bs) (sym (ap (held_in c) at_payload))

    payload-Received :
        (r : Round) × (c' : ClientInfo) × (payload_bytes_in c bs ≡ some (r, c'))
        × Received order c bs r c'
    unfolding payload_bytes_in filled
    payload-Received =
        elim (Bool-cases (ltb (c.payload_bytes_read + length bs) c.expected_payload_len)) [
          | inl less ↦ (
            stop success,
            filled,
            rw (copied, payload_bytes_in, less),
            grows (inr (refl, inr (at_payload, ground (arith, less)))) filled-IsReader filled-held,
          )
          | inr enough ↦
              let all : c.payload_bytes_read + length bs ≡ c.expected_payload_len =
                ground (arith, before.0) in
              (
                complete,
                filled,
                rw (
                  copied,
                  payload_bytes_in,
                  enough,
                  le→ltb c.expected_payload_len (c.payload_bytes_read + length bs) (omega arith),
                ),
                completes refl filled-IsReader at_payload all filled-held,
              )
        ]
      where
        copied :
            memcpy c.payload_buffer c.payload_bytes_read bs
            ≡ some (blit c.payload_buffer c.payload_bytes_read bs)
        copied = memcpy-some c.payload_buffer c.payload_bytes_read bs room

state-cases : (t : ReadState) → (t ≡ read_header) ⊎ (t ≡ read_payload)
state-cases read_header = inl refl
state-cases read_payload = inr refl

-- For a client whose reader is valid and a read of at most as many bytes as the code asks for, a
-- round of `handle_client_read` stays inside the header and payload buffers, and comes to one of
-- `Received`. The bytes extend the frame that is being read, and then bytes of the header or of the
-- payload are still missing and the round stops with 0, or the bytes are the last ones of the header
-- and the next round awaits the payload, or they are the last ones of the payload, which has the
-- length that its header announces, and the frame is complete. Or the client is given up, because the
-- stream ended while a header was awaited or the header announces more than the payload buffer holds.
pub receive-Received :
    (order : Endian) (c : ClientInfo) (bs : Bytes)
    → IsReader order c
    → length bs ≤ wanted c
    → (r : Round) × (c' : ClientInfo) × (receive order c (ok bs) ≡ some (r, c'))
      × Received order c bs r c'
unfolding receive wanted bytes_in
receive-Received order c bs v short = elim (state-cases c.state) [
  | inl here ↦
      let (r, c', run, received) = header-Received order bs c v here (short-in here) in
      (r, c', ap (bytes_in order c bs) here ∙ run, received)
  | inr here ↦
      let (r, c', run, received) = payload-Received order bs c v here (short-in here) in
      (r, c', ap (bytes_in order c bs) here ∙ run, received)
]
  where
    short-in : {t : ReadState} → c.state ≡ t → length bs ≤ wanted_in c t
    short-in e = subst (λ t. length bs ≤ wanted_in c t) e short

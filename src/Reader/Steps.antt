-- ===== src/Reader/Steps.antt =====
-- What a round of the reader leaves alone, and when the loop goes on.
use c_chat_server.Base.{
  ◌+◌, ◌<◌, ◌≡◌, refl, arith, Bytes, Option, some, none, length, memcpy, Bool-cases, Option-cases,
  inl, inr, ltb, ◌==◌,
}
use c_chat_server.Os.{Endian, Status, ok}
use c_chat_server.Protocol.{header_size, header_at, ntohl}
use c_chat_server.Client.{ClientInfo, buf_size, ReadState, read_header, read_payload}
use c_chat_server.Reader.{
  Round, stop, next, complete, receive, bytes_in, header_bytes_in, payload_bytes_in, parse_header,
}

-- A client of which at most the fields of the reader are others.
abbrev pub SameBut : ClientInfo → ClientInfo → Type 0
SameBut c d = d ≡ record c {
  state = d.state;
  header_buffer = d.header_buffer;
  header_bytes_read = d.header_bytes_read;
  expected_payload_len = d.expected_payload_len;
  msg_type = d.msg_type;
  msg_done = d.msg_done;
  payload_buffer = d.payload_buffer;
  payload_bytes_read = d.payload_bytes_read;
}

-- A step of a round on `bs`: only the fields of the reader change; a header is behind the reader
-- when it goes on, for which some bytes came in; a payload is complete only while one is read.
pub record Steps (c : ClientInfo) (bs : Bytes) (x : Round × ClientInfo) : Type 0 where
  pub same : SameBut c x.1
  pub onward : x.0 ≡ next → (c.state ≡ read_header) × (x.1.state ≡ read_payload) × (0 < length bs)
  pub whole : x.0 ≡ complete → c.state ≡ read_payload

abbrev pub StepsIn : ClientInfo → Bytes → Option (Round × ClientInfo) → Type 0
StepsIn c bs none = Unit {0}
StepsIn c bs (some x) = Steps c bs x

stops : (c d : ClientInfo) (bs : Bytes) (r : Status) → SameBut c d → Steps c bs (stop r, d)
stops c d bs r same = record {
  same = same;
  onward = λ e. absurd (cc e);
  whole = λ e. absurd (cc e);
}

completed :
    (c d : ClientInfo) (bs : Bytes)
    → c.state ≡ read_payload
    → SameBut c d
    → Steps c bs (complete, d)
completed c d bs at same = record { same = same; onward = λ e. absurd (cc e); whole = λ e. at }

header_bytes_in-StepsIn :
    (order : Endian) (c : ClientInfo) (bs : Bytes)
    → c.state ≡ read_header
    → StepsIn c bs (header_bytes_in order c bs)
unfolding header_bytes_in parse_header
header_bytes_in-StepsIn order c bs at =
    elim (Option-cases (memcpy c.header_buffer c.header_bytes_read bs)) [
      | inl outside ↦ rw (header_bytes_in, outside) tt
      | inr (buffer, inside) ↦
          let n = c.header_bytes_read + length bs in
          elim (Bool-cases (length bs == 0)) [
            | inl e ↦ rw (header_bytes_in, inside, e) (stops c _ bs _ refl)
            | inr e ↦ elim (Bool-cases (ltb n header_size)) [
              | inl f ↦ rw (header_bytes_in, inside, e, f) (stops c _ bs _ refl)
              | inr f ↦ elim (Bool-cases (ltb header_size n)) [
                | inl g ↦ rw (header_bytes_in, inside, e, f, g) (stops c _ bs _ refl)
                | inr g ↦
                    elim (Bool-cases
                      (ltb buf_size (ntohl order (header_at order buffer).msg_len))) [
                        | inl h ↦
                            rw (header_bytes_in, inside, e, f, g, parse_header, h)
                              (stops c _ bs _ refl)
                        | inr h ↦
                            rw (header_bytes_in, inside, e, f, g, parse_header, h)
                              (record {
                                same = refl;
                                onward = λ r. (at, refl, ground arith);
                                whole = λ r. absurd (cc r);
                              })
                      ]
              ]
            ]
          ]
    ]

payload_bytes_in-StepsIn :
    (c : ClientInfo) (bs : Bytes) → c.state ≡ read_payload → StepsIn c bs (payload_bytes_in c bs)
unfolding payload_bytes_in
payload_bytes_in-StepsIn c bs at =
    elim (Option-cases (memcpy c.payload_buffer c.payload_bytes_read bs)) [
      | inl outside ↦ rw (payload_bytes_in, outside) tt
      | inr (buffer, inside) ↦
          let n = c.payload_bytes_read + length bs in
          elim (Bool-cases (ltb n c.expected_payload_len)) [
            | inl e ↦ rw (payload_bytes_in, inside, e) (stops c _ bs _ refl)
            | inr e ↦ elim (Bool-cases (ltb c.expected_payload_len n)) [
              | inl f ↦ rw (payload_bytes_in, inside, e, f) (stops c _ bs _ refl)
              | inr f ↦ rw (payload_bytes_in, inside, e, f) (completed c _ bs at refl)
            ]
          ]
    ]

pub receive-StepsIn :
    (order : Endian) (c : ClientInfo) (bs : Bytes) → StepsIn c bs (receive order c (ok bs))
unfolding receive bytes_in
receive-StepsIn order c bs = by_state c.state refl
  where
    by_state : (st : ReadState) → c.state ≡ st → StepsIn c bs (bytes_in order c bs st)
    by_state read_header e = header_bytes_in-StepsIn order c bs e
    by_state read_payload e = payload_bytes_in-StepsIn c bs e

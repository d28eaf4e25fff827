-- ===== src/Fuzzer/Frames.antt =====
-- What a client of tests/fuzzer_valid.c sends: frames that the server's reader takes apart again.
use c_chat_server.Base.{
  ℕ, zero, suc, ◌%◌, ◌≤◌, ◌<◌, ◌≡◌, refl, arith, ap, sym, ◌∙◌, Bytes, List, [], ◌∷◌, ◌++◌, some,
  length, take, length-take, slice-some, slice, take-all, ◌>>=◌, ◌>>◌, ltb, Bool-cases, inl, inr,
  All, append-nil, append_assoc, nil_of_length,
}
use c_chat_server.Os.{Os, Endian, success}
use c_chat_server.Protocol.{header_size, htonl, u32_bytes}
use c_chat_server.Protocol.Wire.{u32_bytes-four, htonl-header_at}
use c_chat_server.Setup.{Net}
use c_chat_server.Reader.Decode.{announced, Frame, IsFrame, decode, encode, decode-encode}
use c_chat_server.Fuzzer.{FuzzArgs, Dice, server_address, run_client, max_payload, fill, pause}
use c_chat_server.Fuzzer.Arrays.{IsSending, fill-some, pause-some}
use c_chat_server.Fuzzer.Valid.{build_header, send_payload, send_frame, send_frames, fuzz_client}

six :
    (xs : Bytes)
    → length xs ≡ header_size
    → (a : ℕ) × (b : ℕ) × (c : ℕ) × (d : ℕ) × (e : ℕ) × (f : ℕ) × (xs ≡ a ∷ b ∷ c ∷ d ∷ e ∷ f ∷ [])
six [] h = absurd (omega arith)
six (a ∷ []) h = absurd (omega arith)
six (a ∷ b ∷ []) h = absurd (omega arith)
six (a ∷ b ∷ c ∷ []) h = absurd (omega arith)
six (a ∷ b ∷ c ∷ d ∷ []) h = absurd (omega arith)
six (a ∷ b ∷ c ∷ d ∷ e ∷ []) h = absurd (omega arith)
six (a ∷ b ∷ c ∷ d ∷ e ∷ f ∷ []) h = (a, b, c, d, e, f, refl)
six (a ∷ b ∷ c ∷ d ∷ e ∷ f ∷ g ∷ rest) h = absurd (omega arith)

-- A frame of the fuzzer, for a reader of the byte order: short of the limit of the payload.
abbrev pub IsShort : Endian → Frame → Type 0
IsShort order f = IsFrame order f × (length f.payload < max_payload)

frames-All : (order : Endian) (fs : List Frame) → All (IsShort order) fs → All (IsFrame order) fs
frames-All order [] h = tt
frames-All order (f ∷ fs) h = (h.0.0, frames-All order fs h.1)

module _ (os : Os) (net : Net os) (dice : Dice os) (fd : ℕ) (line : IsSending os dice fd) where
  -- The header for a payload of `n` bytes.
  front : (n t d : ℕ) → Bytes
  front n t d = u32_bytes os.byte_order (htonl os.byte_order n) ++ t ∷ d ∷ []

  build_header-some :
      (header : Bytes) (w : os.World)
      → length header ≡ header_size
      → (n : ℕ) × (t : ℕ) × (d : ℕ) × (w' : os.World) × (build_header os net dice header w
          ≡ some ((n, front n t d), w'))
        × (n < max_payload)
        × (length (front n t d) ≡ header_size)
        × (line.sent w' ≡ line.sent w)
  unfolding build_header front
  build_header-some header w sized =
      let (a, b, c, d, e, f, is) = six header sized in
      let r = dice.rand w in
      let t = dice.rand (r.1) in
      let l = dice.rand (t.1) in
      let (x, y, z, u, four) = u32_bytes-four os.byte_order (htonl os.byte_order (r.0 % 4096)) in
      (
        r.0 % 4096,
        t.0 % 3,
        l.0 % 2,
        l.1,
        rw (is, ◌>>=◌, four),
        omega arith,
        rw four,
        line.rand_quiet (t.1) ∙ line.rand_quiet (r.1) ∙ line.rand_quiet w,
      )

  -- The payload is sent, if there is one.
  payload-some :
      (n : ℕ) (filled : Bytes) (w : os.World)
      → n ≤ length filled
      → (w' : os.World) × (send_payload os net dice fd n filled w ≡ some (tt, w'))
        × (line.sent w' ≡ line.sent w ++ take n filled)
  unfolding send_payload
  payload-some n filled w within = elim (Bool-cases (ltb 0 n)) [
    | inl some_bytes ↦ (
      (os.send fd (take n filled) w).1,
      rw (some_bytes, ◌>>=◌, slice-some filled 0 n (omega (arith, within))),
      line.send_all (take n filled) w,
    )
    | inr no_bytes ↦ (
      w,
      rw no_bytes,
      sym (
          ap (λ x. line.sent w ++ x)
            (nil_of_length (take n filled) (ground (arith, length-take n filled)))
          ∙ append-nil (line.sent w)),
    )
  ]

  send_frame-some :
      (fa : FuzzArgs) (header payload : Bytes) (w : os.World)
      → length header ≡ header_size
      → length payload ≡ max_payload
      → (f : Frame) × (h : Bytes) × (p : Bytes) × (w' : os.World) × (send_frame os net dice fa fd
            header payload w
          ≡ some ((h, p), w'))
        × (length h ≡ header_size)
        × (length p ≡ max_payload)
        × (line.sent w' ≡ line.sent w ++ (f.header ++ f.payload))
        × ((order : Endian) → IsShort order f)
  unfolding send_frame announced front
  send_frame-some fa header payload w sized roomy =
      let (n, t, d, w1, built, less, six_long, quiet) = build_header-some header w sized in
      let (filled, w2, fills, as_long, quiet2) =
        fill-some os net dice fd line n 0 payload w1 (omega (arith, less, roomy)) in
      let h = front n t d in
      let w3 = (os.send fd h w2).1 in
      let within : n ≤ length filled = omega (arith, as_long, less, roomy) in
      let (w4, sends, sent4) = payload-some n filled w3 within in
      let (w5, paused, quiet5) = pause-some os net dice fd line fa w4 in
      let sliced : take header_size h ≡ h = take-all header_size h (omega (arith, six_long)) in
      let size : length (take n filled) ≡ n = omega (arith, length-take n filled, within) in
      (
        record { header = h; payload = take n filled },
        h,
        filled,
        w5,
        frame-run fa header payload w n h filled w1 w2 w4 w5 built fills
            (slice-some h 0 header_size (omega (arith, six_long)) ∙ ap some sliced) sends paused,
        six_long,
        as_long ∙ roomy,
        quiet5
            ∙ sent4
            ∙ ap (λ x. x ++ take n filled) (line.send_all h w2 ∙ ap (λ x. x ++ h) (quiet2 ∙ quiet))
            ∙ append_assoc (line.sent w) h (take n filled),
        λ order. (
          record {
            header_sized = six_long;
            payload_sized =
                size ∙ sym (htonl-header_at os.byte_order order n t d (omega (arith, less)));
          },
          omega (arith, size, less),
        ),
      )
    where
      frame-run :
          (fa : FuzzArgs) (header payload : Bytes) (w : os.World) (n : ℕ) (h filled : Bytes)
          (w1 w2 w4 w5 : os.World)
          → build_header os net dice header w ≡ some ((n, h), w1)
          → fill os net dice n 0 payload w1 ≡ some (filled, w2)
          → slice h 0 header_size ≡ some h
          → send_payload os net dice fd n filled ((os.send fd h w2).1) ≡ some (tt, w4)
          → pause os net dice fa w4 ≡ some (tt, w5)
          → send_frame os net dice fa fd header payload w ≡ some ((h, filled), w5)
      frame-run fa header payload w n h filled w1 w2 w4 w5 built fills sliced sends paused =
          rw (send_frame, ◌>>=◌, built, fills, sliced, sends, paused)

  send_frames-some :
      (fa : FuzzArgs) (messages : ℕ) (header payload : Bytes) (w : os.World)
      → length header ≡ header_size
      → length payload ≡ max_payload
      → (fs : List Frame) × (w' : os.World) × (send_frames os net dice fa messages fd header payload
            w
          ≡ some (tt, w'))
        × (line.sent w' ≡ line.sent w ++ encode fs)
        × (length fs ≡ messages)
        × ((order : Endian) → All (IsShort order) fs)
  unfolding send_frames
  send_frames-some fa zero header payload w sized roomy =
      ([], w, refl, sym (append-nil (line.sent w)), refl, λ order. tt)
  send_frames-some fa (suc messages) header payload w sized roomy =
      let (f, h, p, w1, run, sized', roomy', sent1, short) =
        send_frame-some fa header payload w sized roomy in
      let (fs, w2, rest, sent2, count, shorts) =
        send_frames-some fa messages h p w1 sized' roomy' in
      (
        f ∷ fs,
        w2,
        rw (◌>>=◌, run) rest,
        sent2
            ∙ ap (λ x. x ++ encode fs) sent1
            ∙ append_assoc (line.sent w) (f.header ++ f.payload) (encode fs)
            ∙ ap (λ x. line.sent w ++ x) (append_assoc f.header f.payload (encode fs)),
        ap suc count,
        λ order. (short order, shorts order),
      )

  -- For a client that gets the socket and the connection, with arrays of six and 4096 bytes on its
  -- stack and a blocking socket that takes all the bytes of a `send`: whatever `rand` gives,
  -- `fuzz_client` returns with no access out of bounds, and has sent as many frames as there are
  -- messages, each with a payload of fewer than 4096 bytes. A reader of any byte order that cuts
  -- what was sent into frames finds exactly these, and no byte behind them.
  pub fuzz_client-Frames :
      (fa : FuzzArgs) (header payload : Bytes) (w w1 w2 : os.World)
      → net.socket w ≡ (some fd, w1)
      → net.connect fd (server_address os net dice fa) w1 ≡ (success, w2)
      → length header ≡ header_size
      → length payload ≡ max_payload
      → (fs : List Frame) × (w' : os.World) × (fuzz_client os net dice fa header payload w
          ≡ some (tt, w'))
        × (line.sent w' ≡ line.sent w2 ++ encode fs)
        × (length fs ≡ fa.messages)
        × ((order : Endian)
            → All (IsShort order) fs × (decode order fa.messages (encode fs) ≡ (fs, [])))
  unfolding fuzz_client run_client
  fuzz_client-Frames fa header payload w w1 w2 has_socket connects sized roomy =
      let (fs, w3, run, sent3, count, shorts) =
        send_frames-some fa fa.messages header payload w2 sized roomy in
      (
        fs,
        (os.close fd w3).1,
        rw (◌>>=◌, has_socket, connects, run, ◌>>◌),
        line.close_quiet w3 ∙ sent3,
        count,
        λ order. (
          shorts order,
          ap (decode order fa.messages) (sym (append-nil (encode fs)))
              ∙ decode-encode order fa.messages fs [] (frames-All order fs (shorts order))
                  (inl (omega arith)) (omega (arith, count)),
        ),
      )

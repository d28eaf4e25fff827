-- ===== src/Transfer/Receiving.antt =====
-- A frame on a stream, read by `read_packet`.
use mathlib.Core.Path.{subst}
use c_chat_server.Base.{
  ℕ, ◌+◌, ◌-◌, ◌≤◌, ◌<◌, ◌≡◌, refl, ap, sym, ◌∙◌, arith, Bytes, [], ◌∷◌, ◌++◌, Option, some, none,
  length, length-append, take, drop, take-append, drop-append, length-take, nil_of_length,
  length-drop, take-append-drop, append-nil, false, memcpy-some, length-blit, blit, ◌>>=◌, ◌==◌,
  ◌⊎◌, inl, inr,
}
use c_chat_server.Os.{Os, ok, Count, count, error}
use c_chat_server.Os.Laws.{IsInbound, IsAllocator, allocated}
use c_chat_server.Protocol.{header_size}
use c_chat_server.Io.{read_all}
use c_chat_server.Io.ReadAll.{FailsAt, Reads, full, ended, broken, read_all-Reads}
use c_chat_server.Reader.Decode.{Frame, IsFrame, announced}
use c_chat_server.Transfer.{read_packet, read_body, read_header, read_payload}

-- A connection: a call gives no byte only at the end of the stream, interruptions are limited, and
-- the allocator takes nothing from it.
pub record IsConnection (os : Os) {fd : ℕ} (s : IsInbound os fd) (bound : ℕ) : Type 0 where
  pub ends : (n : ℕ) (w w' : os.World) → os.read fd n w ≡ (ok [], w') → 0 < n → s.pending w ≡ []
  pub calm : (w : os.World) → s.patience w ≤ bound
  pub malloc_quiet : (n : ℕ) (w : os.World) → s.pending (os.malloc n w).1 ≡ s.pending w

module _ (os : Os) (laws : IsAllocator os) {fd : ℕ} (s : IsInbound os fd) (bound : ℕ)
    (line : IsConnection os s bound) (fuel : ℕ) where
  -- What stands at the front of the stream is in the buffer, or a call has failed.
  abbrev pub Front : (front rest buffer : Bytes) → os.World → Count → Bytes → os.World → Type 0
  Front front rest buffer w r b w' =
      ((r ≡ count (length front))
        × (b ≡ front ++ drop (length front) buffer)
        × (s.pending w' ≡ rest))
      ⊎ ((r ≡ error) × (k : ℕ) × FailsAt os fd (length front) k w w')

  pub read_all-Front :
      (front rest buffer : Bytes) (w : os.World)
      → s.pending w ≡ front ++ rest
      → length front ≤ length buffer
      → length front + bound < fuel
      → (r : Count) × (b : Bytes) × (w' : os.World) × (read_all os fuel fd buffer (length front) w
          ≡ some ((r, b), w'))
        × Front front rest buffer w r b w'
  read_all-Front front rest buffer w now fits enough =
      let (r, b, w', run, reads) =
        read_all-Reads os s fuel (length front) buffer w fits
          (omega (arith, line.calm w, enough)) in
      (r, b, w', run, by_case r b w' reads)
    where
      by_case :
          (r : Count) (b : Bytes) (w' : os.World)
          → Reads os s (length front) (drop (length front) buffer) w (length buffer) w' r b
          → Front front rest buffer w r b w'
      by_case r b w' (broken k e stop size behind flow) = inr (e, k, stop)
      by_case r b w' (full e size behind flow) =
          let all : take (length front) b ++ s.pending w' ≡ front ++ rest = sym flow ∙ now in
          let long : length front ≡ length (take (length front) b) =
            omega (arith, length-take (length front) b, size, fits) in
          let text : take (length front) b ≡ front =
            sym (take-append (take (length front) b) (s.pending w') (length front) long)
            ∙ ap (take (length front)) all
            ∙ take-append front rest (length front) refl in
          inl (
            e,
            sym (take-append-drop (length front) b)
                ∙ ap (λ x. x ++ drop (length front) b) text
                ∙ ap (λ x. front ++ x) behind,
            sym (drop-append (take (length front) b) (s.pending w') (length front) long)
                ∙ ap (drop (length front)) all
                ∙ drop-append front rest (length front) refl,
          )
      by_case r b w' (ended k v e less call_ size behind flow) =
          let none_left = line.ends (length front - k) v w' call_ (omega arith) in
          let nothing : s.pending w' ≡ [] = sym ((s.read_ok _ v [] w' call_).1) ∙ none_left in
          absurd (
            omega (
              arith,
              ap length (sym now ∙ flow),
              length-append front rest,
              length-append (take k b) (s.pending w'),
              ap length nothing,
              length-take k b,
              less,
            ))

  -- The NUL that is written first stands behind the payload.
  nul_behind :
      (p block : Bytes)
      → length block ≡ length p + 1
      → drop (length p) (blit block (length p) (0 ∷ [])) ≡ 0 ∷ []
  nul_behind p block size =
      drop-append (take (length p) block) (0 ∷ drop (length p + 1) block) (length p)
        (omega (arith, length-take (length p) block, size))
      ∙ ap (λ x. 0 ∷ x)
          (nil_of_length (drop (length p + 1) block)
            (omega (arith, length-drop (length p + 1) block, size)))

  -- Why `read_payload` fails: it gets no block, or one of its reads fails.
  pub data NoBody (n : ℕ) (w w' : os.World) : Type 0 where
    no_block : os.malloc (n + 1) w ≡ (none, w') → NoBody n w w'
    no_bytes :
        (k : ℕ) (block : Bytes) (w1 : os.World)
        → os.malloc (n + 1) w ≡ (some block, w1)
        → FailsAt os fd n k w1 w'
        → NoBody n w w'

  -- The payload with its block.
  abbrev pub Body : (p rest : Bytes) → os.World → Count → Option Bytes → os.World → Type 0
  Body p rest w r o w' =
      ((r ≡ count (length p)) × (o ≡ some (p ++ 0 ∷ [])) × (s.pending w' ≡ rest))
      ⊎ ((r ≡ error) × NoBody (length p) w w')

  pub read_payload-Body :
      (p rest : Bytes) (w : os.World)
      → s.pending w ≡ p ++ rest
      → length p + bound < fuel
      → (r : Count) × (o : Option Bytes) × (w' : os.World) × (read_payload os fuel fd (length p) w
          ≡ some ((r, o), w'))
        × Body p rest w r o w'
  unfolding read_payload
  read_payload-Body p rest w now enough = elim (allocated (os.malloc (length p + 1) w)) [
    | inl (w1, e) ↦ (error, none, w1, rw (◌>>=◌, e), inr (refl, no_block e))
    | inr (block, w1, e) ↦
        let size = laws.malloc_size _ _ _ _ e in
        let nul : Bytes = 0 ∷ [] in
        let fits : length p + length nul ≤ length block = omega (arith, size) in
        let ended = blit block (length p) nul in
        let long = length-blit block (length p) nul fits in
        let quiet : s.pending w1 ≡ s.pending w =
          ap (λ x. s.pending x.1) (sym e) ∙ line.malloc_quiet (length p + 1) w in
        let (r, b, w2, run, front) =
          read_all-Front p rest ended w1 (quiet ∙ now) (omega (arith, long, size)) enough in
        (
          r,
          some b,
          w2,
          rw (◌>>=◌, e, memcpy-some block (length p) nul fits, run),
          elim front [
            | inr (failed, k, stop) ↦ inr (failed, no_bytes k block w1 e stop)
            | inl (is, text, flow) ↦ inl (
              is,
              ap some (text ∙ ap (λ x. p ++ x) (nul_behind p block (omega (arith, size)))),
              flow,
            )
          ],
        )
  ]

  -- The steps of `read_body`, by its calls.
  module _ (header : Bytes) {w w1 : os.World} where
    body-no_memory :
        os.malloc (announced os.byte_order header) w ≡ (none, w1)
        → read_body os fuel fd header w ≡ some ((error, header, none), w1)
    unfolding read_body announced
    body-no_memory e = rw (◌>>=◌, e)

    body-failed :
        {w2 : os.World} {block : Bytes} {o : Option Bytes}
        → os.malloc (announced os.byte_order header) w ≡ (some block, w1)
        → read_payload os fuel fd (announced os.byte_order header) w1 ≡ some ((error, o), w2)
        → read_body os fuel fd header w ≡ some ((error, header, none), w2)
    unfolding read_body announced
    body-failed e run = rw (◌>>=◌, e, run)

    body-whole :
        {n : ℕ} {w2 : os.World} {block : Bytes} {o : Option Bytes}
        → (n == 0) ≡ false
        → os.malloc (announced os.byte_order header) w ≡ (some block, w1)
        → read_payload os fuel fd (announced os.byte_order header) w1 ≡ some ((count n, o), w2)
        → read_body os fuel fd header w ≡ some ((count n, header, o), w2)
    unfolding read_body announced
    body-whole some_bytes e run = rw (◌>>=◌, e, run, some_bytes)

  -- The steps of `read_packet`.
  module _ (header_out : Bytes) (w : os.World) {w1 : os.World} {h : Bytes} where
    packet-failed :
        read_all os fuel fd header_out header_size w ≡ some ((error, h), w1)
        → read_packet os fuel fd header_out w ≡ some ((error, h, none), w1)
    unfolding read_packet read_header
    packet-failed run = rw (◌>>=◌, run)

    packet-body :
        {r : Count} {w2 : os.World} {h' : Bytes} {o : Option Bytes}
        → read_all os fuel fd header_out header_size w ≡ some ((count header_size, h), w1)
        → read_body os fuel fd h w1 ≡ some ((r, h', o), w2)
        → read_packet os fuel fd header_out w ≡ some ((r, h', o), w2)
    unfolding read_packet read_header
    packet-body run body = rw (◌>>=◌, run, body)

  module _ (f : Frame) (rest : Bytes) (w : os.World) where
    -- Why `read_packet` gets no frame: a read of the header fails; or, behind the whole header, there
    -- is no block for the payload; or `read_payload` fails.
    pub data NoFrame (header_out : Bytes) (w' : os.World) : Type 0 where
      header_fails : (k : ℕ) → FailsAt os fd header_size k w w' → NoFrame header_out w'
      no_memory :
          (w1 : os.World)
          → read_all os fuel fd header_out header_size w ≡ some ((count header_size, f.header), w1)
          → os.malloc (length f.payload) w1 ≡ (none, w')
          → NoFrame header_out w'
      body_fails :
          (w1 w2 : os.World) (block : Bytes)
          → read_all os fuel fd header_out header_size w ≡ some ((count header_size, f.header), w1)
          → os.malloc (length f.payload) w1 ≡ (some block, w2)
          → NoBody (length f.payload) w2 w'
          → NoFrame header_out w'

    -- The frame is read whole, and the stream goes on behind it; or there is a reason why not.
    pub data Receives (start : Bytes) (w' : os.World) (r : Count) (header_out : Bytes)
        (payload_out : Option Bytes) : Type 0 where
      whole :
          r ≡ count (length f.payload)
          → header_out ≡ f.header
          → payload_out ≡ some (f.payload ++ 0 ∷ [])
          → s.pending w' ≡ rest
          → Receives start w' r header_out payload_out
      no_frame :
          r ≡ error
          → payload_out ≡ none
          → NoFrame start w'
          → Receives start w' r header_out payload_out

    body-Receives :
        (start : Bytes) (w1 : os.World)
        → read_all os fuel fd start header_size w ≡ some ((count header_size, f.header), w1)
        → IsFrame os.byte_order f
        → 0 < length f.payload
        → s.pending w1 ≡ f.payload ++ rest
        → length f.payload + bound < fuel
        → (r : Count) × (o : Option Bytes) × (w' : os.World) × (read_body os fuel fd f.header w1
            ≡ some ((r, f.header, o), w'))
          × Receives start w' r f.header o
    body-Receives start w1 head v some_bytes now enough =
        elim (allocated (os.malloc (length f.payload) w1)) [
          | inl (w2, e) ↦ (
            error,
            none,
            w2,
            body-no_memory f.header (as_announced e),
            no_frame refl refl (no_memory w1 head e),
          )
          | inr (block, w2, e) ↦
              let quiet : s.pending w2 ≡ s.pending w1 =
                ap (λ x. s.pending x.1) (sym e) ∙ line.malloc_quiet (length f.payload) w1 in
              let (r, o, w3, run, body) =
                read_payload-Body f.payload rest w2 (quiet ∙ now) enough in
              by_body w2 w3 block r o e
                (ap (λ n. read_payload os fuel fd n w2) (sym v.payload_sized) ∙ run) body
        ]
      where
        as_announced :
            {x : Option Bytes × os.World}
            → os.malloc (length f.payload) w1 ≡ x
            → os.malloc (announced os.byte_order f.header) w1 ≡ x
        as_announced e = ap (λ n. os.malloc n w1) (sym v.payload_sized) ∙ e

        by_body :
            (w2 w3 : os.World) (block : Bytes) (r : Count) (o : Option Bytes)
            → os.malloc (length f.payload) w1 ≡ (some block, w2)
            → read_payload os fuel fd (announced os.byte_order f.header) w2 ≡ some ((r, o), w3)
            → Body f.payload rest w2 r o w3
            → (r : Count) × (o : Option Bytes) × (w' : os.World) × (read_body os fuel fd f.header w1
                ≡ some ((r, f.header, o), w'))
              × Receives start w' r f.header o
        by_body w2 w3 block r o e run (inr (failed, why)) = (
          error,
          none,
          w3,
          body-failed f.header (as_announced e) (run ∙ ap (λ x. some ((x, o), w3)) failed),
          no_frame refl refl (body_fails w1 w2 block head e why),
        )
        by_body w2 w3 block r o e run (inl (is, there, flow)) = (
          count (length f.payload),
          o,
          w3,
          body-whole f.header (ground (arith, some_bytes)) (as_announced e)
              (run ∙ ap (λ x. some ((x, o), w3)) is),
          whole refl refl there flow,
        )

    -- On a connection whose calls are interrupted finitely often, when a whole frame that is not
    -- empty stands at the front of the stream, with a struct for the header and fuel for the header,
    -- the payload and the interruptions: `read_packet` returns with no access out of bounds. It
    -- returns the length of the payload, the header, and the payload with a NUL behind it, and what
    -- is behind the frame is still to be read; or -1 and no payload, because the next read of the
    -- header or of the payload fails, or there is no block for the payload.
    pub read_packet-Receives :
        (header_out : Bytes)
        → length header_out ≡ header_size
        → IsFrame os.byte_order f
        → 0 < length f.payload
        → s.pending w ≡ f.header ++ (f.payload ++ rest)
        → header_size + length f.payload + bound < fuel
        → (r : Count) × (h : Bytes) × (o : Option Bytes) × (w' : os.World) × (read_packet os fuel fd
              header_out w
            ≡ some ((r, h, o), w'))
          × Receives header_out w' r h o
    read_packet-Receives header_out sized v some_bytes now enough =
        let (r, b, w1, run, front) =
          read_all-Front f.header (f.payload ++ rest) header_out w now
            (omega (arith, v.header_sized, sized)) (omega (arith, v.header_sized, enough)) in
        by_front r b w1 (ap (λ n. read_all os fuel fd header_out n w) (sym v.header_sized) ∙ run)
          front
      where
        by_front :
            (r : Count) (b : Bytes) (w1 : os.World)
            → read_all os fuel fd header_out header_size w ≡ some ((r, b), w1)
            → Front f.header (f.payload ++ rest) header_out w r b w1
            → (r : Count) × (h : Bytes) × (o : Option Bytes) × (w' : os.World) × (read_packet os
                  fuel fd header_out w
                ≡ some ((r, h, o), w'))
              × Receives header_out w' r h o
        by_front r b w1 run (inr (failed, k, stop)) = (
          error,
          b,
          none,
          w1,
          packet-failed header_out w (run ∙ ap (λ x. some ((x, b), w1)) failed),
          no_frame refl refl
              (header_fails k (subst (λ n. FailsAt os fd n k w w1) v.header_sized stop)),
        )
        by_front r b w1 run (inl (is, text, flow)) =
            let same : b ≡ f.header =
              text
              ∙ ap (λ x. f.header ++ x)
                  (nil_of_length (drop (length f.header) header_out) (
                    omega (arith, length-drop (length f.header) header_out, v.header_sized, sized)))
              ∙ append-nil f.header in
            let head : read_all os fuel fd header_out header_size w
                ≡ some ((count header_size, f.header), w1) =
              run
              ∙ ap (λ x. some ((x, b), w1)) (is ∙ ap count v.header_sized)
              ∙ ap (λ x. some ((count header_size, x), w1)) same in
            let (r', o, w2, body, receives) =
              body-Receives header_out w1 head v some_bytes flow (omega (arith, enough)) in
            (r', f.header, o, w2, packet-body header_out w head body, receives)

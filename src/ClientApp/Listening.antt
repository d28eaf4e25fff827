-- ===== src/ClientApp/Listening.antt =====
-- The listening thread of the client: a stream of frames, read, printed, and its end.

use c_chat_server.Base.{
  ℕ, zero, suc, ◌+◌, ◌≤◌, ◌<◌, ◌≡◌, refl, ap, sym, ◌∙◌, arith, Bytes, List, [], ◌∷◌, ◌++◌, Option,
  some, true, false, Bool-cases, length, length-append, take, drop, length-take, length-drop,
  nil_of_length, append-nil, inl, inr, All,
}
use c_chat_server.Os.{Os, Count, count, error}
use c_chat_server.Os.Laws.{IsInbound, IsOutbound, IsAllocator}
use c_chat_server.Protocol.{header_size}
use c_chat_server.Io.{read_all, write_all}
use c_chat_server.Io.ReadAll.{Reads, full, ended, broken, read_all-Reads}
use c_chat_server.Io.WriteAll.{write_all-Writes, write_all-Kept}
use c_chat_server.Reader.Decode.{Frame, IsFrame, announced, encode}
use c_chat_server.Text.{c_string, str_eq}
use c_chat_server.Text.Tokens.{c_string-bound}
use c_chat_server.Transfer.{read_payload, write_payload}
use c_chat_server.Transfer.Receiving.{IsConnection, Front, Body, read_all-Front, read_payload-Body}
use c_chat_server.Loop.{shutdown_message}
use c_chat_server.ClientApp.Printing.{
  Heard, no_more, then_prints, header_fails, payload_fails, print_fails, Listens, stream_over, told,
  gives_up, no_header, no_payload, last_message, not_printed, printed, also,
}

-- The terminal: a call of `write` takes nothing from the connection, and interruptions are limited.
pub record IsPrinting (os : Os) {fd : ℕ} (s : IsInbound os fd) (o : IsOutbound os (os.write 1))
    (bound : ℕ) : Type 0 where
  pub write_quiet : (bs : Bytes) (w : os.World) → s.pending (os.write 1 bs w).1 ≡ s.pending w
  pub calm : (w : os.World) → o.patience w ≤ bound

module _ (os : Os) (laws : IsAllocator os) {fd : ℕ} (s : IsInbound os fd) (bound : ℕ)
    (line : IsConnection os s bound) (o : IsOutbound os (os.write 1))
    (term : IsPrinting os s o bound) (fuel : ℕ) where
  -- A frame with a payload, and fuel for it.
  abbrev pub IsHeard : Frame → Type 0
  IsHeard f =
      IsFrame os.byte_order f
      × (0 < length f.payload)
      × (header_size + length f.payload + bound < fuel)

  -- Nothing is left on the stream.
  at_end :
      (rounds : ℕ) (header : Bytes) (w : os.World)
      → length header ≡ header_size
      → s.pending w ≡ []
      → header_size + bound < fuel
      → Listens os fuel fd (suc rounds) header [] w
  at_end rounds header w sized now enough =
      let (r, h, w', run, reads) =
        read_all-Reads os s fuel header_size header w (omega (arith, sized))
          (omega (arith, line.calm w, enough)) in
      by_case r h w' run reads
    where
      by_case :
          (r : Count) (h : Bytes) (w' : os.World)
          → read_all os fuel fd header header_size w ≡ some ((r, h), w')
          → Reads os s header_size (drop header_size header) w (length header) w' r h
          → Listens os fuel fd (suc rounds) header [] w
      by_case r h w' run (full e size behind flow) = absurd (
          omega (
            arith,
            ap length (sym now ∙ flow),
            length-append (take header_size h) (s.pending w'),
            length-take header_size h,
            size,
            sized,
          ))
      by_case r h w' run (broken k e less size behind flow) =
          gives_up [] [] false w w' refl no_more
            (header_fails header h (run ∙ ap (λ x. some ((x, h), w')) e))
            (no_header os fuel fd rounds header w run (inl e))
      by_case r h w' run (ended k v e less call_ size behind flow) =
          let zero_bytes : k ≡ 0 = omega (
            arith,
            ap length (sym now ∙ flow),
            length-append (take k h) (s.pending w'),
            length-take k h,
            size,
            sized,
          ) in
          let is_end : r ≡ count 0 = e ∙ ap count zero_bytes in
          stream_over w w' header h no_more (run ∙ ap (λ x. some ((x, h), w')) is_end)
            (no_header os fuel fd rounds header w run (inr is_end))

  -- A frame at the front of the stream.
  module _ (rounds : ℕ) (header : Bytes) (f : Frame) (fs : List Frame) (w : os.World)
      (heard : IsHeard f)
      (onward : (w3 : os.World)
        → s.pending w3 ≡ encode fs
        → Listens os fuel fd rounds f.header fs w3) where
    v : IsFrame os.byte_order f
    v = heard.0

    after_print :
        (text : Bytes) (w1 w2 : os.World)
        → c_string (f.payload ++ 0 ∷ []) ≡ some text
        → str_eq text shutdown_message ≡ false
        → read_all os fuel fd header header_size w ≡ some ((count header_size, f.header), w1)
        → read_payload os fuel fd (length f.payload) w1
          ≡ some ((count (length f.payload), some (f.payload ++ 0 ∷ [])), w2)
        → s.pending w2 ≡ encode fs
        → Listens os fuel fd (suc rounds) header (f ∷ fs) w
    unfolding write_payload
    after_print text w1 w2 is_text other head body flow =
        let nul : Bytes = 0 ∷ [] in
        let block : Bytes = f.payload ++ nul in
        let (r, w3, run, writes) =
          write_all-Writes os o fuel (length f.payload) block w2
            (omega (arith, length-append f.payload nul)) (omega (arith, term.calm w2, heard.2)) in
        let still : s.pending w3 ≡ encode fs =
          write_all-Kept os s.pending term.write_quiet fuel (length f.payload) block w2 run
          ∙ flow in
        let body' : read_payload os fuel fd (announced os.byte_order f.header) w1
            ≡ some ((count (length f.payload), some block), w2) =
          ap (λ n. read_payload os fuel fd n w1) (sym v.payload_sized) ∙ body in
        by_count r w3 block run still body'
      where
        read : Heard os fuel fd f w w2
        read = record { header = header; w1 = w1; head = head; body = body }

        by_count :
            (r : Count) (w3 : os.World) (block : Bytes)
            → write_all os fuel 1 (f.payload ++ 0 ∷ []) (length f.payload) w2 ≡ some (r, w3)
            → s.pending w3 ≡ encode fs
            → read_payload os fuel fd (announced os.byte_order f.header) w1
              ≡ some ((count (length f.payload), some (f.payload ++ 0 ∷ [])), w2)
            → Listens os fuel fd (suc rounds) header (f ∷ fs) w
        by_count error w3 block run still body' =
            gives_up [] (f ∷ fs) true w w3 refl no_more
              (print_fails f text w2 read is_text other run)
              (not_printed os fuel fd rounds header w head (ground (arith, heard.1)) body' is_text
                other run)
        by_count (count k) w3 block run still body' =
            also os fuel fd rounds header f fs w w3
              (λ gs w' prints. then_prints f gs text k w w2 w3 w' read is_text other run prints)
              (printed os fuel fd rounds header w head (ground (arith, heard.1)) body' is_text other
                run)
              (onward w3 still)

    after_text :
        (w1 w2 : os.World)
        → read_all os fuel fd header header_size w ≡ some ((count header_size, f.header), w1)
        → read_payload os fuel fd (length f.payload) w1
          ≡ some ((count (length f.payload), some (f.payload ++ 0 ∷ [])), w2)
        → s.pending w2 ≡ encode fs
        → Listens os fuel fd (suc rounds) header (f ∷ fs) w
    after_text w1 w2 head body flow =
        let (text, is_text, short) = c_string-bound f.payload [] in
        elim (Bool-cases (str_eq text shutdown_message)) [
          | inr other ↦ after_print text w1 w2 is_text other head body flow
          | inl last ↦
              told [] fs f w w2 refl no_more
                (record { header = header; w1 = w1; head = head; body = body })
                (text, is_text, last)
                (last_message os fuel fd rounds header w head (ground (arith, heard.1))
                  (ap (λ n. read_payload os fuel fd n w1) (sym v.payload_sized) ∙ body) is_text
                  last)
        ]

    after_payload :
        (w1 w2 : os.World) (r : Count) (x : Option Bytes)
        → read_all os fuel fd header header_size w ≡ some ((count header_size, f.header), w1)
        → read_payload os fuel fd (length f.payload) w1 ≡ some ((r, x), w2)
        → Body os laws s bound line fuel f.payload (encode fs) w1 r x w2
        → Listens os fuel fd (suc rounds) header (f ∷ fs) w
    after_payload w1 w2 r x head run (inl (is, there, flow)) =
        after_text w1 w2 head
          (run
            ∙ ap (λ c. some ((c, x), w2)) is
            ∙ ap (λ y. some ((count (length f.payload), y), w2)) there)
          flow
    after_payload w1 w2 r x head run (inr (failed, _)) =
        let body : read_payload os fuel fd (length f.payload) w1 ≡ some ((error, x), w2) =
          run ∙ ap (λ c. some ((c, x), w2)) failed in
        gives_up [] (f ∷ fs) false w w2 refl no_more (payload_fails f header x w1 head body) (
          no_payload os fuel fd rounds header w head
            (ap (λ n. read_payload os fuel fd n w1) (sym v.payload_sized) ∙ body))

    after_header :
        (w1 : os.World) (r : Count) (h : Bytes)
        → length header ≡ header_size
        → read_all os fuel fd header header_size w ≡ some ((r, h), w1)
        → Front os laws s bound line fuel f.header (f.payload ++ encode fs) header w r h w1
        → Listens os fuel fd (suc rounds) header (f ∷ fs) w
    after_header w1 r h sized run (inr (failed, _, _)) =
        let head : read_all os fuel fd header header_size w ≡ some ((error, h), w1) =
          run ∙ ap (λ c. some ((c, h), w1)) failed in
        gives_up [] (f ∷ fs) false w w1 refl no_more (header_fails header h head)
          (no_header os fuel fd rounds header w run (inl failed))
    after_header w1 r h sized run (inl (is, text, flow)) =
        let same : h ≡ f.header =
          text
          ∙ ap (λ x. f.header ++ x)
              (nil_of_length (drop (length f.header) header)
                (omega (arith, length-drop (length f.header) header, v.header_sized, sized)))
          ∙ append-nil f.header in
        let (r2, x, w2, body, is_body) =
          read_payload-Body os laws s bound line fuel f.payload (encode fs) w1 flow
            (omega (arith, heard.2)) in
        after_payload w1 w2 r2 x
          (run
            ∙ ap (λ c. some ((c, h), w1)) (is ∙ ap count v.header_sized)
            ∙ ap (λ y. some ((count header_size, y), w1)) same)
          body is_body

  -- On a connection and a terminal whose calls are interrupted finitely often, when the stream is a
  -- sequence of whole frames that are not empty, with a struct for the header, fuel for the header,
  -- for each payload and for the interruptions, and more rounds than frames: `client_listen`
  -- returns with no access out of bounds. It reads the frames in their order and hands each payload
  -- that is not the shutdown message in turn to `write_payload` for the terminal, until the stream is over, and the result is false;
  -- or a payload is the shutdown message, and the result is true; or a call
  -- has failed: a read or the allocation of a payload, and the result is false, or a print, and the
  -- result is true.
  pub client_listen-Listens :
      (fs : List Frame) (rounds : ℕ) (header : Bytes) (w : os.World)
      → All IsHeard fs
      → length header ≡ header_size
      → s.pending w ≡ encode fs
      → length fs < rounds
      → header_size + bound < fuel
      → Listens os fuel fd rounds header fs w
  client_listen-Listens fs zero header w heard sized now rounds_left enough = absurd (omega arith)
  client_listen-Listens [] (suc rounds) header w heard sized now rounds_left enough =
      at_end rounds header w sized now enough
  client_listen-Listens (f ∷ fs) (suc rounds) header w heard sized now rounds_left enough =
      let head_size = heard.0.0.header_sized in
      let (r, h, w1, run, front) =
        read_all-Front os laws s bound line fuel f.header (f.payload ++ encode fs) header w now
          (omega (arith, head_size, sized)) (omega (arith, head_size, enough)) in
      after_header rounds header f fs w heard.0
        (λ w3 now3.
          client_listen-Listens fs rounds f.header w3 heard.1 head_size now3 (omega arith) enough)
        w1 r h sized (ap (λ n. read_all os fuel fd header n w) (sym head_size) ∙ run) front

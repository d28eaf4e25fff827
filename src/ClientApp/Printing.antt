-- ===== src/ClientApp/Printing.antt =====
-- What the listening thread of the client does with a frame, and what becomes of a run.

use c_chat_server.Base.{
  ℕ, suc, ◌≡◌, ap, ◌∙◌, Bytes, List, [], ◌∷◌, ◌++◌, Option, some, Bool, true, false, length, ◌>>=◌,
  ◌==◌, ◌⊎◌, inl, inr,
}
use c_chat_server.Os.{Os, Count, count, error}
use c_chat_server.Protocol.{header_size}
use c_chat_server.Io.{read_all}
use c_chat_server.Reader.Decode.{Frame, announced}
use c_chat_server.Text.{c_string, str_eq}
use c_chat_server.Transfer.{read_header, read_payload, write_payload}
use c_chat_server.Loop.{shutdown_message}
use c_chat_server.ClientApp.{listen_loop, client_listen}

-- A text that ends the client.
abbrev pub IsLast : Bytes → Type 0
IsLast p =
    (text : Bytes) × (c_string (p ++ 0 ∷ []) ≡ some text) × (str_eq text shutdown_message ≡ true)

module _ (os : Os) (fuel fd : ℕ) where
  -- The run of a frame, by its calls.
  module _ (m : ℕ) (header : Bytes) (w : os.World) where
    pub no_header :
        {r : Count} {h : Bytes} {w1 : os.World}
        → read_all os fuel fd header header_size w ≡ some ((r, h), w1)
        → (r ≡ error) ⊎ (r ≡ count 0)
        → client_listen os fuel fd (suc m) header w ≡ some (false, w1)
    unfolding client_listen listen_loop read_header
    no_header run (inl e) = rw (◌>>=◌, run, e)
    no_header run (inr e) = rw (◌>>=◌, run, e)

    module _ {h : Bytes} {w1 w2 : os.World}
        (run : read_all os fuel fd header header_size w ≡ some ((count header_size, h), w1)) where
      pub no_payload :
          {x : Option Bytes}
          → read_payload os fuel fd (announced os.byte_order h) w1 ≡ some ((error, x), w2)
          → client_listen os fuel fd (suc m) header w ≡ some (false, w2)
      unfolding client_listen listen_loop read_header announced
      no_payload body = rw (◌>>=◌, run, body)

      module _ {n : ℕ} {p text : Bytes} (some_bytes : (n == 0) ≡ false)
          (body : read_payload os fuel fd (announced os.byte_order h) w1
            ≡ some ((count n, some p), w2))
          (is_text : c_string p ≡ some text) where
        pub last_message :
            str_eq text shutdown_message ≡ true
            → client_listen os fuel fd (suc m) header w ≡ some (true, w2)
        unfolding client_listen listen_loop read_header announced
        last_message e = rw (◌>>=◌, run, body, some_bytes, is_text, e)

        pub not_printed :
            {w3 : os.World}
            → str_eq text shutdown_message ≡ false
            → write_payload os fuel 1 p n w2 ≡ some (error, w3)
            → client_listen os fuel fd (suc m) header w ≡ some (true, w3)
        unfolding client_listen listen_loop read_header announced
        not_printed e print = rw (◌>>=◌, run, body, some_bytes, is_text, e, print)

        pub printed :
            {w3 : os.World} {k : ℕ}
            → str_eq text shutdown_message ≡ false
            → write_payload os fuel 1 p n w2 ≡ some (count k, w3)
            → client_listen os fuel fd (suc m) header w ≡ client_listen os fuel fd m h w3
        unfolding client_listen listen_loop read_header announced
        printed e print = rw (◌>>=◌, run, body, some_bytes, is_text, e, print)

  -- A frame that is read whole.
  pub record Heard (f : Frame) (w w2 : os.World) : Type 0 where
    pub header : Bytes
    pub w1 : os.World
    pub head : read_all os fuel fd header header_size w ≡ some ((count header_size, f.header), w1)
    pub body :
        read_payload os fuel fd (length f.payload) w1
        ≡ some ((count (length f.payload), some (f.payload ++ 0 ∷ [])), w2)

  -- Frames that are read from the connection, whose payloads are not the shutdown message, and are
  -- written to the terminal, one after the other.
  pub data Prints : List Frame → os.World → os.World → Type 0 where
    no_more : {w : os.World} → Prints [] w w
    then_prints :
        (f : Frame) (fs : List Frame) (text : Bytes) (k : ℕ) (w w2 w3 w' : os.World)
        → Heard f w w2
        → c_string (f.payload ++ 0 ∷ []) ≡ some text
        → str_eq text shutdown_message ≡ false
        → write_payload os fuel 1 (f.payload ++ 0 ∷ []) (length f.payload) w2 ≡ some (count k, w3)
        → Prints fs w3 w'
        → Prints (f ∷ fs) w w'

  -- A call that ends the thread, in the world that the frames before leave, and what the thread then
  -- leaves in the flag.
  pub data Fails (w w' : os.World) : Bool → Type 0 where
    header_fails :
        (header h : Bytes)
        → read_all os fuel fd header header_size w ≡ some ((error, h), w')
        → Fails w w' false
    payload_fails :
        (f : Frame) (header : Bytes) (x : Option Bytes) (w1 : os.World)
        → read_all os fuel fd header header_size w ≡ some ((count header_size, f.header), w1)
        → read_payload os fuel fd (length f.payload) w1 ≡ some ((error, x), w')
        → Fails w w' false
    print_fails :
        (f : Frame) (text : Bytes) (w2 : os.World)
        → Heard f w w2
        → c_string (f.payload ++ 0 ∷ []) ≡ some text
        → str_eq text shutdown_message ≡ false
        → write_payload os fuel 1 (f.payload ++ 0 ∷ []) (length f.payload) w2 ≡ some (error, w')
        → Fails w w' true

  -- The stream is over; or the server has said that it shuts down; or a call has failed. The
  -- payloads before are printed.
  pub data Listens (rounds : ℕ) (header : Bytes) (fs : List Frame) (w : os.World) : Type 0 where
    stream_over :
        (w1 w' : os.World) (header' h : Bytes)
        → Prints fs w w1
        → read_all os fuel fd header' header_size w1 ≡ some ((count 0, h), w')
        → client_listen os fuel fd rounds header w ≡ some (false, w')
        → Listens rounds header fs w
    told :
        (before after : List Frame) (f : Frame) (w1 w' : os.World)
        → fs ≡ before ++ f ∷ after
        → Prints before w w1
        → Heard f w1 w'
        → IsLast f.payload
        → client_listen os fuel fd rounds header w ≡ some (true, w')
        → Listens rounds header fs w
    gives_up :
        (before after : List Frame) (b : Bool) (w1 w' : os.World)
        → fs ≡ before ++ after
        → Prints before w w1
        → Fails w1 w' b
        → client_listen os fuel fd rounds header w ≡ some (b, w')
        → Listens rounds header fs w

  -- A printed frame in front of what follows.
  module _ (rounds : ℕ) (header : Bytes) (f : Frame) (fs : List Frame) (w w3 : os.World)
      (prints_first : (gs : List Frame) (w' : os.World) → Prints gs w3 w' → Prints (f ∷ gs) w w')
      (run : client_listen os fuel fd (suc rounds) header w
        ≡ client_listen os fuel fd rounds f.header w3) where
    pub also : Listens rounds f.header fs w3 → Listens (suc rounds) header (f ∷ fs) w
    also (stream_over w1 w' header' h prints over rest) =
        stream_over w1 w' header' h (prints_first fs w1 prints) over (run ∙ rest)
    also (told before after g w1 w' split prints heard last rest) =
        told (f ∷ before) after g w1 w' (ap (λ x. f ∷ x) split) (prints_first before w1 prints)
          heard last (run ∙ rest)
    also (gives_up before after b w1 w' split prints fails rest) =
        gives_up (f ∷ before) after b w1 w' (ap (λ x. f ∷ x) split) (prints_first before w1 prints)
          fails (run ∙ rest)

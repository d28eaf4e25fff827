-- ===== src/Fuzzer/Valid.antt =====
-- tests/fuzzer_valid.c: frames of random payloads. `header` and `payload` are the arrays on the
-- stack; a round finds in them what the round before has left.
use c_chat_server.Base.{
  ℕ, zero, suc, ◌%◌, Bytes, [], ◌∷◌, M, pure, checked, ◌>>=◌, ltb, if◌then◌else◌, memcpy, slice,
}
use c_chat_server.Os.{Os, call}
use c_chat_server.Protocol.{header_size, htonl, u32_bytes}
use c_chat_server.Setup.{Net, addr}
use c_chat_server.Fuzzer.{max_payload, FuzzArgs, Dice, fill, pause, run_client, run_clients}

abbrev pub clients : ℕ
clients = 1000

abbrev pub fuzz_args : FuzzArgs
fuzz_args = record { ip = addr; port = 8000; messages = 500; delay_us = 0 }

module _ (os : Os) (net : Net os) (dice : Dice os) where
  -- The length of the payload and the header for it.
  unfoldable pub build_header : (header : Bytes) → M os.World (ℕ × Bytes)
  build_header header = do
    r ← call dice.rand
    let payload_len = r % max_payload
    let net_len = htonl os.byte_order payload_len
    sized ← checked (memcpy header 0 (u32_bytes os.byte_order net_len))
    t ← call dice.rand
    typed ← checked (memcpy sized 4 ((t % 3) ∷ []))
    d ← call dice.rand
    done ← checked (memcpy typed 5 ((d % 2) ∷ []))
    pure (payload_len, done)

  -- `if (payload_len > 0) send(fd, payload, payload_len, 0);`
  unfoldable pub send_payload : (fd payload_len : ℕ) → (payload : Bytes) → M os.World (Unit {0})
  send_payload fd payload_len payload =
      let sending : M os.World (Unit {0}) = do
        body ← checked (slice payload 0 payload_len)
        _ ← call (os.send fd body)
        pure tt
      in if ltb 0 payload_len then sending else pure tt

  -- A round of the loop, and the arrays behind it.
  unfoldable pub send_frame :
      FuzzArgs → (fd : ℕ) → (header payload : Bytes) → M os.World (Bytes × Bytes)
  unfolding build_header send_payload
  send_frame fa fd header payload = do
    built ← build_header header
    filled ← fill os net dice built.0 0 payload
    front ← checked (slice built.1 0 header_size)
    _ ← call (os.send fd front)
    _ ← send_payload fd built.0 filled
    _ ← pause os net dice fa
    pure (built.1, filled)

  unfoldable pub send_frames :
      FuzzArgs → (messages fd : ℕ) → (header payload : Bytes) → M os.World (Unit {0})
  unfolding send_frame
  send_frames fa zero fd header payload = pure tt
  send_frames fa (suc messages) fd header payload = do
    arrays ← send_frame fa fd header payload
    send_frames fa messages fd (arrays.0) (arrays.1)

  unfoldable pub fuzz_client : FuzzArgs → (header payload : Bytes) → M os.World (Unit {0})
  unfolding run_client send_frames
  fuzz_client fa header payload =
      run_client os net dice fa (λ fd. send_frames fa fa.messages fd header payload)

  unfoldable pub fuzzer_main : M os.World ℕ
  unfolding run_clients
  fuzzer_main = run_clients os net dice fuzz_args clients

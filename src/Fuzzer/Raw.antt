-- ===== src/Fuzzer/Raw.antt =====
-- tests/fuzzer_raw.c: random bytes. `buf` is the array on the stack; a round finds in it what the
-- round before has left.
use c_chat_server.Base.{ℕ, zero, suc, ◌+◌, ◌%◌, Bytes, M, pure, checked, ◌>>=◌, slice}
use c_chat_server.Os.{Os, call}
use c_chat_server.Setup.{Net, addr}
use c_chat_server.Fuzzer.{max_payload, FuzzArgs, Dice, fill, pause, run_client, run_clients}

abbrev pub clients : ℕ
clients = 10000

abbrev pub fuzz_args : FuzzArgs
fuzz_args = record { ip = addr; port = 8000; messages = 50; delay_us = 1 }

module _ (os : Os) (net : Net os) (dice : Dice os) where
  -- A round of the loop, and the array behind it.
  unfoldable pub send_noise : FuzzArgs → (fd : ℕ) → (buf : Bytes) → M os.World Bytes
  unfolding fill pause
  send_noise fa fd buf = do
    r ← call dice.rand
    let len = r % max_payload + 1
    filled ← fill os net dice len 0 buf
    bs ← checked (slice filled 0 len)
    _ ← call (os.send fd bs)
    _ ← pause os net dice fa
    pure filled

  unfoldable pub send_noises : FuzzArgs → (messages fd : ℕ) → (buf : Bytes) → M os.World (Unit {0})
  unfolding send_noise
  send_noises fa zero fd buf = pure tt
  send_noises fa (suc messages) fd buf = do
    filled ← send_noise fa fd buf
    send_noises fa messages fd filled

  unfoldable pub fuzz_client : FuzzArgs → (buf : Bytes) → M os.World (Unit {0})
  unfolding run_client send_noises
  fuzz_client fa buf = run_client os net dice fa (λ fd. send_noises fa fa.messages fd buf)

  unfoldable pub fuzzer_main : M os.World ℕ
  unfolding run_clients
  fuzzer_main = run_clients os net dice fuzz_args clients

-- ===== src/Examples/Fuzzers.antt =====
-- Runs of the fuzzers' clients, on a socket that takes all bytes.
use c_chat_server.Base.{
  ℕ, ◌+◌, ◌≡◌, refl, Bytes, List, [], ◌∷◌, ◌++◌, some, length, replicate, length-replicate, All,
}
use c_chat_server.Os.{Endian, success}
use c_chat_server.Os.Script.{Script}
use c_chat_server.Os.Steady.{eager}
use c_chat_server.Setup.{Net}
use c_chat_server.Reader.Decode.{Frame, decode, encode}
use c_chat_server.Fuzzer.{FuzzArgs, Dice, run_clients}
use c_chat_server.Fuzzer.Arrays.{IsSending}
use c_chat_server.Fuzzer.Frames.{IsShort, fuzz_client-Frames}
use c_chat_server.Fuzzer.Noise.{IsChunk, all_of, fuzz_client-Chunks}
use c_chat_server.Fuzzer.Valid as Valid
use c_chat_server.Fuzzer.Raw as Raw

abbrev reachable : Net eager
reachable = record {
  socket = λ s. (some 5, s);
  setsockopt = λ fd s. (success, s);
  bind = λ fd a s. (success, s);
  listen = λ fd n s. (success, s);
  connect = λ fd a s. (success, s);
  inet_pton = λ text. some (127 ∷ 0 ∷ 0 ∷ 1 ∷ []);
  mutex_init = λ s. (success, s);
  mutex_destroy = λ s. (success, s);
  epoll_create = λ s. (some 4, s);
}

-- `rand` counts.
abbrev counting : Dice eager
counting = record {
  time = λ s. (0, s);
  srand = λ seed s. (tt, record s { next_address = seed });
  rand = λ s. (s.next_address, record s { next_address = s.next_address + 1 });
  usleep = λ us s. (success, s);
  pthread_create = λ fa s. (some 1, s);
  pthread_join = λ thread s. (success, s);
}

counting-IsSending : IsSending eager counting 5
counting-IsSending = record {
  sent = λ s. s.outbound;
  send_all = λ bs s. refl;
  rand_quiet = λ s. refl;
  usleep_quiet = λ us s. refl;
  close_quiet = λ s. refl;
}

abbrev two_messages : FuzzArgs
two_messages = record { ip = []; port = 8000; messages = 2; delay_us = 1 }

abbrev seeded : Script
seeded = record { moves = []; inbound = []; outbound = []; next_address = 3 }

fuzz_client-Frames_example :
    (fs : List Frame) × (w' : Script) × (Valid.fuzz_client eager reachable counting two_messages
        (replicate 6 0xbe)
        (replicate 4096 0xbe)
        seeded
      ≡ some (tt, w'))
    × (w'.outbound ≡ [] ++ encode fs)
    × (length fs ≡ 2)
    × ((order : Endian) → All (IsShort order) fs × (decode order 2 (encode fs) ≡ (fs, [])))
unfolding counting-IsSending
fuzz_client-Frames_example =
    fuzz_client-Frames eager reachable counting 5 counting-IsSending two_messages (replicate 6 0xbe)
      (replicate 4096 0xbe) seeded seeded seeded refl refl refl (length-replicate {A = ℕ} 4096 0xbe)

fuzz_client-Chunks_example :
    (chunks : List Bytes) × (w' : Script) × (Raw.fuzz_client eager reachable counting two_messages
        (replicate 4096 0xbe)
        seeded
      ≡ some (tt, w'))
    × (w'.outbound ≡ [] ++ all_of chunks)
    × (length chunks ≡ 2)
    × All IsChunk chunks
unfolding counting-IsSending
fuzz_client-Chunks_example =
    fuzz_client-Chunks eager reachable counting 5 counting-IsSending two_messages
      (replicate 4096 0xbe) seeded seeded seeded refl refl (length-replicate {A = ℕ} 4096 0xbe)

-- All threads start and are joined.
run_clients_run :
    run_clients eager reachable counting two_messages 3 seeded
    ≡ some (0, record seeded { next_address = 0 })
unfolding run_clients
run_clients_run = refl

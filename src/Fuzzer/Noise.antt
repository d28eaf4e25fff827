-- ===== src/Fuzzer/Noise.antt =====
-- What a client of tests/fuzzer_raw.c sends: chunks of random bytes.
use c_chat_server.Base.{
  ℕ, zero, suc, ◌+◌, ◌%◌, ◌≤◌, ◌≡◌, refl, arith, ap, sym, ◌∙◌, Bytes, List, [], ◌∷◌, ◌++◌, some,
  length, take, length-take, slice-some, ◌>>=◌, ◌>>◌, All, append-nil, append_assoc,
}
use c_chat_server.Os.{Os, success}
use c_chat_server.Setup.{Net}
use c_chat_server.Fuzzer.{FuzzArgs, Dice, server_address, run_client, max_payload}
use c_chat_server.Fuzzer.Arrays.{IsSending, fill-some, pause-some}
use c_chat_server.Fuzzer.Raw.{send_noise, send_noises, fuzz_client}

abbrev pub all_of : List Bytes → Bytes
all_of [] = []
all_of (bs ∷ rest) = bs ++ all_of rest

-- What one `send` of the fuzzer carries.
abbrev pub IsChunk : Bytes → Type 0
IsChunk bs = (1 ≤ length bs) × (length bs ≤ max_payload)

module _ (os : Os) (net : Net os) (dice : Dice os) (fd : ℕ) (line : IsSending os dice fd) where
  send_noise-some :
      (fa : FuzzArgs) (buf : Bytes) (w : os.World)
      → length buf ≡ max_payload
      → (bs : Bytes) × (filled : Bytes) × (w' : os.World) × (send_noise os net dice fa fd buf w
          ≡ some (filled, w'))
        × (length filled ≡ max_payload)
        × (line.sent w' ≡ line.sent w ++ bs)
        × IsChunk bs
  unfolding send_noise
  send_noise-some fa buf w roomy =
      let r = dice.rand w in
      let n = r.0 % 4096 + 1 in
      let (filled, w2, fills, as_long, quiet) =
        fill-some os net dice fd line n 0 buf (r.1) (omega (arith, roomy)) in
      let bs = take n filled in
      let w3 = (os.send fd bs w2).1 in
      let (w4, paused, quiet4) = pause-some os net dice fd line fa w3 in
      let size : length bs ≡ n = omega (arith, length-take n filled, as_long, roomy) in
      (
        bs,
        filled,
        w4,
        rw (◌>>=◌, fills, slice-some filled 0 n (omega (arith, as_long, roomy)), paused),
        as_long ∙ roomy,
        quiet4 ∙ line.send_all bs w2 ∙ ap (λ x. x ++ bs) (quiet ∙ line.rand_quiet w),
        (omega (arith, size), omega (arith, size)),
      )

  send_noises-some :
      (fa : FuzzArgs) (messages : ℕ) (buf : Bytes) (w : os.World)
      → length buf ≡ max_payload
      → (chunks : List Bytes) × (w' : os.World) × (send_noises os net dice fa messages fd buf w
          ≡ some (tt, w'))
        × (line.sent w' ≡ line.sent w ++ all_of chunks)
        × (length chunks ≡ messages)
        × All IsChunk chunks
  unfolding send_noises
  send_noises-some fa zero buf w roomy = ([], w, refl, sym (append-nil (line.sent w)), refl, tt)
  send_noises-some fa (suc messages) buf w roomy =
      let (bs, filled, w1, run, roomy', sent1, is) = send_noise-some fa buf w roomy in
      let (chunks, w2, rest, sent2, count, are) = send_noises-some fa messages filled w1 roomy' in
      (
        bs ∷ chunks,
        w2,
        rw (◌>>=◌, run) rest,
        sent2 ∙ ap (λ x. x ++ all_of chunks) sent1 ∙ append_assoc (line.sent w) bs (all_of chunks),
        ap suc count,
        (is, are),
      )

  -- For a client that gets the socket and the connection, with an array of 4096 bytes on its stack
  -- and a blocking socket that takes all the bytes of a `send`: whatever `rand` gives,
  -- `fuzz_client` returns with no access out of bounds, and has sent as many chunks as there are
  -- messages, of 1 to 4096 bytes each.
  pub fuzz_client-Chunks :
      (fa : FuzzArgs) (buf : Bytes) (w w1 w2 : os.World)
      → net.socket w ≡ (some fd, w1)
      → net.connect fd (server_address os net dice fa) w1 ≡ (success, w2)
      → length buf ≡ max_payload
      → (chunks : List Bytes) × (w' : os.World) × (fuzz_client os net dice fa buf w ≡ some (tt, w'))
        × (line.sent w' ≡ line.sent w2 ++ all_of chunks)
        × (length chunks ≡ fa.messages)
        × All IsChunk chunks
  unfolding fuzz_client run_client
  fuzz_client-Chunks fa buf w w1 w2 has_socket connects roomy =
      let (chunks, w3, run, sent3, count, are) = send_noises-some fa fa.messages buf w2 roomy in
      (
        chunks,
        (os.close fd w3).1,
        rw (◌>>=◌, has_socket, connects, run, ◌>>◌),
        line.close_quiet w3 ∙ sent3,
        count,
        are,
      )

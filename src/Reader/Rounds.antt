-- ===== src/Reader/Rounds.antt =====
-- The loop of `handle_client_read`, round by round, with the messages that it handles.
use mathlib.Core.Path.{subst}
use c_chat_server.Base.{
  ℕ, suc, ◌+◌, ◌*◌, ◌≤◌, ◌<◌, ◌≡◌, ◌^◌, refl, arith, ap, sym, ◌∙◌, Bytes, some, length, ◌>>=◌, inl,
  inr, ==_refl, ◌⊎◌,
}
use c_chat_server.Os.{Os, Io, Status, ok, again, interrupted, failed, success, failure}
use c_chat_server.Os.Laws.{
  IsAllocator, IsPlentiful, HasClock, IsServing, IsReadable, answered, is_ok, is_again,
  is_interrupted, is_failed,
}
use c_chat_server.Protocol.{msg_size_limit}
use c_chat_server.Client.{ClientInfo, ReadState, read_header, read_payload, buf_size}
use c_chat_server.Client.Buffer.{HasBuffer}
use c_chat_server.Server.{Server, get_client-some}
use c_chat_server.Broadcast.Rounds.{after}
use c_chat_server.Broadcast.Direct.{IsDirect}
use c_chat_server.Handlers.Room.{IsMember, IsRoom}
use c_chat_server.Reader.{
  Round, stop, next, complete, receive, wanted, payload_complete, handle_client_read,
}
use c_chat_server.Reader.Position.{IsReader, Position}
use c_chat_server.Reader.Frames.{Received, grows, completes, ends, too_long, receive-Received}
use c_chat_server.Reader.Steps.{Steps, StepsIn, SameBut, receive-StepsIn}
use c_chat_server.Reader.Going.{IsReading, Goes, Goes-same, Goes-trans, Rests, put-Goes}
use c_chat_server.Reader.Returns.{payload_complete-Goes}

-- One round counts one, and two for a payload that is yet to come.
abbrev pub phase : ReadState → ℕ
phase read_header = 0
phase read_payload = 1

module _ (os : Os) (fuel info m : ℕ) (s : Server os.World) {c d : ClientInfo} {answer : Io Bytes}
    {w1 : os.World} where
  round-stop :
      {r : Status}
      → s.clients info ≡ some c
      → os.read c.client_fd (wanted c) s.world ≡ (answer, w1)
      → receive os.byte_order c answer ≡ some (stop r, d)
      → handle_client_read os fuel (suc m) info s ≡ some (r, after s info d w1)
  unfolding handle_client_read
  round-stop here e run = rw (get_client-some info s here, ◌>>=◌, e, run)

  round-next :
      s.clients info ≡ some c
      → os.read c.client_fd (wanted c) s.world ≡ (answer, w1)
      → receive os.byte_order c answer ≡ some (next, d)
      → handle_client_read os fuel (suc m) info s
        ≡ handle_client_read os fuel m info (after s info d w1)
  unfolding handle_client_read
  round-next here e run = rw (get_client-some info s here, ◌>>=◌, e, run)

  round-failure :
      {s' : Server os.World}
      → s.clients info ≡ some c
      → os.read c.client_fd (wanted c) s.world ≡ (answer, w1)
      → receive os.byte_order c answer ≡ some (complete, d)
      → payload_complete os fuel info (after s info d w1) ≡ some (failure, s')
      → handle_client_read os fuel (suc m) info s ≡ some (failure, s')
  unfolding handle_client_read
  round-failure here e run done = rw (get_client-some info s here, ◌>>=◌, e, run, done)

  round-complete :
      {s' : Server os.World}
      → s.clients info ≡ some c
      → os.read c.client_fd (wanted c) s.world ≡ (answer, w1)
      → receive os.byte_order c answer ≡ some (complete, d)
      → payload_complete os fuel info (after s info d w1) ≡ some (success, s')
      → handle_client_read os fuel (suc m) info s ≡ handle_client_read os fuel m info s'
  unfolding handle_client_read
  round-complete here e run done = rw (get_client-some info s here, ◌>>=◌, e, run, done)

module _ (os : Os) (bound : ℕ) (serve : IsServing os bound) (direct : IsDirect os bound) (fuel : ℕ)
    (enough : msg_size_limit + bound < fuel) (laws : IsAllocator os) (reads : IsReadable os)
    (rich : IsPlentiful os) (clock : HasClock os) (info : ℕ) where
  -- A round that goes on, by its calls: `read` gives bytes, and they do not complete the frame, or
  -- they do and its message is handled.
  pub data Calls (s : Server os.World) (c : ClientInfo) (bs : Bytes) (s' : Server os.World)
      : Type 0 where
    in_frame :
        (d : ClientInfo) (w1 : os.World)
        → os.read c.client_fd (wanted c) s.world ≡ (ok bs, w1)
        → receive os.byte_order c (ok bs) ≡ some (next, d)
        → s' ≡ after s info d w1
        → Calls s c bs s'
    frame_done :
        (d : ClientInfo) (w1 : os.World)
        → os.read c.client_fd (wanted c) s.world ≡ (ok bs, w1)
        → receive os.byte_order c (ok bs) ≡ some (complete, d)
        → payload_complete os fuel info (after s info d w1) ≡ some (success, s')
        → Calls s c bs s'

  -- A round that goes on: the bytes that came in, and the server and the client behind it.
  pub record Onward (s : Server os.World) (c : ClientInfo) (s' : Server os.World) (d : ClientInfo)
      (bs : Bytes) : Type 0 where
    pub at : s.clients info ≡ some c
    pub calls : Calls s c bs s'
    pub goes : Goes info s s'
    pub here : s'.clients info ≡ some d
    pub block : Bytes
    pub reading : IsReading os d block
    pub socket : d.client_fd ≡ c.client_fd
    pub longer : d.partial_len ≤ c.partial_len + buf_size
    pub counts : 1 + phase d.state ≤ 2 * length bs + phase c.state

  -- A round returns, or the loop goes on.
  pub data OneRound (s : Server os.World) (c : ClientInfo) : Type 0 where
    returns :
        (r : Status) (s' : Server os.World)
        → ((m : ℕ) → handle_client_read os fuel (suc m) info s ≡ some (r, s'))
        → Goes info s s'
        → Rests os info c.partial_len r s'
        → OneRound s c
    goes_on :
        (s' : Server os.World) (d : ClientInfo) (bs : Bytes)
        → ((m : ℕ)
            → handle_client_read os fuel (suc m) info s ≡ handle_client_read os fuel m info s')
        → Onward s c s' d bs
        → OneRound s c

  module _ (s : Server os.World) (c : ClientInfo) (block : Bytes) (here : s.clients info ≡ some c)
      (v : IsReading os c block) (room : IsRoom s) (small : c.partial_len + buf_size < 2 ^ 61)
      (enough' : c.partial_len + buf_size + 130 + bound < fuel) where
    same-IsMember : (d : ClientInfo) → SameBut c d → IsMember d
    same-IsMember d same = subst IsMember (sym same) (record {
      queue = v.member.queue;
      limit = v.member.limit;
      named = v.member.named;
      sized = v.member.sized;
      ended = v.member.ended;
    })

    same-HasBuffer : (d : ClientInfo) → SameBut c d → HasBuffer d block
    same-HasBuffer d same =
        subst (λ x. HasBuffer x block) (sym same)
          (record {
            is_block = v.buffered.is_block;
            within = v.buffered.within;
            used = v.buffered.used;
            least = v.buffered.least;
          })

    put-d : (d : ClientInfo) (w : os.World) → IsMember d → Goes info s (after s info d w)
    put-d d w m = put-Goes s s info d w (Goes-same room) m

    -- An answer without bytes.
    stopped :
        (answer : Io Bytes) (w1 : os.World) (r : Status)
        → os.read c.client_fd (wanted c) s.world ≡ (answer, w1)
        → receive os.byte_order c answer ≡ some (stop r, c)
        → OneRound s c
    stopped answer w1 r e run =
        returns r (after s info c w1) (λ m. round-stop os fuel info m s here e run)
          (put-d c w1 v.member)
          (record { client = c; there = rw (==_refl info); valid = inr (block, v, omega arith) })

    module _ (bs : Bytes) (w1 : os.World)
        (came : os.read c.client_fd (wanted c) s.world ≡ (ok bs, w1)) (d : ClientInfo) where
      at_next :
          receive os.byte_order c (ok bs) ≡ some (next, d)
          → Steps c bs (next, d)
          → IsReader os.byte_order d
          → OneRound s c
      at_next run st reader =
          let (from_header, to_payload, some_bytes) = st.onward refl in
          goes_on (after s info d w1) d bs (λ m. round-next os fuel info m s here came run)
            (record {
              at = here;
              calls = in_frame d w1 came run refl;
              goes = put-d d w1 (same-IsMember d st.same);
              here = rw (==_refl info);
              block = block;
              reading = record {
                member = same-IsMember d st.same;
                buffered = same-HasBuffer d st.same;
                reader = reader;
              };
              socket = ap (λ x. x.client_fd) st.same;
              longer = omega (arith, ap (λ x. x.partial_len) st.same);
              counts = omega (arith, ap phase from_header, ap phase to_payload, some_bytes);
            })

      at_complete :
          receive os.byte_order c (ok bs) ≡ some (complete, d)
          → Steps c bs (complete, d)
          → IsReader os.byte_order d
          → d.state ≡ read_payload
          → d.payload_bytes_read ≡ d.expected_payload_len
          → OneRound s c
      at_complete run st reader state full =
          let (at_most, parsed) = subst (Position os.byte_order d) state reader.position in
          let len = ap (λ x. x.partial_len) st.same in
          let s1 : Server os.World = after s info d w1 in
          let reading : IsReading os d block = record {
            member = same-IsMember d st.same;
            buffered = same-HasBuffer d st.same;
            reader = reader;
          } in
          let g = put-d d w1 (same-IsMember d st.same) in
          let (r, s', done, h, outcome) =
            payload_complete-Goes os bound serve direct fuel enough laws rich clock info s1 d block
              (rw (==_refl info)) reading g.room (omega (arith, full, parsed.limit))
              (omega (arith, full, parsed.limit, len, small))
              (omega (arith, full, parsed.limit, len, enough')) in
          let both : Goes info s s' = Goes-trans g h in
          elim outcome [
            | inl refused ↦
                returns failure s'
                  (λ m.
                    round-failure os fuel info m s here came run
                      (done ∙ ap (λ x. some (x, s')) refused))
                  both
                  (let (e, there, _) = both.moves info (c, here, v.member) in
                    record { client = e; there = there; valid = inl refl })
            | inr (fine, e, there, idle) ↦
                goes_on s' e bs
                  (λ m.
                    round-complete os fuel info m s here came run
                      (done ∙ ap (λ x. some (x, s')) fine))
                  (record {
                    at = here;
                    calls = frame_done d w1 came run (done ∙ ap (λ x. some (x, s')) fine);
                    goes = both;
                    here = there;
                    block = idle.block;
                    reading = idle.reading;
                    socket = idle.same_socket ∙ ap (λ x. x.client_fd) st.same;
                    longer = omega (arith, idle.shorter, full, parsed.limit, len);
                    counts = omega (arith, ap phase idle.at_header, ap phase (st.whole refl));
                  })
          ]

      at_stop :
          (r : Status)
          → receive os.byte_order c (ok bs) ≡ some (stop r, d)
          → Steps c bs (stop r, d)
          → (r ≡ failure) ⊎ IsReader os.byte_order d
          → OneRound s c
      at_stop r run st ending =
          returns r (after s info d w1) (λ m. round-stop os fuel info m s here came run)
            (put-d d w1 (same-IsMember d st.same))
            (record {
              client = d;
              there = rw (==_refl info);
              valid = elim ending [
                | inl refused ↦ inl refused
                | inr reader ↦ inr (
                  block,
                  record {
                    member = same-IsMember d st.same;
                    buffered = same-HasBuffer d st.same;
                    reader = reader;
                  },
                  omega (arith, ap (λ x. x.partial_len) st.same),
                )
              ];
            })

    -- With room for one more payload, a round returns or goes on, and leaves a room.
    pub one_round : OneRound s c
    unfolding receive
    one_round = elim (answered (os.read c.client_fd (wanted c) s.world)) [
      | is_again w1 e ↦ stopped again w1 success e refl
      | is_interrupted w1 e ↦ stopped interrupted w1 failure e refl
      | is_failed w1 e ↦ stopped failed w1 failure e refl
      | is_ok bs w1 e ↦
          let (r, d, run, received) =
            receive-Received os.byte_order c bs v.reader (reads.within _ _ _ _ _ e) in
          by_case bs w1 e r d run (subst (StepsIn c bs) run (receive-StepsIn os.byte_order c bs))
            received
    ]
      where
        by_case :
            (bs : Bytes) (w1 : os.World)
            → os.read c.client_fd (wanted c) s.world ≡ (ok bs, w1)
            → (r : Round) (d : ClientInfo) → receive os.byte_order c (ok bs) ≡ some (r, d)
            → Steps c bs (r, d)
            → Received os.byte_order c bs r d
            → OneRound s c
        by_case bs w1 came r d run st (grows (inl (e, _)) reader held) =
            at_next bs w1 came d (run ∙ ap (λ x. some (x, d)) e)
              (subst (λ x. Steps c bs (x, d)) e st) reader
        by_case bs w1 came r d run st (grows (inr (e, _)) reader held) =
            at_stop bs w1 came d success (run ∙ ap (λ x. some (x, d)) e)
              (subst (λ x. Steps c bs (x, d)) e st) (inr reader)
        by_case bs w1 came r d run st (completes e reader state full held) =
            at_complete bs w1 came d (run ∙ ap (λ x. some (x, d)) e)
              (subst (λ x. Steps c bs (x, d)) e st) reader state full
        by_case bs w1 came r d run st (ends e at nil) =
            at_stop bs w1 came d failure (run ∙ ap (λ x. some (x, d)) e)
              (subst (λ x. Steps c bs (x, d)) e st) (inl refl)
        by_case bs w1 came r d run st (too_long e at all is long) =
            at_stop bs w1 came d failure (run ∙ ap (λ x. some (x, d)) e)
              (subst (λ x. Steps c bs (x, d)) e st) (inl refl)

-- ===== src/Reader/Returns.antt =====
-- A complete payload, whatever its bytes are: `payload_complete` returns, and the reader can go on.
use c_chat_server.Base.{
  ℕ, ◌+◌, ◌≤◌, ◌<◌, ◌≡◌, ◌^◌, refl, arith, ap, ◌∙◌, Bytes, some, Bool, length, ◌==◌, ==_refl, inl,
  inr, ◌⊎◌, Bool-cases,
}
use c_chat_server.Os.{Os, Status, success, failure}
use c_chat_server.Os.Laws.{IsAllocator, IsPlentiful, HasClock, IsServing, Status-cases}
use c_chat_server.Protocol.{header_size, msg_size_limit}
use c_chat_server.Client.{ClientInfo, buf_size}
use c_chat_server.Client.Buffer.{HasBuffer, clear_client_buffer-empty}
use c_chat_server.Text.{copy_buffer}
use c_chat_server.Text.Copies.{copy_buffer-take}
use c_chat_server.Server.{Server}
use c_chat_server.Broadcast.Rounds.{after}
use c_chat_server.Broadcast.Direct.{IsDirect}
use c_chat_server.Handlers.Room.{IsMember, IsRoom}
use c_chat_server.Payload.Returns.{renamed, process_payload-Processed}
use c_chat_server.Reader.{payload_complete, finish_message, next_header}
use c_chat_server.Reader.Going.{IsReading, Goes, Goes-same, Goes-trans, Idle, put-Goes}
use c_chat_server.Reader.Finish.{
  with_message, append_to_client_buffer-some, finish_message-some, payload_complete-last,
  finish_message-failure, payload_complete-failure, payload_complete-more,
}

module _ (os : Os) (bound : ℕ) (serve : IsServing os bound) (direct : IsDirect os bound) (fuel : ℕ)
    (enough : msg_size_limit + bound < fuel) (laws : IsAllocator os) (rich : IsPlentiful os)
    (clock : HasClock os) (info : ℕ) where
  -- What the end of a message leaves: the client has an empty buffer, unless the message is refused.
  Finished : (c : ClientInfo) (s : Server os.World) → Type 0
  Finished c s =
      ((s' : Server os.World) × (finish_message os fuel info s ≡ some (failure, s'))
        × Goes info s s')
      ⊎ ((s' : Server os.World) × (len : ℕ) × (name : Bytes) × (name_len : ℕ) × (has_name : Bool)
          × (block' : Bytes) × (finish_message os fuel info s ≡ some (success, s'))
          × Goes info s s'
          × (s'.clients info
              ≡ some (with_message (renamed c len name name_len has_name) block' 0 buf_size))
          × IsMember (with_message (renamed c len name name_len has_name) block' 0 buf_size)
          × HasBuffer (with_message (renamed c len name name_len has_name) block' 0 buf_size)
              block')

  finish_message-Finished :
      (s : Server os.World) (c : ClientInfo) (block : Bytes)
      → s.clients info ≡ some c
      → IsMember c
      → HasBuffer c block
      → IsRoom s
      → c.partial_len < 2 ^ 61
      → c.partial_len + 130 + bound < fuel
      → Finished c s
  unfolding Finished
  finish_message-Finished s c block here m b room small enough' =
      let (w1, copied) =
        copy_buffer-take os laws rich block c.partial_len s.world
          (omega (arith, b.within, b.used)) in
      let copied' = ap (λ x. copy_buffer os x c.partial_len s.world) b.is_block ∙ copied in
      let (r, s1, run, done) =
        process_payload-Processed os bound serve direct fuel enough laws rich clock info
          (record s { world = w1 }) c block here m b
          (record { free = room.free; members = room.members }) small enough' in
      elim (Status-cases r) [
        | inr refused ↦ inl (
          s1,
          finish_message-failure os fuel info s here copied' (run ∙ ap (λ x. some (x, s1)) refused),
          record { room = done.room; list = done.list; moves = done.moves; others = done.others },
        )
        | inl fine ↦
            let d : ClientInfo = renamed c done.len done.name done.name_len done.has_name in
            let b1 : HasBuffer d block = record {
              is_block = b.is_block;
              within = b.within;
              used = omega (arith, b.used, done.shorter);
              least = b.least;
            } in
            let (block', cleared, b', _) = clear_client_buffer-empty d block s1.world b1 in
            let d' : ClientInfo = with_message d block' 0 buf_size in
            let m' : IsMember d' = record {
              queue = done.member.queue;
              limit = done.member.limit;
              named = done.member.named;
              sized = done.member.sized;
              ended = done.member.ended;
            } in
            inr (
              after s1 info d' s1.world,
              done.len,
              done.name,
              done.name_len,
              done.has_name,
              block',
              finish_message-some os fuel info s here copied' (run ∙ ap (λ x. some (x, s1)) fine)
                  done.here cleared,
              put-Goes s s1 info d' s1.world
                  (record {
                    room = done.room;
                    list = done.list;
                    moves = done.moves;
                    others = done.others;
                  })
                  m',
              rw (==_refl info),
              m',
              b',
            )
      ]

  -- The client with the payload behind its message.
  longer-IsMember :
      (c : ClientInfo) (block : Bytes) (len cap : ℕ)
      → IsMember c
      → IsMember (with_message c block len cap)
  longer-IsMember c block len cap m = record {
    queue = m.queue;
    limit = m.limit;
    named = m.named;
    sized = m.sized;
    ended = m.ended;
  }

  -- Back at the header with a valid buffer.
  next_header-IsReading :
      (d : ClientInfo) (block : Bytes)
      → IsMember d
      → HasBuffer d block
      → length d.header_buffer ≡ header_size
      → length d.payload_buffer ≡ buf_size
      → IsReading os (next_header d) block
  unfolding next_header
  next_header-IsReading d block m b headers payloads = record {
    member = record {
      queue = m.queue;
      limit = m.limit;
      named = m.named;
      sized = m.sized;
      ended = m.ended;
    };
    buffered = record { is_block = b.is_block; within = b.within; used = b.used; least = b.least };
    reader = record { header_sized = headers; payload_sized = payloads; position = omega arith };
  }

  -- With the sockets, the allocator and the clock as documented, memory, and more fuel than the
  -- queue's limit, or the message with 130 bytes, and the interruptions, for an allocated client
  -- of the room with a valid reader and message buffer, a payload of at most 4096 bytes, and a
  -- message that stays below 2 ^ 61 bytes: whatever the bytes are, `payload_complete` returns
  -- with no access out of bounds, no use of NULL or of freed memory, and no lock of the locked
  -- mutex. The server is a room again with the same list, and of the other
  -- clients at most the queue and the flags are others. It returns -1; or 0, and then the
  -- client has the same socket, a valid reader at the start of a header, a valid message buffer,
  -- and a message that is no longer than the message and the payload together.
  pub payload_complete-Goes :
      (s : Server os.World) (c : ClientInfo) (block : Bytes)
      → s.clients info ≡ some c
      → IsReading os c block
      → IsRoom s
      → c.payload_bytes_read ≤ buf_size
      → c.partial_len + c.payload_bytes_read < 2 ^ 61
      → c.partial_len + c.payload_bytes_read + 130 + bound < fuel
      → (r : Status) × (s' : Server os.World) × (payload_complete os fuel info s ≡ some (r, s'))
        × Goes info s s'
        × ((r ≡ failure)
            ⊎ ((r ≡ success) × (d : ClientInfo) × (s'.clients info ≡ some d) × Idle os c d))
  unfolding Finished next_header
  payload_complete-Goes s c block here v room read small enough' =
      let (block1, cap, w1, run, b1, text) =
        append_to_client_buffer-some os laws rich c block s.world v.buffered
          (omega (arith, v.reader.payload_sized, read)) (omega (arith, small)) in
      let n = c.partial_len + c.payload_bytes_read in
      let c1 : ClientInfo = with_message c block1 n cap in
      let s1 : Server os.World = after s info c1 w1 in
      let m1 : IsMember c1 = longer-IsMember c block1 n cap v.member in
      let g1 : Goes info s s1 = put-Goes s s info c1 w1 (Goes-same room) m1 in
      elim (Bool-cases (c.msg_done == 0)) [
        | inl more ↦
            let i =
              next_header-IsReading c1 block1 m1 b1 v.reader.header_sized v.reader.payload_sized in
            (
              success,
              after s1 info (next_header c1) w1,
              payload_complete-more os fuel info s here run more,
              put-Goes s s1 info (next_header c1) w1 g1 i.member,
              inr (
                refl,
                next_header c1,
                rw (==_refl info),
                record {
                  block = block1;
                  reading = i;
                  at_header = refl;
                  same_socket = refl;
                  shorter = omega arith;
                },
              ),
            )
        | inr done ↦
            elim (finish_message-Finished s1 c1 block1 (rw (==_refl info)) m1 b1 g1.room small
              enough') [
                | inl (s', finished, g) ↦ (
                  failure,
                  s',
                  payload_complete-failure os fuel info s here run done finished,
                  Goes-trans g1 g,
                  inl refl,
                )
                | inr (s', len, name, name_len, has_name, block', finished, g, still, m', b') ↦
                    let d : ClientInfo =
                      with_message (renamed c1 len name name_len has_name) block' 0 buf_size in
                    let i =
                      next_header-IsReading d block' m' b' v.reader.header_sized
                        v.reader.payload_sized in
                    (
                      success,
                      after s' info (next_header d) s'.world,
                      payload_complete-last os fuel info s here run done finished still,
                      put-Goes s s' info (next_header d) s'.world (Goes-trans g1 g) i.member,
                      inr (
                        refl,
                        next_header d,
                        rw (==_refl info),
                        record {
                          block = block';
                          reading = i;
                          at_header = refl;
                          same_socket = refl;
                          shorter = omega arith;
                        },
                      ),
                    )
              ]
      ]

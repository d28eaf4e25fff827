-- ===== src/Broadcast/Deliver.antt =====
-- What a broadcast does for one client: a packet is queued, tried at once, and else left to EPOLLOUT.
use c_chat_server.Base.{
  ℕ, ◌+◌, ◌≤◌, ◌<◌, ◌≡◌, ◌^◌, refl, arith, ap, sym, ◌∙◌, Bytes, ◌++◌, some, none, Option, true,
  false, not, ◌&&◌, length, take, append_assoc, ◌⊎◌, inl, inr, ◌>>=◌,
}
use c_chat_server.Os.{Os}
use c_chat_server.Os.Laws.{IsAllocator, IsServing}
use c_chat_server.Protocol.{MsgHeader, header_size, header_bytes, msg_size_limit}
use c_chat_server.Client.{ClientInfo, MsgPacket}
use c_chat_server.Queue.Content.{IsQueue, unsent}
use c_chat_server.Queue.Packet.{packs, no_bytes, no_packet, create_packet-Packs}
use c_chat_server.Queue.Enqueue.{client_enqueue_msg_packet-unsent}
use c_chat_server.Broadcast.{head_is, deliver}
use c_chat_server.Broadcast.Attempt.{with_queue, stream, Woken, tail-Waits}

module _ (os : Os) (bound : ℕ) (serve : IsServing os bound) (fuel : ℕ)
    (enough : msg_size_limit + bound < fuel) where
  module _ (laws : IsAllocator os) (header : MsgHeader) (msg : Bytes) (len : ℕ) where
    -- The frame that every client is to get.
    abbrev pub packet_bytes : Bytes
    packet_bytes = header_bytes os.byte_order header ++ take len msg

    -- Why a client gets nothing: no memory for a packet, or no room in its queue.
    pub data Refused (c : ClientInfo) (w : os.World) : Type 0 where
      no_block : (w' : os.World) → os.malloc (header_size + len) w ≡ (none, w') → Refused c w
      no_struct :
          (b : Bytes) (w1 w' : os.World)
          → os.malloc (header_size + len) w ≡ (some b, w1)
          → os.new_struct w1 ≡ (none, w')
          → Refused c w
      no_room : msg_size_limit < c.msg_queue.queued_bytes + (header_size + len) → Refused c w

    -- The client and the world after it: only the queue and the two flags have changed; the queue is
    -- valid and within the limit; unless nothing has changed, what waits is waited for; and the
    -- client's stream is longer by the whole frame, or is as it was.
    pub record Delivered (c : ClientInfo) (w : os.World) (c' : ClientInfo) (w' : os.World)
        : Type 0 where
      pub kept : c' ≡ with_queue c c'.msg_queue c'.epollout_enabled c'.closed
      pub queue : IsQueue c'.msg_queue
      pub limit : c'.msg_queue.queued_bytes ≤ msg_size_limit
      pub woken : Woken os c' ⊎ (c' ≡ c)
      pub flow :
          (stream serve c' w' ≡ stream serve c w ++ packet_bytes)
          ⊎ ((stream serve c' w' ≡ stream serve c w) × Refused c w)

    -- With the sockets and the allocator as documented, more fuel than the queue's limit and
    -- the interruptions together, a payload inside its buffer and below 2 ^ 62 bytes with its
    -- header, and an open client with a valid queue within the limit, `deliver` returns with no
    -- access out of bounds, and comes to `Delivered`. The bytes sent to the client followed by
    -- those in its queue are longer by exactly the header and the payload, or are the same
    -- because there was no memory or no room. The queue is valid and within the limit again.
    -- Either the client is as it was, or its queue is empty, or EPOLLOUT is asked for, or a
    -- call that asks for it fails. No field but the queue and the flags `closed` and
    -- `epollout_enabled` changes.
    pub deliver-Delivered :
        (c : ClientInfo) (w : os.World)
        → len ≤ length msg
        → header_size + len < 2 ^ 62
        → IsQueue c.msg_queue
        → c.msg_queue.queued_bytes ≤ msg_size_limit
        → c.closed ≡ false
        → (c' : ClientInfo) × (w' : os.World) × (deliver os fuel header msg len c w ≡ some (c', w'))
          × Delivered c w c' w'
    unfolding deliver
    deliver-Delivered c w within small v lim open_ =
        elim (create_packet-Packs os header msg len w laws within) [
          | no_bytes w1 e run ↦ (
            c,
            w1,
            rw (run, ◌>>=◌),
            record {
              kept = refl;
              queue = v;
              limit = lim;
              woken = inr refl;
              flow = inr (
                ap (λ x. x ++ unsent c.msg_queue.packets)
                    (ap (λ r. (serve.out c.client_fd).sent r.1) (sym e)
                      ∙ serve.malloc_sends_nothing c.client_fd _ w),
                no_block w1 e,
              );
            },
          )
          | no_packet b w1 w2 e f run ↦ (
            c,
            w2,
            rw (run, ◌>>=◌),
            record {
              kept = refl;
              queue = v;
              limit = lim;
              woken = inr refl;
              flow = inr (
                ap (λ x. x ++ unsent c.msg_queue.packets) (quiet c w (some b) w1 none w2 e f),
                no_struct b w1 w2 e f,
              );
            },
          )
          | packs p b w1 w2 e f run is start size content ↦
              elim (client_enqueue_msg_packet-unsent c p msg_size_limit v is start
                (omega (arith, size, small, lim))) [
                  | inl (room, still, q, queued, v1, lim1, added) ↦
                      let (q', e', b', w3, run', v2, less, same, woken) =
                        tail-Waits os bound serve fuel enough
                          (not c.epollout_enabled && head_is q.packets p.address)
                          (record c { msg_queue = q }) w2 v1 lim1 in
                      (
                        with_queue c q' e' b',
                        w3,
                        rw (run, ◌>>=◌, queued) run',
                        record {
                          kept = refl;
                          queue = v2;
                          limit = omega (arith, less, lim1);
                          woken = inl woken;
                          flow = inl (
                              same
                              ∙ ap (λ x. x ++ unsent q.packets)
                                  (quiet c w (some b) w1 (some p.address) w2 e f)
                              ∙ ap (λ x. (serve.out c.client_fd).sent w ++ x)
                                  (added ∙ ap (λ x. unsent c.msg_queue.packets ++ x) content)
                              ∙ sym (
                                  append_assoc ((serve.out c.client_fd).sent w)
                                    (unsent c.msg_queue.packets) packet_bytes));
                        },
                      )
                  | inr (why, refused) ↦
                      let (q', e', b', w3, run', v2, less, same, woken) =
                        tail-Waits os bound serve fuel enough
                          (not c.epollout_enabled && head_is c.msg_queue.packets p.address) c w2 v
                          lim in
                      (
                        with_queue c q' e' b',
                        w3,
                        rw (run, ◌>>=◌, refused) run',
                        record {
                          kept = refl;
                          queue = v2;
                          limit = omega (arith, less, lim);
                          woken = inl woken;
                          flow = inr (
                            same
                                ∙ ap (λ x. x ++ unsent c.msg_queue.packets)
                                    (quiet c w (some b) w1 (some p.address) w2 e f),
                            no_room (over c p open_ size why),
                          );
                        },
                      )
                ]
        ]
      where
        over :
            (c : ClientInfo) (p : MsgPacket)
            → c.closed ≡ false
            → p.len ≡ header_size + len
            → (msg_size_limit < c.msg_queue.queued_bytes + p.len) ⊎ (c.closed ≡ true)
            → msg_size_limit < c.msg_queue.queued_bytes + (header_size + len)
        over c p still size (inl more) = omega (arith, size, more)
        over c p still size (inr shut) = absurd (cc (sym still ∙ shut))

        quiet :
            (c : ClientInfo) (w : os.World) (b : Option Bytes) (w1 : os.World) (a : Option ℕ)
            (w2 : os.World)
            → os.malloc (header_size + len) w ≡ (b, w1)
            → os.new_struct w1 ≡ (a, w2)
            → (serve.out c.client_fd).sent w2 ≡ (serve.out c.client_fd).sent w
        quiet c w b w1 a w2 e f =
            ap (λ r. (serve.out c.client_fd).sent r.1) (sym f)
            ∙ serve.new_struct_sends_nothing c.client_fd w1
            ∙ ap (λ r. (serve.out c.client_fd).sent r.1) (sym e)
            ∙ serve.malloc_sends_nothing c.client_fd _ w

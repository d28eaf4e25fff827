-- ===== src/Queue/Packet.antt =====
-- The packet that `create_packet` makes.
use c_chat_server.Base.{
  ℕ, ◌+◌, ◌≤◌, ◌≡◌, refl, arith, ap, sym, ◌∙◌, Bytes, ◌++◌, some, none, length, length-take, take,
  take-all, take-blit, length-blit, blit, memcpy-some, slice-some, inl, inr, ◌>>=◌,
}
use c_chat_server.Os.{Os}
use c_chat_server.Os.Laws.{IsAllocator, allocated}
use c_chat_server.Protocol.{MsgHeader, header_size, header_bytes}
use c_chat_server.Protocol.Wire.{length-header_bytes}
use c_chat_server.Client.{MsgPacket}
use c_chat_server.Queue.{create_packet}
use c_chat_server.Queue.Content.{IsPacket}

module _ (os : Os) (header : MsgHeader) (payload : Bytes) (n : ℕ) (w : os.World) where
  -- What `create_packet` comes to: a packet with nothing sent that is the header followed by the
  -- payload; or none, because there was no memory for its bytes, or none for its struct.
  pub data Packs : Type 0 where
    packs :
        (p : MsgPacket) (b : Bytes) (w1 w2 : os.World)
        → os.malloc (header_size + n) w ≡ (some b, w1)
        → os.new_struct w1 ≡ (some p.address, w2)
        → create_packet os header payload n w ≡ some (some p, w2)
        → IsPacket p
        → p.offset ≡ 0
        → p.len ≡ header_size + n
        → p.packet_data ≡ header_bytes os.byte_order header ++ take n payload
        → Packs
    no_bytes :
        (w1 : os.World)
        → os.malloc (header_size + n) w ≡ (none, w1)
        → create_packet os header payload n w ≡ some (none, w1)
        → Packs
    no_packet :
        (b : Bytes) (w1 w2 : os.World)
        → os.malloc (header_size + n) w ≡ (some b, w1)
        → os.new_struct w1 ≡ (none, w2)
        → create_packet os header payload n w ≡ some (none, w2)
        → Packs

  -- For a payload inside its buffer, `create_packet` comes to one of `Packs`: it stays inside its
  -- blocks, and fails only when there is no memory.
  pub create_packet-Packs : IsAllocator os → n ≤ length payload → Packs
  unfolding create_packet
  create_packet-Packs laws within = elim (allocated (os.malloc (header_size + n) w)) [
    | inl (w1, e) ↦ no_bytes w1 e (rw (e, ◌>>=◌))
    | inr (b, w1, e) ↦
        let front = header_bytes os.byte_order header in
        let body = take n payload in
        let front_size : length front ≡ 6 = length-header_bytes os.byte_order header in
        let body_size : length body ≡ n = omega (arith, length-take n payload) in
        let size = laws.malloc_size _ _ _ _ e in
        let room : 0 + length front ≤ length b = omega arith in
        let headed = blit b 0 front in
        let headed_size = length-blit b 0 front room in
        let room' : header_size + length body ≤ length headed = omega (arith, headed_size) in
        let filled = blit headed header_size body in
        let filled_size = length-blit headed header_size body room' in
        let content : filled ≡ front ++ body =
          sym (
            take-all (header_size + length body) filled
              (omega (arith, filled_size, headed_size, size)))
          ∙ take-blit headed header_size body (header_size + length body) room' refl
          ∙ ap (λ x. x ++ body) (take-blit b 0 front header_size room (omega arith)) in
        let source = slice-some payload 0 n (omega arith) in
        let first = memcpy-some b 0 front room in
        let second = memcpy-some headed header_size body room' in
        elim (allocated (os.new_struct w1)) [
          | inl (w2, f) ↦ no_packet b w1 w2 e f (rw (e, ◌>>=◌, first, source, second, f))
          | inr (a, w2, f) ↦
              packs
                (record { address = a; packet_data = filled; len = header_size + n; offset = 0 }) b
                w1 w2 e f (rw (e, ◌>>=◌, first, source, second, f))
                (record {
                  sized = omega (arith, filled_size, headed_size, size);
                  unfinished = omega arith;
                })
                refl refl content
        ]
  ]

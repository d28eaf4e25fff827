-- ===== src/Loop/Fresh.antt =====
-- A client that was just accepted meets every condition that the rest of the server relies on.
use c_chat_server.Base.{
  ℕ, ◌<◌, ◌≡◌, refl, arith, Bytes, [], none, some, false, length, ◌⊎◌, inl, inr, ◌>>=◌,
}
use c_chat_server.Os.{Os, Endian, success, failure}
use c_chat_server.Os.Laws.{IsAllocator, allocated}
use c_chat_server.Protocol.{header_size}
use c_chat_server.Client.{
  ClientInfo, buf_size, name_max, client_info_init, read_header, empty_queue,
}
use c_chat_server.Client.Buffer.{HasBuffer}
use c_chat_server.Queue.Content.{IsQueue, unsent}
use c_chat_server.Reader.Position.{IsReader, held}

-- A client in order: its message buffer, its reader, its queue, and its name field.
pub record IsClient (order : Endian) (c : ClientInfo) (block : Bytes) : Type 0 where
  pub buffer : HasBuffer c block
  pub reader : IsReader order c
  pub queue : IsQueue c.msg_queue
  pub name_sized : length c.name ≡ name_max
  pub named : c.name_len < name_max

-- Given a block whose arrays have their sizes, `client_info_init` either finds no memory for the
-- message buffer and returns -1, or returns 0 with a client in order: its message buffer, its
-- reader and its queue are valid, its name fits its field, it holds no bytes of a frame, has
-- nothing to send, and is open on the given descriptor; its message is empty, and its name field
-- holds what stood in the block.
pub client_info_init-IsClient :
    (os : Os) (laws : IsAllocator os) (garbage : ClientInfo) (client_fd : ℕ) (w : os.World)
    → length garbage.header_buffer ≡ header_size
    → length garbage.payload_buffer ≡ buf_size
    → length garbage.name ≡ name_max
    → ((w' : os.World) × (os.malloc buf_size w ≡ (none, w'))
        × (client_info_init os garbage client_fd w
            ≡ some ((failure, record garbage { partial_msg = none }), w')))
      ⊎ ((block : Bytes) × (c : ClientInfo) × (w' : os.World) × (os.malloc buf_size w
            ≡ (some block, w'))
          × (client_info_init os garbage client_fd w ≡ some ((success, c), w'))
          × IsClient os.byte_order c block
          × (held c ≡ [])
          × (unsent c.msg_queue.packets ≡ [])
          × (c.client_fd ≡ client_fd)
          × (c.closed ≡ false)
          × (c.partial_len ≡ 0)
          × (c.name ≡ garbage.name))
unfolding client_info_init
client_info_init-IsClient os laws garbage client_fd w headers payloads names =
    elim (allocated (os.malloc buf_size w)) [
      | inl (w', e) ↦ inl (w', e, rw (e, ◌>>=◌))
      | inr (block, w', e) ↦
          let size = laws.malloc_size _ _ _ _ e in
          inr (
            block,
            accepted block,
            w',
            e,
            rw (e, ◌>>=◌),
            record {
              buffer = record {
                is_block = refl;
                within = omega (arith, size);
                used = omega arith;
                least = omega arith;
              };
              reader = record {
                header_sized = headers;
                payload_sized = payloads;
                position = omega arith;
              };
              queue = record { packets = tt; bytes = refl; count = refl; small = omega arith };
              name_sized = names;
              named = omega arith;
            },
            refl,
            refl,
            refl,
            refl,
            refl,
            refl,
          )
    ]
  where
    accepted : Bytes → ClientInfo
    accepted block = record garbage {
      partial_msg = some block;
      partial_len = 0;
      partial_cap = buf_size;
      client_fd = client_fd;
      state = read_header;
      header_bytes_read = 0;
      payload_bytes_read = 0;
      expected_payload_len = 0;
      write_len = 0;
      write_offset = 0;
      name_len = 0;
      has_name = false;
      epollout_enabled = false;
      closed = false;
      msg_queue = empty_queue;
    }

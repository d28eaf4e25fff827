-- ===== src/Reader/Position.antt =====
-- How far the reader of a client is, and the bytes of the frame that it holds.
use c_chat_server.Base.{◌≤◌, ◌<◌, ◌≡◌, Bytes, ◌++◌, length, take}
use c_chat_server.Os.{Endian}
use c_chat_server.Protocol.{header_size, header_at, ntohl}
use c_chat_server.Client.{ClientInfo, ReadState, read_header, read_payload, buf_size}

-- The fields that the header in the buffer sets.
pub record IsParsed (order : Endian) (c : ClientInfo) : Type 0 where
  pub len : c.expected_payload_len ≡ ntohl order (header_at order c.header_buffer).msg_len
  pub type : c.msg_type ≡ (header_at order c.header_buffer).msg_type
  pub done : c.msg_done ≡ (header_at order c.header_buffer).msg_done
  pub limit : c.expected_payload_len ≤ buf_size

-- How far the reader is, by its state.
abbrev pub Position : Endian → ClientInfo → ReadState → Type 0
Position order c read_header = c.header_bytes_read < header_size
Position order c read_payload = (c.payload_bytes_read ≤ c.expected_payload_len) × IsParsed order c

-- The buffers have their sizes, and the reader is inside them.
pub record IsReader (order : Endian) (c : ClientInfo) : Type 0 where
  pub header_sized : length c.header_buffer ≡ header_size
  pub payload_sized : length c.payload_buffer ≡ buf_size
  pub position : Position order c c.state

-- The bytes of the frame that is being read.
abbrev pub held_in : ClientInfo → ReadState → Bytes
held_in c read_header = take c.header_bytes_read c.header_buffer
held_in c read_payload = c.header_buffer ++ take c.payload_bytes_read c.payload_buffer

abbrev pub held : ClientInfo → Bytes
held c = held_in c c.state

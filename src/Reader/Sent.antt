-- ===== src/Reader/Sent.antt =====
-- What the server sends, read by the framing specification: every packet is one frame.

use c_chat_server.Base.{
  ℕ, ◌≤◌, ◌<◌, ◌≡◌, ◌^◌, arith, ap, sym, ◌∙◌, Bytes, [], ◌∷◌, ◌++◌, some, Bool, length, take,
  length-take, append-nil, inl,
}
use c_chat_server.Os.{Endian, success}
use c_chat_server.Protocol.{MsgHeader, header_bytes, create_header}
use c_chat_server.Protocol.Wire.{header-roundtrip}
use c_chat_server.Reader.Decode.{IsFrame, announced, decode, decode-encode}

-- For a payload of fewer than 2 ^ 32 bytes inside its buffer, a machine of any byte order that cuts
-- the header made by `create_header` followed by the payload into frames finds one frame, with that
-- header and exactly that payload, and nothing behind it.
pub create_header-decode :
    (sender reader : Endian) (h : MsgHeader) (msg : Bytes) (len msg_type : ℕ) (msg_done : Bool)
    (fuel : ℕ)
    → len < 2 ^ 32
    → len ≤ length msg
    → 1 ≤ fuel
    → (out : MsgHeader) × (create_header sender (some h) len msg_type msg_done
        ≡ (success, some out))
      × (decode reader fuel (header_bytes sender out ++ take len msg)
          ≡ (record { header = header_bytes sender out; payload = take len msg } ∷ [], []))
unfolding announced
create_header-decode sender reader h msg len msg_type msg_done fuel small within enough =
    let (out, made, size, len_back, type_back, done_back) =
      header-roundtrip sender reader h len msg_type msg_done small in
    let front = header_bytes sender out in
    let is : IsFrame reader (record { header = front; payload = take len msg }) = record {
      header_sized = size;
      payload_sized = omega (arith, length-take len msg, len_back);
    } in
    (
      out,
      made,
      ap (decode reader fuel) (
            sym (
              append-nil (front ++ (take len msg ++ []))
              ∙ ap (λ x. front ++ x) (append-nil (take len msg))))
          ∙ decode-encode reader fuel (record { header = front; payload = take len msg } ∷ []) []
              (is, tt) (inl (omega arith)) (omega arith),
    )

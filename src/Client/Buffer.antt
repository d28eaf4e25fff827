-- ===== src/Client/Buffer.antt =====
-- The growing message buffer of a client: `append_to_client_buffer` and `clear_client_buffer`.

use c_chat_server.Base.{
  ap, lt→ltb, le→ltb, ℕ, ◌+◌, ◌%◌, ◌^◌, ◌≤◌, ◌<◌, ◌≡◌, refl, some, none, arith, ltb, Bool-cases,
  inl, inr, Bytes, length, take, ◌++◌, memcpy-some, slice-some, length-blit, take-blit, blit,
  length-take, ◌∙◌, replicate, length-replicate,
}
use c_chat_server.Os.{Os, Status, success, failure}
use c_chat_server.Os.Laws.{IsAllocator, allocated}
use c_chat_server.Client.{
  ClientInfo, buf_size, append_to_client_buffer, clear_client_buffer, copy_payload, grow_cap,
  cap_fuel,
}
use c_chat_server.Client.Capacity.{grow_cap-bounds}

-- The message buffer is a block of at least `partial_cap` bytes, of which `partial_len` are used.
pub record HasBuffer (c : ClientInfo) (block : Bytes) : Type 0 where
  pub is_block : c.partial_msg ≡ some block
  pub within : c.partial_cap ≤ length block
  pub used : c.partial_len ≤ c.partial_cap
  pub least : buf_size ≤ c.partial_cap

-- The message that is being put together.
abbrev pub message : ClientInfo → Bytes → Bytes
message c block = take c.partial_len block

-- The payload that was read last.
abbrev pub payload : ClientInfo → Bytes
payload c = take c.payload_bytes_read c.payload_buffer

module _ {W : Type 0} where
  pub copy_payload-some :
      (c : ClientInfo) (block : Bytes) (w : W)
      → c.partial_msg ≡ some block
      → c.partial_len + c.payload_bytes_read ≤ length block
      → c.payload_bytes_read ≤ length c.payload_buffer
      → copy_payload c w
        ≡ some (
          (
            success,
            record c {
              partial_msg = some (blit block c.partial_len (payload c));
              partial_len = c.partial_len + c.payload_bytes_read;
            },
          ),
          w,
        )
  unfolding copy_payload
  copy_payload-some c block w is room read = rw (
    is,
    slice-some c.payload_buffer 0 c.payload_bytes_read (omega arith),
    memcpy-some block c.partial_len (payload c)
        (omega (arith, length-take c.payload_bytes_read c.payload_buffer)),
  )

module _ (os : Os) (c : ClientInfo) (block : Bytes) (buffered : HasBuffer c block)
    (read : c.payload_bytes_read ≤ length c.payload_buffer) where
  -- What `append_to_client_buffer` comes to: the payload stands behind the message, in the old
  -- block or in a larger one, and no other field changes; or the allocator gave no larger block,
  -- and the old one is lost.
  pub data Appends : Status → ClientInfo → Type 0 where
    appended :
        (block' : Bytes) (cap : ℕ)
        → HasBuffer
            (record c {
              partial_msg = some block';
              partial_len = c.partial_len + c.payload_bytes_read;
              partial_cap = cap;
            })
            block'
        → take (c.partial_len + c.payload_bytes_read) block' ≡ message c block ++ payload c
        → Appends success (record c {
          partial_msg = some block';
          partial_len = c.partial_len + c.payload_bytes_read;
          partial_cap = cap;
        })
    no_memory :
        (cap : ℕ) (w w' : os.World)
        → os.realloc block cap w ≡ (none, w')
        → Appends failure (record c { partial_msg = none; partial_cap = cap })

  -- The copy behind the message, in a block that starts with it.
  copy-appended :
      (block' : Bytes) (cap : ℕ)
      → cap ≤ length block'
      → c.partial_cap ≤ cap
      → c.partial_len + c.payload_bytes_read ≤ cap
      → take c.partial_len block' ≡ message c block
      → Appends success (record c {
        partial_msg = some (blit block' c.partial_len (payload c));
        partial_len = c.partial_len + c.payload_bytes_read;
        partial_cap = cap;
      })
  copy-appended block' cap within more room same =
      let n : length (payload c) ≡ c.payload_bytes_read =
        omega (arith, length-take c.payload_bytes_read c.payload_buffer) in
      appended (blit block' c.partial_len (payload c)) cap
        (record {
          is_block = refl;
          within = omega (arith, length-blit block' c.partial_len (payload c));
          used = omega arith;
          least = omega (arith, buffered.least);
        })
        (take-blit block' c.partial_len (payload c) _ (omega arith) (omega arith)
          ∙ ap (λ x. x ++ payload c) same)

  abbrev Outcome : os.World → Type 0
  Outcome w =
      (r : Status) × (c' : ClientInfo) × (w' : os.World) × (append_to_client_buffer os c w
        ≡ some ((r, c'), w'))
      × Appends r c'

  -- A block with room is kept.
  stay-Appends :
      (w : os.World)
      → c.partial_len + c.payload_bytes_read ≤ 2 ^ 63
      → c.partial_len + c.payload_bytes_read ≤ c.partial_cap
      → Outcome w
  unfolding append_to_client_buffer
  stay-Appends w small fits =
      let needed : (c.partial_len + c.payload_bytes_read) % 2 ^ 64
          ≡ c.partial_len + c.payload_bytes_read =
        omega arith in
      (
        success,
        _,
        w,
        rw (needed, le→ltb c.partial_cap (c.partial_len + c.payload_bytes_read) fits)
            (copy_payload-some c block w buffered.is_block (omega (arith, buffered.within)) read),
        copy-appended block c.partial_cap buffered.within (omega arith) fits refl,
      )

  -- Else the block grows, or is lost.
  enlarge-Appends :
      (w : os.World) (cap : ℕ)
      → IsAllocator os
      → c.partial_len + c.payload_bytes_read ≤ 2 ^ 63
      → c.partial_cap < c.partial_len + c.payload_bytes_read
      → grow_cap cap_fuel c.partial_cap (c.partial_len + c.payload_bytes_read) ≡ some cap
      → c.partial_len + c.payload_bytes_read ≤ cap
      → c.partial_cap ≤ cap
      → Outcome w
  unfolding append_to_client_buffer
  enlarge-Appends w cap laws small over run enough more =
      let needed : (c.partial_len + c.payload_bytes_read) % 2 ^ 64
          ≡ c.partial_len + c.payload_bytes_read =
        omega arith in
      let grows = lt→ltb c.partial_cap (c.partial_len + c.payload_bytes_read) over in
      elim (allocated (os.realloc block cap w)) [
        | inl (w', e) ↦ (
          failure,
          record c { partial_msg = none; partial_cap = cap },
          w',
          rw (needed, grows, run, buffered.is_block, e),
          no_memory cap w w' e,
        )
        | inr (block', w', e) ↦
            let size : length block' ≡ cap = laws.realloc_size _ _ _ _ _ e in
            let kept =
              laws.realloc_keeps _ _ c.partial_len _ _ _ e (omega arith)
                (omega (arith, buffered.within, buffered.used)) in
            (
              success,
              _,
              w',
              rw (needed, grows, run, buffered.is_block, e)
                  (copy_payload-some (record c { partial_cap = cap; partial_msg = some block' })
                    block' w' refl (omega arith) read),
              copy-appended block' cap (omega arith) more enough kept,
            )
      ]

-- For a client with a valid message buffer, a payload inside the payload buffer and a message that
-- stays below 2 ^ 63 bytes, `append_to_client_buffer` returns with no access out of bounds and no
-- overflow: either 0, with a valid buffer that holds the message followed by the payload, in the old
-- block or a larger one, all other fields kept; or -1, only if `realloc` gave no block, with
-- `partial_msg` NULL.
pub append_to_client_buffer-Appends :
    (os : Os) (laws : IsAllocator os) (c : ClientInfo) (block : Bytes) (w : os.World)
    → (buffered : HasBuffer c block) → (read : c.payload_bytes_read ≤ length c.payload_buffer)
    → c.partial_len + c.payload_bytes_read ≤ 2 ^ 63
    → (r : Status) × (c' : ClientInfo) × (w' : os.World) × (append_to_client_buffer os c w
        ≡ some ((r, c'), w'))
      × Appends os c block buffered read r c'
append_to_client_buffer-Appends os laws c block w buffered read small =
    elim (Bool-cases (ltb c.partial_cap (c.partial_len + c.payload_bytes_read))) [
      | inr fits ↦ stay-Appends os c block buffered read w small (ground arith)
      | inl over ↦
          let (cap, run, enough, more, _) =
            grow_cap-bounds 64 c.partial_cap (c.partial_len + c.payload_bytes_read)
              (omega (arith, buffered.least)) small (omega (arith, buffered.least)) in
          enlarge-Appends os c block buffered read w cap laws small (ground arith) run enough more
    ]

-- For a client with a valid message buffer, `clear_client_buffer` returns 0 without an access out
-- of bounds; the buffer is valid again and the message in it is empty, its used bytes are zeroed,
-- and only the three fields of the message buffer change.
pub clear_client_buffer-empty :
    {W : Type 0} (c : ClientInfo) (block : Bytes) (w : W)
    → HasBuffer c block
    → (block' : Bytes) × (clear_client_buffer c w
        ≡ some (
          (
            success,
            record c { partial_msg = some block'; partial_len = 0; partial_cap = buf_size },
          ),
          w,
        ))
      × HasBuffer
          (record c { partial_msg = some block'; partial_len = 0; partial_cap = buf_size })
          block'
      × (take c.partial_len block' ≡ replicate c.partial_len 0)
unfolding clear_client_buffer
clear_client_buffer-empty c block w b =
    let n : length (replicate {A = ℕ} c.partial_len 0) ≡ c.partial_len =
      length-replicate c.partial_len 0 in
    let room : 0 + length (replicate c.partial_len 0) ≤ length block =
      omega (arith, b.within, b.used) in
    let copied = memcpy-some block 0 (replicate c.partial_len 0) room in
    (
      blit block 0 (replicate c.partial_len 0),
      rw (b.is_block, copied),
      record {
        is_block = refl;
        within =
            omega (arith, length-blit block 0 (replicate c.partial_len 0) room, b.within, b.least);
        used = omega arith;
        least = omega arith;
      },
      take-blit block 0 (replicate c.partial_len 0) c.partial_len room (omega arith),
    )

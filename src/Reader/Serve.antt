-- ===== src/Reader/Serve.antt =====
-- Any number of rounds of `handle_client_read`.
use c_chat_server.Base.{
  ℕ, zero, suc, ◌+◌, ◌*◌, ◌≤◌, ◌<◌, ◌≡◌, ◌^◌, arith, ap, ◌∙◌, Bytes, some, length,
}
use c_chat_server.Os.{Os, Status}
use c_chat_server.Os.Laws.{IsAllocator, IsPlentiful, HasClock, IsServing, IsReadable}
use c_chat_server.Protocol.{msg_size_limit}
use c_chat_server.Client.{ClientInfo, buf_size}
use c_chat_server.Server.{Server}
use c_chat_server.Broadcast.Direct.{IsDirect}
use c_chat_server.Handlers.Room.{IsRoom}
use c_chat_server.Reader.{handle_client_read}
use c_chat_server.Reader.Going.{IsReading, Goes, Goes-same, Goes-trans, Rests, Rests-weaken}
use c_chat_server.Reader.Rounds.{phase, Onward, returns, goes_on, one_round}

module _ (os : Os) (bound : ℕ) (serve : IsServing os bound) (direct : IsDirect os bound) (fuel : ℕ)
    (enough : msg_size_limit + bound < fuel) (laws : IsAllocator os) (reads : IsReadable os)
    (rich : IsPlentiful os) (clock : HasClock os) (info : ℕ) where
  -- So many rounds that went on, each by its calls and in the server that the last one left, and the
  -- number of bytes that came in by them.
  pub data Trace
      : (rounds taken : ℕ)
        → Server os.World
        → ClientInfo
        → Server os.World
        → ClientInfo
        → Type 0 where
    begins : {s : Server os.World} {c : ClientInfo} → Trace 0 0 s c s c
    more :
        {n k : ℕ} {s s1 s' : Server os.World} {c d e : ClientInfo} {bs : Bytes}
        → Onward os bound serve direct fuel enough laws reads rich clock info s c s1 d bs
        → Trace n k s1 d s' e
        → Trace (suc n) (length bs + k) s c s' e

  -- With so many rounds or more, the function returns, and leaves a room; or so many rounds have
  -- gone on, in a room.
  pub data Outcome (n : ℕ) (s : Server os.World) (c : ClientInfo) : Type 0 where
    returned :
        (r : Status) (s' : Server os.World)
        → ((m : ℕ) → handle_client_read os fuel (n + m) info s ≡ some (r, s'))
        → Goes info s s'
        → Rests os info (c.partial_len + buf_size * n) r s'
        → Outcome n s c
    going :
        (s' : Server os.World) (e : ClientInfo) (taken : ℕ)
        → ((m : ℕ)
            → handle_client_read os fuel (n + m) info s ≡ handle_client_read os fuel m info s')
        → Trace n taken s c s' e
        → Goes info s s'
        → n ≤ 2 * taken + phase c.state
        → Outcome n s c

  -- With the sockets, the allocator and the clock as documented, memory, and more fuel than the
  -- queue's limit, or the message with 4096 bytes for each round and 130 more, and the
  -- interruptions, for an allocated client of the room (the mutex is free, and the client and
  -- every client of the list have a valid queue within the limit and a name field with a NUL)
  -- with a valid reader and message buffer, and a message that stays below 2 ^ 61 bytes: whatever
  -- bytes come in, however they are cut, and whatever messages and commands they are,
  -- `handle_client_read` on `n` rounds either returns, without any access out of bounds, use of
  -- NULL or of freed memory, or lock of the locked mutex, and does so on more rounds as well; or
  -- the calls of `n` rounds in a row (the `read`, what `receive` makes of its bytes, and
  -- `payload_complete` for a whole frame) all succeed and go on, each in the server that the last
  -- one left, the function with more rounds continues from there, and `n` is at most one more
  -- than twice the number of bytes that these reads gave. In both cases the server is a room with the same list, every
  -- client that could be worked on before is there and can be, and of the other clients at most
  -- the queue and the flags are others. When it returns 0, the client can be read from again, and
  -- its message is longer by at most 4096 bytes for each round.
  pub handle_client_read-Outcome :
      (n : ℕ) (s : Server os.World) (c : ClientInfo) (block : Bytes)
      → s.clients info ≡ some c
      → IsReading os c block
      → IsRoom s
      → c.partial_len + buf_size * n < 2 ^ 61
      → c.partial_len + buf_size * n + 130 + bound < fuel
      → Outcome n s c
  handle_client_read-Outcome zero s c block here v room small enough' =
      going s c 0
        (λ m. let e : 0 + m ≡ m = omega arith in ap (λ k. handle_client_read os fuel k info s) e)
        begins (Goes-same room) (omega arith)
  handle_client_read-Outcome (suc n) s c block here v room small enough' =
      elim (one_round os bound serve direct fuel enough laws reads rich clock info s c block here v
        room (omega (arith, small)) (omega (arith, enough'))) [
          | returns r s' run g rests ↦
              returned r s' (λ m. shift m s ∙ run (n + m)) g (Rests-weaken (omega arith) rests)
          | goes_on s1 d bs run o ↦
              elim (handle_client_read-Outcome n s1 d o.block o.here o.reading o.goes.room
                (omega (arith, o.longer, small)) (omega (arith, o.longer, enough'))) [
                  | returned r s' rest g rests ↦
                      returned r s' (λ m. shift m s ∙ run (n + m) ∙ rest m) (Goes-trans o.goes g)
                        (Rests-weaken (omega (arith, o.longer)) rests)
                  | going s' e k rest t g bound' ↦
                      going s' e (length bs + k) (λ m. shift m s ∙ run (n + m) ∙ rest m) (more o t)
                        (Goes-trans o.goes g) (omega (arith, o.counts, bound'))
                ]
        ]
    where
      shift :
          (m : ℕ) (s : Server os.World)
          → handle_client_read os fuel (suc n + m) info s
            ≡ handle_client_read os fuel (suc (n + m)) info s
      shift m s =
          let e : suc n + m ≡ suc (n + m) = omega arith in
          ap (λ k. handle_client_read os fuel k info s) e

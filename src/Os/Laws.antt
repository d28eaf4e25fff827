-- ===== src/Os/Laws.antt =====
-- What the code relies on of the calls: POSIX's bounds on counts, the C library's on blocks, and the
-- order of bytes on a stream.
use c_chat_server.Base.{
  Option, none, ◌⊎◌, inl, inr, ℕ, ◌≤◌, ◌<◌, ◌≡◌, refl, Bytes, length, take, ◌++◌, some, ◌≢◌, All,
}
use c_chat_server.Os.{Status, success, failure, EpollOp, Os, Io, ok, again, interrupted, failed}

-- A block from the allocator has the size asked for; `realloc` keeps what fits of the old block.
pub record IsAllocator (os : Os) : Type 0 where
  pub malloc_size :
      (n : ℕ) (w : os.World) (b : Bytes) (w' : os.World)
      → os.malloc n w ≡ (some b, w')
      → length b ≡ n
  pub realloc_size :
      (old : Bytes) (n : ℕ) (w : os.World) (b : Bytes) (w' : os.World)
      → os.realloc old n w ≡ (some b, w')
      → length b ≡ n
  pub realloc_keeps :
      (old : Bytes) (n k : ℕ) (w : os.World) (b : Bytes) (w' : os.World)
      → os.realloc old n w ≡ (some b, w')
      → k ≤ n
      → k ≤ length old
      → take k b ≡ take k old

-- Memory does not run out.
pub record IsPlentiful (os : Os) : Type 0 where
  pub malloc_gives : (n : ℕ) (w w' : os.World) → os.malloc n w ≢ (none, w')
  pub realloc_gives : (old : Bytes) (n : ℕ) (w w' : os.World) → os.realloc old n w ≢ (none, w')
  pub struct_gives : (w w' : os.World) → os.new_struct w ≢ (none, w')

-- The clock can be read, and its text fits the buffers that the code has for it.
pub record HasClock (os : Os) : Type 0 where
  pub tells :
      (w : os.World)
      → (stamp : Bytes) × (w' : os.World) × (os.local_time w ≡ (some stamp, w'))
        × (length stamp < 20)
        × All (λ b. b ≢ 0) stamp

-- A `read` gives at most as many bytes as asked for.
pub record IsReadable (os : Os) : Type 0 where
  pub within :
      (fd n : ℕ) (w : os.World) (bs : Bytes) (w' : os.World)
      → os.read fd n w ≡ (ok bs, w')
      → length bs ≤ n

-- A stream socket for reading: bytes come in order, none is lost, at most as many as asked for, and
-- a call is interrupted finitely often (`patience` times).
pub record IsInbound (os : Os) (fd : ℕ) : Type 0 where
  pub pending : os.World → Bytes
  pub patience : os.World → ℕ
  pub read_ok :
      (n : ℕ) (w : os.World) (bs : Bytes) (w' : os.World)
      → os.read fd n w ≡ (ok bs, w')
      → (length bs ≤ n) × (pending w ≡ bs ++ pending w') × (patience w' ≤ patience w)
  pub read_interrupted :
      (n : ℕ) (w w' : os.World)
      → os.read fd n w ≡ (interrupted, w')
      → (pending w ≡ pending w') × (patience w' < patience w)
  pub read_again : (n : ℕ) (w w' : os.World) → os.read fd n w ≡ (again, w') → pending w ≡ pending w'
  pub read_failed :
      (n : ℕ) (w w' : os.World) → os.read fd n w ≡ (failed, w') → pending w ≡ pending w'

-- A stream for writing, by the call `put`, which is `write` or `send`: what is accepted is a prefix
-- of what was offered, and goes behind what was accepted before.
pub record IsOutbound (os : Os) (put : Bytes → os.World → Io ℕ × os.World) : Type 0 where
  pub sent : os.World → Bytes
  pub patience : os.World → ℕ
  pub put_ok :
      (bs : Bytes) (w : os.World) (n : ℕ) (w' : os.World)
      → put bs w ≡ (ok n, w')
      → (n ≤ length bs) × (sent w' ≡ sent w ++ take n bs) × (patience w' ≤ patience w)
  pub put_interrupted :
      (bs : Bytes) (w w' : os.World)
      → put bs w ≡ (interrupted, w')
      → (sent w' ≡ sent w) × (patience w' < patience w)
  pub put_again : (bs : Bytes) (w w' : os.World) → put bs w ≡ (again, w') → sent w' ≡ sent w
  pub put_failed : (bs : Bytes) (w w' : os.World) → put bs w ≡ (failed, w') → sent w' ≡ sent w
  pub epoll_sends_nothing :
      (op : EpollOp) (fd : ℕ) (w : os.World) → sent (os.epoll_ctl op fd w).1 ≡ sent w

-- The sockets of all clients are such streams, `bound` is a limit on their interruptions, and the
-- allocator sends nothing.
pub record IsServing (os : Os) (bound : ℕ) : Type 0 where
  pub out : (fd : ℕ) → IsOutbound os (os.send fd)
  pub calm : (fd : ℕ) (w : os.World) → (out fd).patience w ≤ bound
  pub malloc_sends_nothing :
      (fd n : ℕ) (w : os.World) → (out fd).sent (os.malloc n w).1 ≡ (out fd).sent w
  pub new_struct_sends_nothing :
      (fd : ℕ) (w : os.World) → (out fd).sent (os.new_struct w).1 ≡ (out fd).sent w

module _ {A W : Type 0} where
  -- The four answers of a call, with the equation.
  pub data Answered (p : Io A × W) : Type 0 where
    is_ok : (a : A) (w : W) → p ≡ (ok a, w) → Answered p
    is_again : (w : W) → p ≡ (again, w) → Answered p
    is_interrupted : (w : W) → p ≡ (interrupted, w) → Answered p
    is_failed : (w : W) → p ≡ (failed, w) → Answered p

  pub answered : (p : Io A × W) → Answered p
  answered (ok a, w) = is_ok a w refl
  answered (again, w) = is_again w refl
  answered (interrupted, w) = is_interrupted w refl
  answered (failed, w) = is_failed w refl

  -- A call that may give no block.
  pub allocated :
      (p : Option A × W) → ((w : W) × (p ≡ (none, w))) ⊎ ((a : A) × (w : W) × (p ≡ (some a, w)))
  allocated (none, w) = inl (w, refl)
  allocated (some a, w) = inr (a, w, refl)

pub Status-cases : (r : Status) → (r ≡ success) ⊎ (r ≡ failure)
Status-cases success = inl refl
Status-cases failure = inr refl

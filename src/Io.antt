-- ===== src/Io.antt =====
-- io.c: the loops that read or write a whole buffer. A round of fuel is one system call.
pub mod ReadAll
pub mod WriteAll
use c_chat_server.Base.{
  ℕ, zero, suc, ◌+◌, ◌-◌, Bytes, drop, length, M, pure, fault, checked, ◌>>=◌, ltb, ◌==◌,
  if◌then◌else◌, memcpy, slice,
}
use c_chat_server.Os.{Os, Io, ok, again, interrupted, failed, Count, count, error, call}

module _ (os : Os) where
  -- Out of fuel and an access out of bounds are both `none`.
  pub read_all_loop : (fuel fd n : ℕ) → Bytes → (total_read : ℕ) → M os.World (Count × Bytes)
  read_all_loop zero fd n buffer total_read = fault
  read_all_loop (suc fuel) fd n buffer total_read =
      let stop : M os.World (Count × Bytes) = pure (count total_read, buffer) in
      let round : M os.World (Count × Bytes) = do
        r ← call (os.read fd (n - total_read))
        elim r [
          | ok bs ↦ if length bs == 0 then stop else do
            buffer' ← checked (memcpy buffer total_read bs)
            read_all_loop fuel fd n buffer' (total_read + length bs)
          | again ↦ pure (error, buffer)
          | interrupted ↦ read_all_loop fuel fd n buffer total_read
          | failed ↦ pure (error, buffer)
        ]
      in if ltb total_read n then round else stop

  unfoldable pub read_all : (fuel fd : ℕ) → Bytes → (n : ℕ) → M os.World (Count × Bytes)
  unfolding read_all_loop
  read_all fuel fd buffer n = read_all_loop fuel fd n buffer 0

  pub write_all_loop : (fuel fd n : ℕ) → Bytes → (total_written : ℕ) → M os.World Count
  write_all_loop zero fd n buffer total_written = fault
  write_all_loop (suc fuel) fd n buffer total_written =
      let stop : M os.World Count = pure (count total_written) in
      let round : M os.World Count = do
        bs ← checked (slice buffer total_written (n - total_written))
        r ← call (os.write fd bs)
        elim r [
          | ok k ↦ if k == 0 then stop else write_all_loop fuel fd n buffer (total_written + k)
          | again ↦ pure error
          | interrupted ↦ write_all_loop fuel fd n buffer total_written
          | failed ↦ pure error
        ]
      in if ltb total_written n then round else stop

  unfoldable pub write_all : (fuel fd : ℕ) → Bytes → (n : ℕ) → M os.World Count
  unfolding write_all_loop
  write_all fuel fd buffer n = write_all_loop fuel fd n buffer 0

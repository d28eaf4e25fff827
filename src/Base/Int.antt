-- ===== src/Base/Int.antt =====
-- Signed return codes.
use Prim.Native.Nat.{ℕ}
use mathlib.Core.Bool.{Bool, false}
use c_chat_server.Base.Tests.{◌==◌}

-- `negsuc n` is -(n + 1).
pub data ℤ : Type 0 where
  pos : ℕ → ℤ
  negsuc : ℕ → ℤ

-- `status == 0` and `status == -1`
abbrev pub is_zero : ℤ → Bool
is_zero (pos n) = n == 0
is_zero (negsuc n) = false

abbrev pub is_minus_one : ℤ → Bool
is_minus_one (pos n) = false
is_minus_one (negsuc n) = n == 0

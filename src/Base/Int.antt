-- ===== src/Base/Int.antt =====
-- Integers over the native numbers: a `time.Duration` is a signed count of nanoseconds.
use Prim.Native.Nat.{ℕ}
use mathlib.Core.Bool.{Bool, false}
use orv.Base.Tests.{ltb}

-- `negsuc n` is -(n + 1).
pub data ℤ : Type 0 where
  pos : ℕ → ℤ
  negsuc : ℕ → ℤ

-- `d > 0`.
abbrev pub is_positive : ℤ → Bool
is_positive (pos n) = ltb 0 n
is_positive (negsuc n) = false

-- ===== src/Prelude/Int.antt =====
-- Signed integers over the native numbers, as far as `pid_t` and `int` results need them.
use renzoku.Prelude.Tests.{leb}
use Prim.Native.Nat.{ℕ}
use mathlib.Core.Bool.{Bool, true, false}

-- `negsuc n` is -(n + 1).
pub data ℤ : Type 0 where
  pos : ℕ → ℤ
  negsuc : ℕ → ℤ

-- `a <= n`, `0 < a` and `a < 0`
abbrev pub at_most : ℤ → ℕ → Bool
at_most (pos a) n = leb a n
at_most (negsuc a) n = true

abbrev pub is_negative : ℤ → Bool
is_negative (pos a) = false
is_negative (negsuc a) = true

abbrev pub is_positive : ℤ → Bool
is_positive (pos a) = leb 1 a
is_positive (negsuc a) = false

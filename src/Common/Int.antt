-- ===== src/Common/Int.antt =====
-- Go's `int` where its sign matters: the integers over the native numbers, and tests on them.
use Prim.Native.Nat.{ℕ, ◌≤◌}
use mathlib.Core.Bool.{Bool, true, false}
use awesome_lambda_auth.Common.Tests.{ltb}

-- `negsuc n` is -(n + 1).
pub data ℤ : Type 0 where
  pos : ℕ → ℤ
  negsuc : ℕ → ℤ

abbrev pub lt_int : ℤ → ℤ → Bool
lt_int (pos a) (pos b) = ltb a b
lt_int (pos a) (negsuc b) = false
lt_int (negsuc a) (pos b) = true
lt_int (negsuc a) (negsuc b) = ltb b a

-- `floor ≤ n` and `n ≤ cap`, for a bound that is not negative.
abbrev pub AtLeast : ℕ → ℤ → Type 0
AtLeast floor (pos n) = floor ≤ n
AtLeast floor (negsuc n) = ⊥

abbrev pub AtMost : ℕ → ℤ → Type 0
AtMost top (pos n) = n ≤ top
AtMost top (negsuc n) = Unit

-- ===== src/Prelude/Float.antt =====
-- Python's `float` is not modelled: a type of numbers and the operations that the code calls on it.
use Prim.Native.Nat.{ℕ}
use mathlib.Core.Bool.{Bool}

pub record FloatOps (F : Type 0) : Type 0 where
  -- the literal n / 100
  pub hundredths : ℕ → F
  pub add : F → F → F
  pub sub : F → F → F
  -- `m / n` of two integers, and `m / x` of an integer and a float
  pub div : ℕ → ℕ → F
  pub div_by : ℕ → F → F
  -- `x < y` and `x <= y`
  pub lt : F → F → Bool
  pub le : F → F → Bool
  pub is_zero : F → Bool

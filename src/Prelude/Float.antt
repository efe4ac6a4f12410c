-- ===== src/Prelude/Float.antt =====
-- Go's float64: a value is its 64 bits, as a number. The arithmetic of IEEE 754 is a parameter, since nothing
-- that is proved here depends on it.
use Prim.Native.Nat.{ℕ}
use mathlib.Core.Bool.{Bool}
use irtt.Prelude.Int.{ℤ}

pub record Float64 : Type 0 where
  pub of_int : ℤ → ℕ
  pub plus : ℕ → ℕ → ℕ
  pub minus : ℕ → ℕ → ℕ
  pub times : ℕ → ℕ → ℕ
  pub over : ℕ → ℕ → ℕ
  pub lt : ℕ → ℕ → Bool
  pub le : ℕ → ℕ → Bool
  pub eq : ℕ → ℕ → Bool
  pub to_int : ℕ → ℤ

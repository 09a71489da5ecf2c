-- ===== src/Base/Float.antt =====
-- Go's float64 is not implemented by the program: its operations are a parameter of the model.
-- No law is a field here. A theorem that rests on one names it as a hypothesis.
use Prim.Native.Nat.{ℕ}
use mathlib.Core.Bool.{Bool}
use flowbench.Base.Int.{ℤ}

pub record Float64 : Type 1 where
  pub F : Type 0
  -- `float64(n)` of an integer, and `int(x)`, which drops the fraction
  pub of_int : ℤ → F
  pub trunc : F → ℤ
  -- the literal m / 10^k: `decimal 95 2` is 0.95
  pub decimal : ℕ → ℕ → F
  pub add : F → F → F
  pub sub : F → F → F
  pub mul : F → F → F
  pub div : F → F → F
  pub lt : F → F → Bool
  pub le : F → F → Bool

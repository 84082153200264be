-- ===== src/Base/Float.antt =====
-- `f64`. The language's floating-point numbers are a parameter: the operations that the source
-- uses, with no law assumed of their rounding.
use Prim.Native.Nat.{ℕ}
use mathlib.Core.Bool.{Bool}
use engine_mev.Base.Int.{ℤ}

pub record F64 : Type 1 where
  pub F : Type 0
  -- `literal n k` is the literal `n / 10^k`.
  pub literal : ℕ → ℕ → F
  -- `n as f64`, `x as u64`, `x as u128`.
  pub of_nat : ℕ → F
  pub to_u64 : F → ℕ
  pub to_u128 : F → ℕ
  pub add : F → F → F
  pub sub : F → F → F
  pub mul : F → F → F
  pub div : F → F → F
  pub powi : F → ℤ → F
  pub sqrt : F → F
  pub lt : F → F → Bool
  pub le : F → F → Bool

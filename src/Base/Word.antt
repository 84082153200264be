-- ===== src/Base/Word.antt =====
-- Rust's unsigned machine integers as native numbers: the checked operations of `u128`, the plain
-- ones, which panic on overflow, the wrapping ones of the atomics, and the casts. A `u64` is a
-- number below `u64_mod`, a `u128` one below `u128_mod`.
use Prim.Native.Nat.{ℕ, ◌+◌, ◌-◌, ◌*◌, ◌/◌, ◌%◌, ◌^◌, ◌<◌, ◌≤◌}
use mathlib.Core.Path.{◌≡◌}
use native.Mathlib.Omega.{arith}
use engine_mev.Base.Tests.{ltb, leb, ◌==◌, if◌then◌else◌}
use engine_mev.Base.Outcome.{Outcome, ret, nothing, panic}

abbrev pub u64_mod : ℕ
u64_mod = 2 ^ 64

abbrev pub u128_mod : ℕ
u128_mod = 2 ^ 128

-- `u128::checked_add`, `checked_mul`: `None` on overflow.
unfoldable pub checked_add : ℕ → ℕ → Outcome ℕ
checked_add a b = if ltb (a + b) u128_mod then ret (a + b) else nothing

unfoldable pub checked_mul : ℕ → ℕ → Outcome ℕ
checked_mul a b = if ltb (a * b) u128_mod then ret (a * b) else nothing

-- `checked_sub`: `None` below zero.
unfoldable pub checked_sub : ℕ → ℕ → Outcome ℕ
checked_sub a b = if leb b a then ret (a - b) else nothing

-- `checked_div`: `None` on a zero divisor.
unfoldable pub checked_div : ℕ → ℕ → Outcome ℕ
checked_div a b = if b == 0 then nothing else ret (a / b)

-- `a + b` and `a * b` on `u128`, written without `checked_`.
unfoldable pub add_u128 : ℕ → ℕ → Outcome ℕ
add_u128 a b = if ltb (a + b) u128_mod then ret (a + b) else panic

unfoldable pub mul_u128 : ℕ → ℕ → Outcome ℕ
mul_u128 a b = if ltb (a * b) u128_mod then ret (a * b) else panic

-- `fetch_add` and `fetch_sub` of an `AtomicU64` wrap around.
unfoldable pub fetch_add : ℕ → ℕ → ℕ
fetch_add a b = (a + b) % u64_mod

unfoldable pub fetch_sub : ℕ → ℕ → ℕ
fetch_sub a b = (a + u64_mod - b) % u64_mod

module _ (a b : ℕ) {c : ℕ} where
  pub checked_add-eq_ret : checked_add a b ≡ ret c → (c ≡ a + b) × (c < u128_mod)
  unfolding checked_add
  checked_add-eq_ret h = ground arith

  pub checked_mul-eq_ret : checked_mul a b ≡ ret c → (c ≡ a * b) × (c < u128_mod)
  unfolding checked_mul
  checked_mul-eq_ret h = ground arith

  pub checked_sub-eq_ret : checked_sub a b ≡ ret c → (c + b ≡ a) × (b ≤ a)
  unfolding checked_sub
  checked_sub-eq_ret h = ground arith

  pub checked_div-eq_ret : checked_div a b ≡ ret c → (0 < b) × (c ≡ a / b)
  unfolding checked_div
  checked_div-eq_ret h = ground arith

  pub add_u128-eq_ret : add_u128 a b ≡ ret c → (c ≡ a + b) × (c < u128_mod)
  unfolding add_u128
  add_u128-eq_ret h = ground arith

  pub mul_u128-eq_ret : mul_u128 a b ≡ ret c → (c ≡ a * b) × (c < u128_mod)
  unfolding mul_u128
  mul_u128-eq_ret h = ground arith

-- The checked operations succeed where the result fits.
pub checked_mul_fits : (a b : ℕ) → a * b < u128_mod → checked_mul a b ≡ ret (a * b)
unfolding checked_mul
checked_mul_fits a b h = ground arith

pub checked_add_fits : (a b : ℕ) → a + b < u128_mod → checked_add a b ≡ ret (a + b)
unfolding checked_add
checked_add_fits a b h = ground arith

pub checked_sub_fits : (a b : ℕ) → b ≤ a → checked_sub a b ≡ ret (a - b)
unfolding checked_sub
checked_sub_fits a b h = ground arith

pub checked_div_fits : (a b : ℕ) → 0 < b → checked_div a b ≡ ret (a / b)
unfolding checked_div
checked_div_fits a b h = ground arith

pub mul-le : (a b c : ℕ) → a ≤ b → c * a ≤ c * b
mul-le a b c h = grind arith

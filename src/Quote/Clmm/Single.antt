-- ===== src/Quote/Clmm/Single.antt =====
-- What the single-tick quote guarantees: the price and the size of the output.
use native.Mathlib.Nat.{div-mul-le_self}
use engine_mev.Base.{
  ℕ, ◌+◌, ◌-◌, ◌*◌, ◌/◌, ◌≤◌, ◌<◌, ◌≡◌, true, false, arith, inl, inr, Bool-cases, ◌==◌,
}
use engine_mev.Base.Outcome.{ret, >>=-use}
use engine_mev.Base.Word.{u64_mod, checked_add, checked_mul, checked_sub, checked_div, mul-le}
use engine_mev.Quote.Clmm.{
  q64, input_after_fee, single_tick_down, single_tick_up, clmm_single_tick_output,
}

input_after_fee-le : (f x : ℕ) {n : ℕ} → input_after_fee f x ≡ ret n → n ≤ x
unfolding input_after_fee checked_sub checked_mul checked_div
input_after_fee-le f x h = ground (arith, mul-le (1_000_000 - f * 100) 1_000_000 x)

pub single_tick_down-eq_ret :
    (p l a : ℕ) {y : ℕ}
    → single_tick_down p l a ≡ ret y
    → (n : ℕ) × (n < p) × (y ≡ l * (p - n) / q64) × (y < u64_mod)
unfolding single_tick_down checked_add checked_sub checked_mul checked_div
single_tick_down-eq_ret p l a h =
    (l * p / (l + a * p / q64), ground arith, ground arith, ground arith)

pub single_tick_up-eq_ret :
    (p l a : ℕ) {y : ℕ}
    → single_tick_up p l a ≡ ret y
    → let d = a * q64 / l in (y ≡ l * d / p * q64 / (p + d)) × (y < u64_mod)
unfolding single_tick_up checked_add checked_sub checked_mul checked_div
single_tick_up-eq_ret p l a h = ground arith

down_size : (p l a : ℕ) {y : ℕ} → single_tick_down p l a ≡ ret y → y * q64 ≤ l * p
down_size p l a h =
    let (n, below, value, _) = single_tick_down-eq_ret p l a h in
    omega (arith, value, div-mul-le_self (l * (p - n)) q64, mul-le (p - n) p l (omega arith))

spot :
    (y p n s d l a : ℕ)
    → p ≤ n
    → y * n ≤ s * q64
    → s * p ≤ l * d
    → l * d ≤ a * q64
    → y * p * p ≤ a * q64 * q64
spot y p n s d l a up h k m = omega (arith, mul-le (y * n) (s * q64) p h, mul-le p n (y * p) up)

up_price : (p l a : ℕ) {y : ℕ} → single_tick_up p l a ≡ ret y → y * p * p ≤ a * q64 * q64
up_price p l a {y} h =
    let d = a * q64 / l in
    let s = l * d / p in
    let (value, _) = single_tick_up-eq_ret p l a h in
    let top : y * (p + d) ≤ s * q64 = rw value (div-mul-le_self _ (p + d)) in
    let low : l * d ≤ a * q64 = omega (arith, div-mul-le_self (a * q64) l) in
    spot y p (p + d) s d l a (omega arith) top (div-mul-le_self _ p) low

-- Selling token a into a single range never pays more than the token b that the range holds down to
-- a price of zero, which is the liquidity times the price.
pub single_tick_sell_bound :
    (f p l x : ℕ) {y : ℕ} → clmm_single_tick_output f p l x true ≡ ret y → y * q64 ≤ l * p
unfolding clmm_single_tick_output
single_tick_sell_bound f p l x h = >>=-use (input_after_fee f x) _ h λ a fee rest.
    elim (Bool-cases (a == 0)) [
      | inl empty ↦ ground arith
      | inr some_left ↦ down_size p l a (rw some_left at rest)
    ]

-- Buying token a from a single range never beats the spot price: the output times the square of the
-- price is at most the input, both in Q64.64.
pub single_tick_buy_bound :
    (f p l x : ℕ) {y : ℕ}
    → clmm_single_tick_output f p l x false ≡ ret y
    → y * p * p ≤ x * q64 * q64
unfolding clmm_single_tick_output
single_tick_buy_bound f p l x h = >>=-use (input_after_fee f x) _ h λ a fee rest.
    elim (Bool-cases (a == 0)) [
      | inl empty ↦ ground arith
      | inr some_left ↦
          omega (arith, up_price p l a (rw some_left at rest), input_after_fee-le f x fee)
    ]

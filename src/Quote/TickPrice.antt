-- ===== src/Quote/TickPrice.antt =====
-- `tick_index_to_sqrt_price_x64` of src/router/dex/mod.rs, which computes on floating-point numbers.
use engine_mev.Base.{ℕ, ◌%◌, ◌^◌, ◌-◌, ◌==◌, ltb, ◌||◌, if◌then◌else◌}
use engine_mev.Base.Int.{ℤ, pos, ltb_ℤ, div_trunc, unsigned_abs}
use engine_mev.Base.Float.{F64}
use engine_mev.Base.Outcome.{Outcome, ret, ◌>>◌, reject_if}
use engine_mev.Quote.Clmm.{q64}

module _ (fl : F64) where
  open fl use {F, literal, of_nat, to_u128, mul, div, powi, sqrt, le}

  -- The factor of an odd tick.
  odd_factor : ℤ → F
  odd_factor tick =
      if unsigned_abs tick % 2 == 0
      then literal 1 0
      else if ltb_ℤ (pos 0) tick
      then sqrt (literal 10_001 4)
      else div (literal 1 0) (sqrt (literal 10_001 4))

  unfoldable pub tick_index_to_sqrt_price_x64 : ℤ → Outcome ℕ
  unfolding odd_factor
  tick_index_to_sqrt_price_x64 tick = do
    reject_if (ltb 443_636 (unsigned_abs tick))
    let sqrt_price = mul (powi (literal 10_001 4) (div_trunc tick 2)) (odd_factor tick)
    let result = mul sqrt_price (of_nat q64)
    reject_if (le result (literal 0 0) || le (of_nat (2 ^ 128 - 1)) result)
    ret (to_u128 result)

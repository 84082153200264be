-- ===== src/Quote/ClmmRaydium.antt =====
-- Quoting for Raydium CLMM with ticks, src/router/dex/clmm_raydium.rs: the choice between the
-- walk over the ticks and the single-tick formula, and the walk itself.
use engine_mev.Base.{ℕ, Bool, Option, none, some, List, [], ◌∷◌, ◌==◌, ltb, ◌&&◌, if◌then◌else◌}
use engine_mev.Base.Float.{F64}
use engine_mev.Base.Int.{ℤ, pos}
use engine_mev.Base.Outcome.{Outcome, ret, nothing, ◌>>=◌}
use engine_mev.Pool.{ClmmTickArray, PoolState}
use engine_mev.Quote.Clmm.{narrow, input_after_fee, clmm_single_tick_output}
use engine_mev.Quote.TickWalk.{Walk, initialized_ticks, walk, max_steps, last_range}

module _ (fl : F64) where
  -- `pool.current_tick.unwrap_or(0)`.
  current_tick_or : Option ℤ → ℤ
  current_tick_or none = pos 0
  current_tick_or (some t) = t

  unfoldable pub multi_tick_output : PoolState → ℕ → Bool → ℕ → ℕ → List ClmmTickArray → Outcome ℕ
  unfolding current_tick_or
  multi_tick_output p input_amount a_to_b sqrt_price liquidity arrays = do
    amount ← input_after_fee p.fee_bps input_amount
    let ticks = initialized_ticks arrays (current_tick_or p.current_tick) a_to_b
    let start : Walk = record {
      amount_remaining = amount;
      total_output = 0;
      current_sqrt_price = sqrt_price;
      current_liquidity = liquidity;
    }
    let run = (do
      w ← walk fl max_steps a_to_b ticks start
      total ← last_range a_to_b w
      narrow total)
    if amount == 0 then ret 0 else run

  -- What follows once the pool has a price and a liquidity.
  unfoldable pub quote_at : PoolState → ℕ → Bool → ℕ → ℕ → Option (List ClmmTickArray) → Outcome ℕ
  quote_at p input_amount a_to_b sqrt_price liquidity none =
      clmm_single_tick_output p.fee_bps sqrt_price liquidity input_amount a_to_b
  quote_at p input_amount a_to_b sqrt_price liquidity (some []) =
      clmm_single_tick_output p.fee_bps sqrt_price liquidity input_amount a_to_b
  quote_at p input_amount a_to_b sqrt_price liquidity (some (arr ∷ rest)) =
      multi_tick_output p input_amount a_to_b sqrt_price liquidity (arr ∷ rest)

  unfoldable pub quote : PoolState → ℕ → Bool → Option (List ClmmTickArray) → Outcome ℕ
  quote p input_amount a_to_b tick_arrays = elim p.sqrt_price_x64 [
    | none ↦ nothing
    | some sqrt_price ↦ elim p.liquidity [
      | none ↦ nothing
      | some liquidity ↦
          if ltb 0 sqrt_price && ltb 0 liquidity
          then quote_at p input_amount a_to_b sqrt_price liquidity tick_arrays
          else nothing
    ]
  ]

-- ===== src/Quote/DammV2.antt =====
-- Quoting for Meteora DAMM v2, src/router/dex/damm_v2.rs.
use engine_mev.Base.{ℕ, Bool, none, some, ltb, ◌&&◌, if◌then◌else◌}
use engine_mev.Base.Outcome.{Outcome}
use engine_mev.Pool.{PoolState}
use engine_mev.Quote.Clmm.{clmm_single_tick_output}
use engine_mev.Quote.Cpmm

-- The single-tick formula where the pool has a price and a liquidity, and the constant product
-- otherwise.
unfoldable pub quote : PoolState → ℕ → Bool → Outcome ℕ
quote p input_amount a_to_b = elim p.sqrt_price_x64 [
  | none ↦ Cpmm.quote p input_amount a_to_b
  | some sqrt_price ↦ elim p.liquidity [
    | none ↦ Cpmm.quote p input_amount a_to_b
    | some liquidity ↦
        if ltb 0 sqrt_price && ltb 0 liquidity
        then clmm_single_tick_output p.fee_bps sqrt_price liquidity input_amount a_to_b
        else Cpmm.quote p input_amount a_to_b
  ]
]

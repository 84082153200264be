-- ===== src/Cexdex/Simulator.antt =====
-- The simulator of src/cexdex/simulator.rs. The reason of a refusal, a text, is not modelled.
use engine_mev.Base.{ℕ, none, some, ◌==◌}
use engine_mev.Base.Float.{F64}
use engine_mev.Base.Outcome.{Outcome, ret, of_option, ◌>>=◌, ◌>>◌, reject_if}
use engine_mev.Cache.{get_any, get_bin_arrays, get_tick_arrays}
use engine_mev.Inventory.{ArbDirection, buy_on_dex, sell_on_dex}
use engine_mev.Quote.Dispatch.{get_output_amount_with_cache}
use engine_mev.Cexdex.{
  CexDexRoute, PriceStore, sol_to_lamports, lamports_to_sol, usdc_to_atoms, atoms_to_usdc, zero_f,
}

pub record CexDexSimulatorConfig (fl : F64) : Type 0 where
  pub min_profit_usd : fl.F
  pub slippage_tolerance : fl.F
  pub tx_fee_lamports : ℕ
  pub min_tip_lamports : ℕ
  pub max_tip_fraction : fl.F

-- `SimulationResult::Profitable`; `Unprofitable` is `nothing`.
pub record Profitable (fl : F64) : Type 0 where
  pub route : CexDexRoute fl
  pub adjusted_profit_sol : fl.F
  pub adjusted_profit_usd : fl.F
  pub net_profit_usd_worst_case : fl.F
  pub min_final_output : ℕ

module _ (fl : F64) where
  -- The current bid and ask, or those of the detection.
  unfoldable pub cex_prices : PriceStore fl → CexDexRoute fl → fl.F × fl.F
  cex_prices store route = elim store.cex [
    | none ↦ (route.cex_bid_at_detection, route.cex_ask_at_detection)
    | some s ↦ (s.best_bid_usd, s.best_ask_usd)
  ]

  -- What goes in and what comes out, in USD.
  unfoldable pub gross_usd : ArbDirection → ℕ → ℕ → fl.F → fl.F → fl.F
  gross_usd buy_on_dex input output bid ask =
      fl.sub (fl.mul (lamports_to_sol fl output) bid) (atoms_to_usdc fl input)
  gross_usd sell_on_dex input output bid ask =
      fl.sub (atoms_to_usdc fl output) (fl.mul (lamports_to_sol fl input) ask)

  unfoldable pub min_output : ArbDirection → ℕ → fl.F → fl.F → fl.F → ℕ
  min_output buy_on_dex input bid ask kept =
      sol_to_lamports fl (fl.mul (fl.div (atoms_to_usdc fl input) ask) kept)
  min_output sell_on_dex input bid ask kept =
      usdc_to_atoms fl (fl.mul (fl.mul (lamports_to_sol fl input) bid) kept)

  -- The adjusted profit less the highest tip and the fee.
  abbrev pub worst_case : CexDexSimulatorConfig fl → fl.F → fl.F → fl.F
  worst_case config adjusted_usd sol_price =
      let adjusted_sol = fl.div adjusted_usd sol_price in
      let tip_usd = fl.mul (fl.mul adjusted_sol config.max_tip_fraction) sol_price in
      let fee_usd = fl.mul (lamports_to_sol fl config.tx_fee_lamports) sol_price in
      fl.sub (fl.sub adjusted_usd tip_usd) fee_usd

  unfoldable pub simulate :
      CexDexSimulatorConfig fl → PriceStore fl → CexDexRoute fl → Outcome (Profitable fl)
  simulate config store route = do
    pool ← of_option (get_any store.pools route.pool_address)
    let a_to_b = pool.token_a_mint == route.input_mint
    output ←
        get_output_amount_with_cache fl pool route.input_amount a_to_b
          (get_bin_arrays store.pools pool.address) (get_tick_arrays store.pools pool.address)
    reject_if (output == 0)
    let prices = cex_prices store route
    let gross = gross_usd route.direction route.input_amount output prices.0 prices.1
    reject_if (fl.le gross (zero_f fl))
    let kept = fl.sub (fl.literal 1 0) config.slippage_tolerance
    let adjusted = fl.mul gross kept
    let sol_price = fl.div (fl.add prices.0 prices.1) (fl.literal 2 0)
    reject_if (fl.le sol_price (zero_f fl))
    let net = worst_case config adjusted sol_price
    reject_if (fl.le net (zero_f fl))
    reject_if (fl.lt net config.min_profit_usd)
    ret (record {
      route = record route {
        expected_output = output;
        expected_profit_usd = adjusted;
        cex_bid_at_detection = prices.0;
        cex_ask_at_detection = prices.1;
      };
      adjusted_profit_sol = fl.div adjusted sol_price;
      adjusted_profit_usd = adjusted;
      net_profit_usd_worst_case = net;
      min_final_output = min_output route.direction route.input_amount prices.0 prices.1 kept;
    })

-- ===== src/Cexdex/Accounted.antt =====
-- What src/cexdex/simulator.rs has found out about a route that it lets pass.
use engine_mev.Base.{ℕ, ◌<◌, ◌≡◌, false, none, some, ◌==◌}
use engine_mev.Base.Float.{F64}
use engine_mev.Base.Outcome.{Outcome, ret}
use engine_mev.Cache.{get_any, get_bin_arrays, get_tick_arrays}
use engine_mev.Inventory.{ArbDirection, buy_on_dex, sell_on_dex}
use engine_mev.Pool.{PoolState}
use engine_mev.Quote.Dispatch.{get_output_amount_with_cache}
use engine_mev.Cexdex.{CexDexRoute, PriceStore, zero_f, lamports_to_sol, atoms_to_usdc}
use engine_mev.Cexdex.Simulator.{CexDexSimulatorConfig, Profitable}

module _ (fl : F64) where
  -- What the wallet pays and what it gets, in USD: SOL by the price, USDC as it is.
  abbrev pub paid_usd : ArbDirection → ℕ → fl.F → fl.F
  paid_usd buy_on_dex amount ask = atoms_to_usdc fl amount
  paid_usd sell_on_dex amount ask = fl.mul (lamports_to_sol fl amount) ask

  abbrev pub received_usd : ArbDirection → ℕ → fl.F → fl.F
  received_usd buy_on_dex amount bid = fl.mul (lamports_to_sol fl amount) bid
  received_usd sell_on_dex amount bid = atoms_to_usdc fl amount

  -- The current bid and ask of the exchange, and without them those of the detection.
  abbrev pub quoted_prices : PriceStore fl → CexDexRoute fl → fl.F × fl.F
  quoted_prices store route = elim store.cex [
    | some s ↦ (s.best_bid_usd, s.best_ask_usd)
    | none ↦ (route.cex_bid_at_detection, route.cex_ask_at_detection)
  ]

  abbrev pub mid_price : CexDexRoute fl → fl.F
  mid_price route =
      fl.div (fl.add route.cex_bid_at_detection route.cex_ask_at_detection) (fl.literal 2 0)

  -- The figures of a result. The highest tip is the greatest fraction of the profit in SOL that the
  -- result hands on to the dispatch, by which each relay's tip is computed.
  pub record Accounted (config : CexDexSimulatorConfig fl) (store : PriceStore fl)
      (route : CexDexRoute fl) (r : Profitable fl) : Type 0 where
    pub quoted :
        (pool : PoolState) × (get_any store.pools route.pool_address ≡ some pool)
        × (get_output_amount_with_cache fl pool route.input_amount
              (pool.token_a_mint == route.input_mint)
              (get_bin_arrays store.pools pool.address)
              (get_tick_arrays store.pools pool.address)
            ≡ ret r.route.expected_output)
    pub output_positive : 0 < r.route.expected_output
    pub same_input : r.route.input_amount ≡ route.input_amount
    pub same_direction : r.route.direction ≡ route.direction
    pub fresh_prices :
        (r.route.cex_bid_at_detection, r.route.cex_ask_at_detection) ≡ quoted_prices store route
    pub discounted :
        r.adjusted_profit_usd
        ≡ fl.mul
            (fl.sub
              (received_usd r.route.direction r.route.expected_output r.route.cex_bid_at_detection)
              (paid_usd r.route.direction r.route.input_amount r.route.cex_ask_at_detection))
            (fl.sub (fl.literal 1 0) config.slippage_tolerance)
    pub in_sol : r.adjusted_profit_sol ≡ fl.div r.adjusted_profit_usd (mid_price r.route)
    pub net :
        r.net_profit_usd_worst_case
        ≡ fl.sub
            (fl.sub r.adjusted_profit_usd
              (fl.mul (fl.mul r.adjusted_profit_sol config.max_tip_fraction) (mid_price r.route)))
            (fl.mul (lamports_to_sol fl config.tx_fee_lamports) (mid_price r.route))
    pub net_positive : fl.le r.net_profit_usd_worst_case (zero_f fl) ≡ false
    pub enough : fl.lt r.net_profit_usd_worst_case config.min_profit_usd ≡ false

-- ===== src/Cexdex/Detector.antt =====
-- The divergence detector, src/cexdex/detector.rs: which pool and direction is worth a trade, at what
-- size. The counters of skipped candidates are not modelled.
use engine_mev.Base.{
  ℕ, ◌-◌, Bool, true, false, not, Option, none, some, List, [], ◌∷◌, ◌==◌, ltb, ◌&&◌, ◌||◌,
  if◌then◌else◌,
}
use engine_mev.Base.Float.{F64}
use engine_mev.Base.Outcome.{Outcome, ret, nothing, panic, of_option, ◌>>=◌, ◌>>◌, reject_if}
use engine_mev.Cache.{get_any, get_bin_arrays, get_tick_arrays}
use engine_mev.Inventory.{
  Inventory, ArbDirection, buy_on_dex, sell_on_dex, sol_lamports_available, usdc_atoms_available,
}
use engine_mev.Pool.{Pubkey, PoolState}
use engine_mev.Addresses
use engine_mev.Quote.Dispatch.{get_output_amount_with_cache}
use engine_mev.Cexdex.{
  F64More, CexDexRoute, PriceSnapshot, PriceStore, Wallet, sol_to_lamports, lamports_to_sol,
  usdc_to_atoms, atoms_to_usdc, zero_f, spread_bps, is_stale, allows_direction, profit_multiplier,
}

abbrev pub usdc_mint : Pubkey
usdc_mint = 0xc6fa7af3bedbad3a3d65f36aabc97431b1bbe4c2d2f6e0e47ca60203452f5d61

pub record DetectorConfig (fl : F64) : Type 0 where
  pub min_spread_bps : ℕ
  pub min_profit_usd : fl.F
  pub max_trade_size_sol : fl.F
  pub max_position_fraction : fl.F
  pub cex_staleness_ms : ℕ
  pub slippage_tolerance : fl.F
  pub dedup_window_ms : ℕ
  pub global_submit_cooldown_ms : ℕ

abbrev pub Dispatches : Type 0
Dispatches = Pubkey → ArbDirection → Option ℕ

pub record Detector (fl : F64) : Type 0 where
  pub store : PriceStore fl
  pub wallet : Wallet fl
  pub pools : List Pubkey
  pub config : DetectorConfig fl
  pub last_emit : Dispatches
  pub last_global_emit : Option ℕ

abbrev pub same_direction : ArbDirection → ArbDirection → Bool
same_direction buy_on_dex buy_on_dex = true
same_direction buy_on_dex sell_on_dex = false
same_direction sell_on_dex buy_on_dex = false
same_direction sell_on_dex sell_on_dex = true

-- A window is open from the last dispatch on; a window of zero is switched off.
unfoldable pub within_window : ℕ → ℕ → Option ℕ → Bool
within_window now window none = false
within_window now window (some t) = ltb 0 window && ltb (now - t) window

-- Whether SOL is the first token, and the reserves of SOL and of USDC.
unfoldable pub sol_usdc_side : PoolState → Option (Bool × ℕ × ℕ)
sol_usdc_side pool =
    if pool.token_a_mint == Addresses.wsol && pool.token_b_mint == usdc_mint
    then some (true, pool.token_a_reserve, pool.token_b_reserve)
    else if pool.token_b_mint == Addresses.wsol && pool.token_a_mint == usdc_mint
    then some (false, pool.token_b_reserve, pool.token_a_reserve)
    else none

module _ (fl : F64) where
  unfoldable pub mark_dispatched : ℕ → Pubkey → ArbDirection → Detector fl → Detector fl
  mark_dispatched now pool direction d = record d {
    last_emit =
        λ k dir. if k == pool && same_direction dir direction then some now else d.last_emit k dir;
    last_global_emit = some now;
  }

  module _ (more : F64More fl) where
    -- The price that the spot price must be beaten by, if it is on the right side of it.
    unfoldable pub reference_price : ArbDirection → PriceSnapshot fl → fl.F → Option fl.F
    reference_price buy_on_dex cex dex_spot =
        if fl.le cex.best_bid_usd dex_spot then none else some cex.best_bid_usd
    reference_price sell_on_dex cex dex_spot =
        if fl.le dex_spot cex.best_ask_usd then none else some cex.best_ask_usd

    -- What the wallet can spend, in SOL.
    unfoldable pub spendable_sol : ArbDirection → Inventory → fl.F → fl.F
    spendable_sol buy_on_dex i reference =
        fl.div (atoms_to_usdc fl (usdc_atoms_available i)) reference
    spendable_sol sell_on_dex i reference = lamports_to_sol fl (sol_lamports_available i)

    -- The size of the trade: the least of four caps.
    unfoldable pub trade_size : DetectorConfig fl → Inventory → ArbDirection → ℕ → ℕ → fl.F → fl.F
    trade_size config i direction sol_reserve usdc_reserve reference =
        let one_percent = fl.literal 1 2 in
        let from_usdc = fl.div (fl.mul (atoms_to_usdc fl usdc_reserve) one_percent) reference in
        let pool_cap = more.least from_usdc (fl.mul (lamports_to_sol fl sol_reserve) one_percent) in
        let total =
          fl.add (lamports_to_sol fl (sol_lamports_available i))
            (fl.div (atoms_to_usdc fl (usdc_atoms_available i)) reference) in
        let position_cap = fl.mul total config.max_position_fraction in
        more.least
          (more.least (more.least (spendable_sol direction i reference) config.max_trade_size_sol)
            pool_cap)
          position_cap

    -- The input amount and the two mints.
    unfoldable pub trade_input : ArbDirection → fl.F → fl.F → ℕ
    trade_input buy_on_dex trade_sol reference = usdc_to_atoms fl (fl.mul trade_sol reference)
    trade_input sell_on_dex trade_sol reference = sol_to_lamports fl trade_sol

    abbrev pub input_of : ArbDirection → Pubkey
    input_of buy_on_dex = usdc_mint
    input_of sell_on_dex = Addresses.wsol

    abbrev pub output_of : ArbDirection → Pubkey
    output_of buy_on_dex = Addresses.wsol
    output_of sell_on_dex = usdc_mint

    abbrev pub is_a_to_b : ArbDirection → Bool → Bool
    is_a_to_b buy_on_dex sol_is_a = not sol_is_a
    is_a_to_b sell_on_dex sol_is_a = sol_is_a

    unfoldable pub gross_profit : ArbDirection → ℕ → ℕ → PriceSnapshot fl → fl.F
    gross_profit buy_on_dex input output cex =
        fl.sub (fl.mul (lamports_to_sol fl output) cex.best_bid_usd) (atoms_to_usdc fl input)
    gross_profit sell_on_dex input output cex =
        fl.sub (atoms_to_usdc fl output) (fl.mul (lamports_to_sol fl input) cex.best_ask_usd)

    unfoldable pub try_route :
        Detector fl → PoolState → ArbDirection → PriceSnapshot fl → Outcome (CexDexRoute fl)
    try_route d pool direction cex = do
      (sol_is_a, sol_reserve, usdc_reserve) ← of_option (sol_usdc_side pool)
      reject_if (sol_reserve == 0 || usdc_reserve == 0)
      let dex_spot = fl.div (atoms_to_usdc fl usdc_reserve) (lamports_to_sol fl sol_reserve)
      reference ← of_option (reference_price direction cex dex_spot)
      reject_if (ltb (spread_bps fl more reference dex_spot) d.config.min_spread_bps)
      let trade_sol =
          trade_size d.config d.wallet.inventory direction sol_reserve usdc_reserve reference
      reject_if (fl.lt trade_sol (fl.literal 1 3))
      let input_amount = trade_input direction trade_sol reference
      output ←
          get_output_amount_with_cache fl pool input_amount (is_a_to_b direction sol_is_a)
            (get_bin_arrays d.store.pools pool.address) (get_tick_arrays d.store.pools pool.address)
      reject_if (output == 0)
      let adjusted =
          fl.mul (gross_profit direction input_amount output cex)
            (fl.sub (fl.literal 1 0) d.config.slippage_tolerance)
      reject_if (fl.le adjusted (zero_f fl))
      ret (record {
        pool_address = pool.address;
        dex_type = pool.dex_type;
        direction = direction;
        input_mint = input_of direction;
        output_mint = output_of direction;
        input_amount = input_amount;
        expected_output = output;
        cex_bid_at_detection = cex.best_bid_usd;
        cex_ask_at_detection = cex.best_ask_usd;
        expected_profit_usd = adjusted;
        observed_slot = pool.last_slot;
      })

    -- One round of the two loops: the gates of a pool and a direction; `continue` is `nothing`.
    unfoldable pub candidate :
        ℕ → Detector fl → PriceSnapshot fl → Pubkey × ArbDirection → Outcome (CexDexRoute fl)
    candidate now d cex (pool_addr, direction) = do
      pool ← of_option (get_any d.store.pools pool_addr)
      reject_if (within_window now d.config.dedup_window_ms (d.last_emit pool_addr direction))
      reject_if (not (allows_direction fl d.wallet direction))
      route ← try_route d pool direction cex
      reject_if (
          fl.lt route.expected_profit_usd
            (fl.mul d.config.min_profit_usd (profit_multiplier fl d.wallet direction)))
      ret route

    -- The route with the higher profit, the earlier one where they are equal.
    unfoldable pub better : Option (CexDexRoute fl) → CexDexRoute fl → CexDexRoute fl
    better none route = route
    better (some b) route =
        if fl.lt b.expected_profit_usd route.expected_profit_usd then route else b

    unfoldable pub pick :
        ℕ
        → Detector fl
        → PriceSnapshot fl
        → List (Pubkey × ArbDirection)
        → Option (CexDexRoute fl)
        → Outcome (Option (CexDexRoute fl))
    pick now d cex [] best = ret best
    pick now d cex (x ∷ rest) best = elim (candidate now d cex x) [
      | ret route ↦ pick now d cex rest (some (better best route))
      | nothing ↦ pick now d cex rest best
      | panic ↦ panic
    ]

    -- The rounds in their order.
    unfoldable pub rounds : List Pubkey → List (Pubkey × ArbDirection)
    rounds [] = []
    rounds (k ∷ rest) = (k, buy_on_dex) ∷ (k, sell_on_dex) ∷ rounds rest

    unfoldable pub check_all : ℕ → Detector fl → Outcome (CexDexRoute fl)
    check_all now d = do
      reject_if (within_window now d.config.global_submit_cooldown_ms d.last_global_emit)
      reject_if (is_stale fl now d.config.cex_staleness_ms d.store)
      cex ← of_option d.store.cex
      best ← pick now d cex (rounds d.pools) none
      of_option best

-- ===== src/Tests/Trackers.antt =====
-- A tracked bundle, and a route of the cross-venue engine.
use engine_mev.Base.{
  ◌+◌, ◌≤◌, ◌≢◌, ◌⊎◌, arith, Occurs, ℕ, zero, suc, ◌/◌, ◌≡◌, refl, true, false, none, some, List,
  [], ◌∷◌, min,
}
use engine_mev.Base.Outcome.{ret}
use engine_mev.Base.Word.{checked_add, checked_mul, checked_sub, checked_div}
use engine_mev.Addresses
use engine_mev.Cache.{
  new, upsert, insert, lookup, get_any, normalize_pair, get_bin_arrays, get_tick_arrays,
}
use engine_mev.Cache.Index.{add}
use engine_mev.Cexdex.{
  F64More, PriceSnapshot, CexDexRoute, PriceStore, Wallet, sol_to_lamports, lamports_to_sol,
  usdc_to_atoms, atoms_to_usdc, spread_bps, is_stale, sol_price_usd, ratio, allows_direction,
  worsens, profit_multiplier,
}
use engine_mev.Cexdex.Detector.{
  mark_dispatched, DetectorConfig, Detector, usdc_mint, within_window, sol_usdc_side,
  reference_price, spendable_sol, trade_size, trade_input, gross_profit, try_route, candidate,
  better, pick, rounds, check_all,
}
use engine_mev.Cexdex.Dispatched.{check_all-mark_dispatched}
use engine_mev.Cexdex.Accounted.{Accounted}
use engine_mev.Cexdex.Gated.{check_all-gates}
use engine_mev.Cexdex.Simulator.{
  CexDexSimulatorConfig, Profitable, cex_prices, gross_usd, min_output, simulate,
}
use engine_mev.Confirmation.{
  ConfirmationStatus, landed, pending, rpc_error, Received, result, closed, Call, on_landed,
  on_settle, inc_bundles_confirmed, add_confirmed_profit, add_confirmed_tips, Tracked, collect_ids,
  after_timeout, after_landed, after_failed, after_errors, without_ids, poll, track,
}
use engine_mev.Confirmation.Relays.{
  Event, call, other, calls_of, Merge, over, first, second, IsReleasedOnce, settle_callback,
  run_events, track-mark_settled,
}
use engine_mev.Confirmation.Settled.{Ended, track-Ended}
use engine_mev.Inventory.{
  buy_on_dex, ArbDirection, sell_on_dex, sol_lamports_available, usdc_atoms_available,
}
use engine_mev.Nonce.{NoncePool, mark_settled, mark_used, modify, new_pool}
use engine_mev.Pool.{Pubkey, DexType, PoolState}
use engine_mev.Quote.Cpmm as Cpmm
use engine_mev.Quote.Dispatch.{quote_by_type, get_output_amount_with_cache}
use engine_mev.Tests.Data.{amm, fixed_point}

program : Unit {0}
unfolding checked_add checked_mul checked_sub checked_div new upsert insert lookup get_any
    normalize_pair get_bin_arrays get_tick_arrays add sol_to_lamports lamports_to_sol usdc_to_atoms
    atoms_to_usdc spread_bps is_stale sol_price_usd ratio allows_direction worsens profit_multiplier
    within_window sol_usdc_side reference_price spendable_sol trade_size trade_input gross_profit
    try_route candidate better pick rounds check_all cex_prices gross_usd min_output simulate
    collect_ids after_timeout after_landed after_failed after_errors without_ids poll track
    sol_lamports_available usdc_atoms_available Cpmm.reserve_in Cpmm.reserve_out Cpmm.swap_output
    Cpmm.quote quote_by_type get_output_amount_with_cache
program = tt

abbrev tracked : Tracked
tracked = record { has_on_landed = true; has_on_settle = true; has_relay_name = true }

-- An error, an undecided answer, then the landing.
abbrev answers : ℕ → ConfirmationStatus
answers zero = rpc_error
answers (suc zero) = pending
answers (suc (suc n)) = landed

abbrev no_delay : ℕ → ℕ
no_delay i = 0

abbrev one_id : List Received
one_id = result (record { bundle_id = some 8; success = true }) ∷ closed ∷ []

abbrev landed_calls : List Call
landed_calls =
    inc_bundles_confirmed ∷ add_confirmed_profit ∷ add_confirmed_tips ∷ on_landed ∷ on_settle ∷ []

tracked_run : track tracked answers no_delay one_id 500 ≡ some landed_calls
unfolding program
tracked_run = refl

track-Ended_example :
    (calls : List Call) × (track tracked answers no_delay one_id 500 ≡ some calls)
    × Ended tracked answers no_delay calls
track-Ended_example = track-Ended tracked answers no_delay one_id 500

abbrev nonces : NoncePool
nonces = new_pool 0 (31 ∷ 32 ∷ [])

-- The nonce goes to another opportunity: it is marked as in flight again.
abbrev taken_again : NoncePool → NoncePool
taken_again p = record p { state = modify 31 (mark_used 9_000) p.state }

-- Another relay's tracker settles, the nonce is taken again, and then this tracker settles.
abbrev others : List Event
others = call on_settle ∷ other taken_again ∷ []

abbrev all_events : List Event
all_events = call on_settle ∷ other taken_again ∷ calls_of landed_calls

merged : Merge (calls_of landed_calls) others all_events
merged = second (call on_settle) (
    second (other taken_again) (
      first (call inc_bundles_confirmed) (
        first (call add_confirmed_profit) (
          first (call add_confirmed_tips) (first (call on_landed) (first (call on_settle) over))))))

track-mark_settled_example : IsReleasedOnce 31 all_events nonces
track-mark_settled_example =
    track-mark_settled tracked answers no_delay one_id 500 31 nonces landed_calls others all_events
      refl tracked_run merged

-- The later opportunity keeps the nonce.
kept_taken :
    run_events (some 31) all_events (false, nonces) ≡ (true, taken_again (mark_settled 31 nonces))
unfolding program run_events settle_callback
kept_taken = refl

-- A pool with a hundred dollars a SOL, and an exchange that asks 91.
abbrev sol_usdc : PoolState
sol_usdc = amm 50 Addresses.wsol usdc_mint 1_000_000_000_000 100_000_000_000

abbrev prices : PriceStore fixed_point
prices = record {
  cex = some (record { best_bid_usd = 90_000_000; best_ask_usd = 91_000_000; received_at = 1_000 });
  pools = upsert 0 50 sol_usdc (new 10);
}

abbrev wallet : Wallet fixed_point
wallet = record {
  inventory = record {
    sol_on_chain_lamports = 10_000_000_000;
    usdc_on_chain_atoms = 1_000_000_000;
    sol_reserved_lamports = 0;
    usdc_reserved_atoms = 0;
  };
  sol_price_usd_scaled = 110_000_000;
  hard_cap = 800_000;
  preferred_low = 400_000;
  preferred_high = 600_000;
  skewed_multiplier = 2_000_000;
}

abbrev config : DetectorConfig fixed_point
config = record {
  min_spread_bps = 20;
  min_profit_usd = 100_000;
  max_trade_size_sol = 2_000_000;
  max_position_fraction = 200_000;
  cex_staleness_ms = 500;
  slippage_tolerance = 250_000;
  dedup_window_ms = 2_000;
  global_submit_cooldown_ms = 1_000;
}

abbrev detector : Detector fixed_point
detector = record {
  store = prices;
  wallet = wallet;
  pools = 50 ∷ [];
  config = config;
  last_emit = λ k dir. none;
  last_global_emit = some 0;
}

-- Distance and rounding of the stand-in, which has no negative numbers.
abbrev more : F64More fixed_point
more = record { abs = λ x. x; least = λ x y. min x y; round_u64 = λ x. x / 1_000_000 }

abbrev found : CexDexRoute fixed_point
found = record {
  pool_address = 50;
  dex_type = DexType.raydium_amm;
  direction = sell_on_dex;
  input_mint = Addresses.wsol;
  output_mint = usdc_mint;
  input_amount = 2_000_000_000;
  expected_output = 199_102_789;
  cex_bid_at_detection = 90_000_000;
  cex_ask_at_detection = 91_000_000;
  expected_profit_usd = 12_827_091;
  observed_slot = 7;
}

checked : check_all fixed_point more 1_200 detector ≡ ret found
unfolding program
checked = refl

check_all-gates_example :
    (within_window 1_200 1_000 (some 0) ≡ false)
    × (is_stale fixed_point 1_200 500 prices ≡ false)
    × ((cex : PriceSnapshot fixed_point) × (k : Pubkey) × (dir : ArbDirection) × (pool : PoolState)
        × (prices.cex ≡ some cex)
        × (try_route fixed_point more detector pool dir cex ≡ ret found)
        × Occurs (k, dir) (rounds fixed_point more (50 ∷ []))
        × (get_any prices.pools k ≡ some pool)
        × (within_window 1_200 2_000 none ≡ false)
        × (allows_direction fixed_point wallet dir ≡ true)
        × (fixed_point.lt 12_827_091
              (fixed_point.mul 100_000 (profit_multiplier fixed_point wallet dir))
            ≡ false))
check_all-gates_example = check_all-gates fixed_point more 1_200 detector found checked

-- A purchase in the same pool has been dispatched before.
checked_again :
    check_all fixed_point more 1_200 (mark_dispatched fixed_point 100 50 buy_on_dex detector)
    ≡ ret found
unfolding program mark_dispatched
checked_again = refl

check_all-mark_dispatched_example :
    (100 + 1_000 ≤ 1_200)
    × ((cex : PriceSnapshot fixed_point) × (k : Pubkey) × (dir : ArbDirection) × (pool : PoolState)
        × Occurs (k, dir) (rounds fixed_point more (50 ∷ []))
        × (get_any prices.pools k ≡ some pool)
        × (try_route fixed_point more
              (mark_dispatched fixed_point 100 50 buy_on_dex detector)
              pool
              dir
              cex
            ≡ ret found)
        × ((k ≢ 50) ⊎ ((dir ≢ buy_on_dex) ⊎ (100 + 2_000 ≤ 1_200))))
check_all-mark_dispatched_example =
    check_all-mark_dispatched fixed_point more detector 100 1_200 50 buy_on_dex found (omega arith)
      checked_again

abbrev sim_config : CexDexSimulatorConfig fixed_point
sim_config = record {
  min_profit_usd = 100_000;
  slippage_tolerance = 250_000;
  tx_fee_lamports = 5_000;
  min_tip_lamports = 1_000;
  max_tip_fraction = 500_000;
}

abbrev profit : Profitable fixed_point
profit = record {
  route = found;
  adjusted_profit_sol = 141_735;
  adjusted_profit_usd = 12_827_091;
  net_profit_usd_worst_case = 6_413_176;
  min_final_output = 135_000_000;
}

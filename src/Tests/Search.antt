-- ===== src/Tests/Search.antt =====
-- A search over two pools whose prices differ, and the simulation of the route that it finds.
use engine_mev.Base.{
  ℕ, ◌+◌, ◌≤◌, ◌≡◌, inl, inr, refl, arith, some, List, [], ◌∷◌, length, All, Bool-cases, ◌==◌,
}
use engine_mev.Base.Int.{pos, as_i64}
use engine_mev.Base.Outcome.{ret}
use engine_mev.Base.Sort.{insert_by, sort_by}
use engine_mev.Base.Word.{checked_add, checked_mul, checked_sub, checked_div}
use engine_mev.Cache
use engine_mev.Cache.{
  CacheEntry, StateCache, normalize_pair, lookup, insert, upsert, get_any, pools_for_token,
  pools_for_pair, get_bin_arrays, get_tick_arrays,
}
use engine_mev.Cache.Index.{contains, listed, insert_new, with_pool, add}
use engine_mev.Calculator.{
  for_each, offer, base_reserve, calculate_optimal_input, hop_of, route_of, cached_quote,
  simulate_2_hop, visit_return, visit_first, find_2_hop_routes, visit_last, visit_mid, visit_outer,
  find_3_hop_routes, simulate_3_hop, find_routes_for_base,
}
use engine_mev.Calculator.Routes.{IsGain, Fits64}
use engine_mev.Calculator.Search.{found_routes-IsGain}
use engine_mev.Pool.{
  Pubkey, DexType, PoolState, ArbRoute, has_token, other_token, is_a_to_b, is_profitable,
}
use engine_mev.Quote.Cpmm
use engine_mev.Quote.Cpmm.{swap_output, reserve_in, reserve_out}
use engine_mev.Quote.Dispatch.{quote_by_type, get_output_amount_with_cache}
use engine_mev.Simulator.{
  ProfitSimulator, Profit, SimulationResult, profitable, fresh_states, push_output, set_outputs,
  effective_min_tip, run_hops, slippage_adjusted, tip_for, decide_profit, after_hops, simulate,
}
use engine_mev.Simulator
use engine_mev.Simulator.Gate.{IsSafe}
use engine_mev.Simulator.Hops.{Chained, simulate-profitable}
use engine_mev.Tests.Data.{amm, fixed_point}

program : Unit {0}
unfolding as_i64 insert_by sort_by checked_add checked_mul checked_sub checked_div normalize_pair
    Cache.new lookup insert upsert get_any pools_for_token pools_for_pair get_bin_arrays
    get_tick_arrays contains listed insert_new with_pool add for_each offer base_reserve
    calculate_optimal_input hop_of route_of cached_quote simulate_2_hop simulate_3_hop visit_return
    visit_first find_2_hop_routes visit_last visit_mid visit_outer find_3_hop_routes
    find_routes_for_base has_token other_token is_a_to_b is_profitable Cpmm.quote swap_output
    reserve_in reserve_out quote_by_type get_output_amount_with_cache fresh_states push_output
    set_outputs effective_min_tip run_hops slippage_adjusted tip_for decide_profit after_hops
    simulate Simulator.new
program = tt

abbrev cheap : PoolState
cheap = amm 10 1 2 1_000_000_000 2_000_000_000

abbrev dear : PoolState
dear = amm 11 1 2 1_000_000_000 1_000_000_000

abbrev cache : StateCache
cache = upsert 6 11 dear (upsert 5 10 cheap (Cache.new 2_000_000_000))

abbrev same_order : List Pubkey → List Pubkey
same_order l = l

abbrev route : ArbRoute
route = record {
  hops =
      record {
        pool_address = 10;
        dex_type = DexType.raydium_amm;
        input_mint = 1;
        output_mint = 2;
        estimated_output = 19_752_964;
      }
      ∷ record {
        pool_address = 11;
        dex_type = DexType.raydium_amm;
        input_mint = 2;
        output_mint = 1;
        estimated_output = 19_322_852;
      }
      ∷ [];
  base_mint = 1;
  input_amount = 10_000_000;
  estimated_profit = pos 9_322_852;
  estimated_profit_lamports = 9_322_852;
}

found : find_routes_for_base fixed_point same_order cache 3 1 ≡ ret (route ∷ [])
unfolding program
found = refl

cache-Fits64 : (k : Pubkey) (p : PoolState) → get_any cache k ≡ some p → Fits64 p
unfolding program
cache-Fits64 k p h = elim (Bool-cases (10 == k)) [
  | inl e ↦ let same : cheap ≡ p = ground arith in rw (← same) (omega arith, omega arith)
  | inr e ↦ elim (Bool-cases (11 == k)) [
    | inl f ↦ let same : dear ≡ p = ground arith in rw (← same) (omega arith, omega arith)
    | inr f ↦ absurd (ground arith)
  ]
]

found_routes-IsGain_example : All (IsGain 1) (route ∷ []) × (length (route ∷ []) ≤ 5)
found_routes-IsGain_example =
    found_routes-IsGain fixed_point same_order cache 3 1 cache-Fits64 found

-- A tip of half of the profit, a minimum profit and a minimum tip of 1000 lamports.
abbrev simulator : ProfitSimulator fixed_point
simulator = Simulator.new fixed_point cache 500_000 1_000 1_000

abbrev result : Profit
result = record {
  route = route;
  net_profit_lamports = 9_322_852;
  tip_lamports = 3_496_069;
  final_profit_lamports = 3_496_070;
  min_final_output = 10_000_000;
}

simulated : simulate fixed_point 7 simulator route ≡ ret (profitable result)
unfolding program
simulated = refl

simulate-profitable_example :
    IsSafe fixed_point 7 simulator route result
    × ((outs : List ℕ) × (result.route.hops ≡ set_outputs route.hops outs)
        × Chained fixed_point simulator.state_cache route.hops 10_000_000 outs
            (10_000_000 + 9_322_852))
simulate-profitable_example = simulate-profitable fixed_point 7 simulator route simulated

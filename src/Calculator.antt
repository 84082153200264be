-- ===== src/Calculator.antt =====
-- The route search, src/router/calculator.rs: circular routes of two and three hops from a base
-- mint, found in the pool cache, with the limits on pools and routes and the early returns. `order`
-- is the order in which the sets of pools are iterated. The final sort of the source may put routes of
-- equal profit in any order; here they keep the one in which they were found.
use engine_mev.Base.{
  ℕ, ◌+◌, ◌-◌, ◌/◌, min, max, Bool, true, false, Option, none, some, List, [], ◌∷◌, ◌++◌, length,
  take, ◌==◌, ltb, leb, ◌&&◌, ◌||◌, if◌then◌else◌,
}
use engine_mev.Base.Float.{F64}
use engine_mev.Base.Int.{ℤ, pos, sub_ℕ, as_i64, ltb_ℤ}
use engine_mev.Base.Outcome.{Outcome, ret, nothing, panic, of_option, reject_if, ◌>>=◌, ◌>>◌}
use engine_mev.Base.Sort.{sort_by}
use engine_mev.Cache.{
  StateCache, get_any, get_bin_arrays, get_tick_arrays, pools_for_token, pools_for_pair,
}
use engine_mev.Pool.{
  Pubkey, DexType, PoolState, RouteHop, ArbRoute, is_a_to_b, other_token, is_profitable,
}
use engine_mev.Quote.Dispatch.{get_output_amount_with_cache}
pub mod Loop
pub mod Routes
pub mod Search

abbrev pub max_pools_per_token : ℕ
max_pools_per_token = 20

abbrev pub early_exit_routes : ℕ
early_exit_routes = 5

abbrev pub Routes : Type 0
Routes = List ArbRoute

-- A loop over pools whose body may return from the whole search: the routes found, and whether it
-- has returned.
unfoldable pub for_each :
    (Pubkey → Routes → Outcome (Routes × Bool)) → List Pubkey → Routes → Outcome (Routes × Bool)
for_each visit [] routes = ret (routes, false)
for_each visit (p ∷ ps) routes = do
  (found, stop) ← visit p routes
  elim stop [ true ↦ ret (found, true) | false ↦ for_each visit ps found ]

-- A simulated candidate: a profitable one is pushed, and the search returns once it has enough.
unfoldable pub offer : Outcome ArbRoute → Routes → Outcome (Routes × Bool)
offer (ret route) routes =
    if is_profitable route
    then ret (routes ++ route ∷ [], leb early_exit_routes (length (routes ++ route ∷ [])))
    else ret (routes, false)
offer nothing routes = ret (routes, false)
offer panic routes = panic

-- The reserve of a pool on the side of the base mint.
unfoldable pub base_reserve : PoolState → Pubkey → ℕ
base_reserve p base = if p.token_a_mint == base then p.token_a_reserve else p.token_b_reserve

unfoldable pub calculate_optimal_input : PoolState → PoolState → Pubkey → ℕ
calculate_optimal_input pool_a pool_b base =
    max (min (base_reserve pool_a base) (base_reserve pool_b base) / 100) 10_000

unfoldable pub hop_of : PoolState → Pubkey → Pubkey → ℕ → RouteHop
hop_of p input_mint output_mint out = record {
  pool_address = p.address;
  dex_type = p.dex_type;
  input_mint = input_mint;
  output_mint = output_mint;
  estimated_output = out;
}

-- The route of the given hops, with the profit of its last amount.
unfoldable pub route_of : List RouteHop → Pubkey → ℕ → ℕ → ArbRoute
route_of hops base input_amount final_amount = record {
  hops = hops;
  base_mint = base;
  input_amount = input_amount;
  estimated_profit = as_i64 (sub_ℕ final_amount input_amount);
  estimated_profit_lamports =
      if ltb input_amount final_amount then final_amount - input_amount else 0;
}

-- `can_submit_route`: every kind of pool has an instruction builder.
unfoldable pub has_builder : DexType → Bool
has_builder DexType.raydium_amm = true
has_builder DexType.raydium_cp = true
has_builder DexType.raydium_clmm = true
has_builder DexType.orca_whirlpool = true
has_builder DexType.meteora_dlmm = true
has_builder DexType.meteora_damm_v2 = true
has_builder DexType.sanctum_infinity = true
has_builder DexType.phoenix = true
has_builder DexType.manifest = true
has_builder DexType.pump_swap = true

unfoldable pub can_submit_hops : List RouteHop → Bool
can_submit_hops [] = true
can_submit_hops (h ∷ hops) = has_builder h.dex_type && can_submit_hops hops

unfoldable pub can_submit_route : ArbRoute → Bool
can_submit_route route = can_submit_hops route.hops

module _ (fl : F64) (order : List Pubkey → List Pubkey) (c : StateCache) where
  -- The quote of a pool with the bins and ticks that are cached for its address.
  unfoldable pub cached_quote : PoolState → ℕ → Bool → Outcome ℕ
  cached_quote p amount d =
      get_output_amount_with_cache fl p amount d (get_bin_arrays c p.address)
        (get_tick_arrays c p.address)

  unfoldable pub simulate_2_hop : Pubkey → Pubkey → PoolState → PoolState → ℕ → Outcome ArbRoute
  simulate_2_hop base other pool_a pool_b input_amount = do
    a_to_b_a ← of_option (is_a_to_b pool_a base)
    mid_amount ← cached_quote pool_a input_amount a_to_b_a
    reject_if (mid_amount == 0)
    a_to_b_b ← of_option (is_a_to_b pool_b other)
    final_amount ← cached_quote pool_b mid_amount a_to_b_b
    ret (
        route_of (hop_of pool_a base other mid_amount ∷ hop_of pool_b other base final_amount ∷ [])
          base input_amount final_amount)

  unfoldable pub simulate_3_hop :
      Pubkey → Pubkey → Pubkey → PoolState → PoolState → PoolState → ℕ → Outcome ArbRoute
  simulate_3_hop base mid1 mid2 pool_a pool_b pool_c input_amount = do
    a_to_b_a ← of_option (is_a_to_b pool_a base)
    amount_1 ← cached_quote pool_a input_amount a_to_b_a
    reject_if (amount_1 == 0)
    a_to_b_b ← of_option (is_a_to_b pool_b mid1)
    amount_2 ← cached_quote pool_b amount_1 a_to_b_b
    reject_if (amount_2 == 0)
    a_to_b_c ← of_option (is_a_to_b pool_c mid2)
    final_amount ← cached_quote pool_c amount_2 a_to_b_c
    ret (
        route_of
          (hop_of pool_a base mid1 amount_1
            ∷ hop_of pool_b mid1 mid2 amount_2
            ∷ hop_of pool_c mid2 base final_amount
            ∷ [])
          base input_amount final_amount)

  -- The innermost body of the two-hop search, at the second pool.
  unfoldable pub visit_return :
      Pubkey → Pubkey → Pubkey → PoolState → Pubkey → Routes → Outcome (Routes × Bool)
  visit_return base other pool_a_addr pool_a pool_b_addr routes =
      if pool_b_addr == pool_a_addr then ret (routes, false) else elim (get_any c pool_b_addr) [
        | none ↦ ret (routes, false)
        | some pool_b ↦
            offer
              (simulate_2_hop base other pool_a pool_b (calculate_optimal_input pool_a pool_b base))
              routes
      ]

  -- The body at the first pool.
  unfoldable pub visit_first : Pubkey → Pubkey → Routes → Outcome (Routes × Bool)
  visit_first base pool_a_addr routes =
      if leb early_exit_routes (length routes)
      then ret (routes, true)
      else elim (get_any c pool_a_addr) [
        | none ↦ ret (routes, false)
        | some pool_a ↦ elim (other_token pool_a base) [
          | none ↦ ret (routes, false)
          | some other ↦
              for_each (visit_return base other pool_a_addr pool_a) (pools_for_pair c base other)
                routes
        ]
      ]

  unfoldable pub find_2_hop_routes : Pubkey → Routes → Outcome (Routes × Bool)
  find_2_hop_routes base routes =
      for_each (visit_first base) (take max_pools_per_token (pools_for_token order c base)) routes

  -- The innermost body of the three-hop search, at the third pool.
  unfoldable pub visit_last :
      Pubkey
      → Pubkey
      → Pubkey
      → Pubkey
      → Pubkey
      → PoolState
      → PoolState
      → Pubkey
      → Routes
      → Outcome (Routes × Bool)
  visit_last base mid1 mid2 pool_a_addr pool_b_addr pool_a pool_b pool_c_addr routes =
      if pool_c_addr == pool_a_addr || pool_c_addr == pool_b_addr
      then ret (routes, false)
      else elim (get_any c pool_c_addr) [
        | none ↦ ret (routes, false)
        | some pool_c ↦ offer (simulate_3_hop base mid1 mid2 pool_a pool_b pool_c 1_000_000) routes
      ]

  -- The body at the second pool.
  unfoldable pub visit_mid :
      Pubkey → Pubkey → Pubkey → PoolState → Pubkey → Routes → Outcome (Routes × Bool)
  visit_mid base mid1 pool_a_addr pool_a pool_b_addr routes =
      if pool_b_addr == pool_a_addr
      then ret (routes, false)
      else if leb early_exit_routes (length routes)
      then ret (routes, true)
      else elim (get_any c pool_b_addr) [
        | none ↦ ret (routes, false)
        | some pool_b ↦ elim (other_token pool_b mid1) [
          | none ↦ ret (routes, false)
          | some mid2 ↦
              if mid2 == base
              then ret (routes, false)
              else for_each (visit_last base mid1 mid2 pool_a_addr pool_b_addr pool_a pool_b)
                  (pools_for_pair c mid2 base) routes
        ]
      ]

  -- The body at the first pool.
  unfoldable pub visit_outer : Pubkey → Pubkey → Routes → Outcome (Routes × Bool)
  visit_outer base pool_a_addr routes =
      if leb early_exit_routes (length routes)
      then ret (routes, true)
      else elim (get_any c pool_a_addr) [
        | none ↦ ret (routes, false)
        | some pool_a ↦ elim (other_token pool_a base) [
          | none ↦ ret (routes, false)
          | some mid1 ↦
              for_each (visit_mid base mid1 pool_a_addr pool_a)
                (take max_pools_per_token (pools_for_token order c mid1)) routes
        ]
      ]

  unfoldable pub find_3_hop_routes : Pubkey → Routes → Outcome (Routes × Bool)
  find_3_hop_routes base routes =
      for_each (visit_outer base) (take max_pools_per_token (pools_for_token order c base)) routes

  unfoldable pub find_routes_for_base : ℕ → Pubkey → Outcome Routes
  find_routes_for_base max_hops base = do
    (two, _) ← find_2_hop_routes base []
    (all, _) ←
        if leb 3 max_hops && ltb (length two) early_exit_routes
        then find_3_hop_routes base two
        else ret (two, false)
    ret (sort_by (λ a b. ltb_ℤ b.estimated_profit a.estimated_profit) all)

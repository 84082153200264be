-- ===== src/Simulator.antt =====
-- The final profit simulation, src/router/simulator.rs: the hops of a route are quoted again on the
-- cached pools, and the result is accepted or rejected with a reason. The floating-point numbers of
-- the slippage and of the tip are a parameter.
use engine_mev.Base.{
  ℕ, ◌-◌, max, Bool, true, false, Option, none, some, List, [], ◌∷◌, ◌==◌, ltb, leb, if◌then◌else◌,
}
use engine_mev.Base.Float.{F64}
use engine_mev.Base.Int.{ℤ, pos, as_i64}
use engine_mev.Base.Outcome.{Outcome, ret, nothing, panic, ◌>>=◌}
use engine_mev.Cache.{StateCache, get_any, get_bin_arrays, get_tick_arrays}
use engine_mev.Pool.{PoolState, RouteHop, ArbRoute, is_a_to_b}
use engine_mev.Quote.Dispatch.{get_output_amount_with_cache}
use engine_mev.TipFloor.{TipFloorCache, get_floor_lamports}
pub mod Gate
pub mod Hops

-- The reasons, without their texts.
pub data Reason : Type 0 where
  pool_not_found token_not_found zero_output not_profitable sanity_cap : Reason
  tip_above_profit below_minimum : Reason

pub record Profit : Type 0 where
  pub route : ArbRoute
  pub net_profit_lamports : ℕ
  pub tip_lamports : ℕ
  pub final_profit_lamports : ℕ
  pub min_final_output : ℕ

pub data SimulationResult : Type 0 where
  profitable : Profit → SimulationResult
  unprofitable : Reason → SimulationResult

-- What the loop over the hops ends with: an early return, or the last amount and the outputs.
pub data HopRun : Type 0 where
  failed : Reason → HopRun
  done : ℕ → List ℕ → HopRun

-- `MAX_SANE_PROFIT`, 10 SOL.
abbrev pub max_sane_profit : ℕ
max_sane_profit = 10_000_000_000

-- The fresh states of the hops' pools, if all are cached.
unfoldable pub fresh_states : StateCache → List RouteHop → Option (List PoolState)
fresh_states c [] = some []
fresh_states c (h ∷ hops) = elim (get_any c h.pool_address) [
  | none ↦ none
  | some p ↦ elim (fresh_states c hops) [ none ↦ none | some ps ↦ some (p ∷ ps) ]
]

unfoldable pub push_output : ℕ → HopRun → HopRun
push_output out (failed r) = failed r
push_output out (done amount outs) = done amount (out ∷ outs)

-- The hops of the route, with their outputs replaced.
unfoldable pub set_outputs : List RouteHop → List ℕ → List RouteHop
set_outputs [] outs = []
set_outputs (h ∷ hops) [] = h ∷ hops
set_outputs (h ∷ hops) (out ∷ outs) = record h { estimated_output = out } ∷ set_outputs hops outs

module _ (fl : F64) where
  open fl use {F, literal, of_nat, to_u64, sub, mul}

  pub record ProfitSimulator : Type 0 where
    pub state_cache : StateCache
    pub tip_fraction : F
    pub min_profit_lamports : ℕ
    pub min_tip_lamports : ℕ
    pub slippage_tolerance : F
    pub tip_floor_cache : Option TipFloorCache

  unfoldable pub new : StateCache → F → ℕ → ℕ → ProfitSimulator
  new state_cache tip_fraction min_profit_lamports min_tip_lamports = record {
    state_cache = state_cache;
    tip_fraction = tip_fraction;
    min_profit_lamports = min_profit_lamports;
    min_tip_lamports = min_tip_lamports;
    slippage_tolerance = literal 25 2;
    tip_floor_cache = none;
  }

  unfoldable with_slippage_tolerance : F → ProfitSimulator → ProfitSimulator
  with_slippage_tolerance tolerance s = record s { slippage_tolerance = tolerance }

  unfoldable with_tip_floor : TipFloorCache → ProfitSimulator → ProfitSimulator
  with_tip_floor cache s = record s { tip_floor_cache = some cache }

  unfoldable pub effective_min_tip : ℕ → ProfitSimulator → ℕ
  effective_min_tip now s = elim s.tip_floor_cache [
    | none ↦ max s.min_tip_lamports 0
    | some c ↦ elim (get_floor_lamports now c) [
      | none ↦ max s.min_tip_lamports 0
      | some floor ↦ max s.min_tip_lamports floor
    ]
  ]

  -- Step 2: the loop over the hops and their pools.
  unfoldable pub run_hops : StateCache → List RouteHop → List PoolState → ℕ → Outcome HopRun
  run_hops c [] ps amount = ret (done amount [])
  run_hops c (h ∷ hops) [] amount = ret (done amount [])
  run_hops c (h ∷ hops) (p ∷ ps) amount = elim (is_a_to_b p h.input_mint) [
    | none ↦ ret (failed token_not_found)
    | some d ↦
        elim (get_output_amount_with_cache fl p amount d (get_bin_arrays c h.pool_address)
          (get_tick_arrays c h.pool_address)) [
            | nothing ↦ ret (failed zero_output)
            | panic ↦ panic
            | ret out ↦ elim (out == 0) [
              | true ↦ ret (failed zero_output)
              | false ↦ do run ← run_hops c hops ps out; ret (push_output out run)
            ]
          ]
  ]

  -- Step 4.
  unfoldable pub slippage_adjusted : ProfitSimulator → ℕ → ℕ
  slippage_adjusted s gross = to_u64 (mul (of_nat gross) (sub (literal 1 0) s.slippage_tolerance))

  -- Step 5.
  unfoldable pub tip_for : ℕ → ProfitSimulator → ℕ → ℕ
  tip_for now s adjusted =
      max (to_u64 (mul (of_nat adjusted) s.tip_fraction)) (effective_min_tip now s)

  -- Steps 3 to 10, from the last amount and the outputs of the hops.
  unfoldable pub decide_profit : ℕ → ProfitSimulator → ArbRoute → ℕ → List ℕ → SimulationResult
  decide_profit now s route amount outs =
      let gross = amount - route.input_amount in
      let adjusted = slippage_adjusted s gross in
      let tip = tip_for now s adjusted in
      if leb amount route.input_amount
      then unprofitable not_profitable
      else if ltb max_sane_profit gross
      then unprofitable sanity_cap
      else if leb adjusted tip
      then unprofitable tip_above_profit
      else if ltb (adjusted - tip) s.min_profit_lamports
      then unprofitable below_minimum
      else profitable (record {
        route = record route {
          hops = set_outputs route.hops outs;
          estimated_profit = as_i64 (pos gross);
          estimated_profit_lamports = gross;
        };
        net_profit_lamports = gross;
        tip_lamports = tip;
        final_profit_lamports = adjusted - tip;
        min_final_output = route.input_amount;
      })

  unfoldable pub after_hops : ℕ → ProfitSimulator → ArbRoute → HopRun → SimulationResult
  after_hops now s route (failed r) = unprofitable r
  after_hops now s route (done amount outs) = decide_profit now s route amount outs

  unfoldable pub simulate : ℕ → ProfitSimulator → ArbRoute → Outcome SimulationResult
  simulate now s route = elim (fresh_states s.state_cache route.hops) [
    | none ↦ ret (unprofitable pool_not_found)
    | some ps ↦ do
      run ← run_hops s.state_cache route.hops ps route.input_amount
      ret (after_hops now s route run)
  ]

-- ===== src/Simulator/Hops.antt =====
-- A profitable result rests on quotes of the cached pools, hop by hop.
use engine_mev.Base.{
  ℕ, ◌+◌, ◌<◌, ◌≡◌, inl, inr, arith, Bool, some, List, [], ◌∷◌, ◌==◌, Bool-cases, Option-cases,
}
use engine_mev.Base.Float.{F64}
use engine_mev.Base.Outcome.{ret, Outcome-cases, >>=-use}
use engine_mev.Cache.{StateCache, get_any, get_bin_arrays, get_tick_arrays}
use engine_mev.Pool.{PoolState, RouteHop, ArbRoute, is_a_to_b}
use engine_mev.Quote.Dispatch.{get_output_amount_with_cache}
use engine_mev.Simulator.{
  Profit, profitable, HopRun, failed, done, ProfitSimulator, fresh_states, push_output, set_outputs,
  run_hops, decide_profit, after_hops, simulate,
}
use engine_mev.Simulator.Gate.{IsSafe, decide_profit-IsSafe}

module _ (fl : F64) where
  -- One hop: its pool is cached and quotes the output, which is not zero, for the input and the
  -- direction of the hop.
  pub record Hop (c : StateCache) (h : RouteHop) (x y : ℕ) : Type 0 where
    pub pool : PoolState
    pub direction : Bool
    pub cached : get_any c h.pool_address ≡ some pool
    pub side : is_a_to_b pool h.input_mint ≡ some direction
    pub quoted :
        get_output_amount_with_cache fl pool x direction
          (get_bin_arrays c h.pool_address)
          (get_tick_arrays c h.pool_address)
        ≡ ret y
    pub positive : 0 < y

  -- The hops one after the other, each with the output of the one before as its input.
  abbrev pub Chained : StateCache → List RouteHop → ℕ → List ℕ → ℕ → Type 0
  Chained c [] x [] y = x ≡ y
  Chained c [] x (o ∷ os) y = ⊥
  Chained c (h ∷ hops) x [] y = ⊥
  Chained c (h ∷ hops) x (o ∷ os) y = Hop c h x o × Chained c hops o os y

  -- What is left to do behind the first hop.
  push-Chained :
      (c : StateCache) (h : RouteHop) (hops : List RouteHop) (x o : ℕ) (run : HopRun) {y : ℕ}
      {outs : List ℕ}
      → Hop c h x o
      → ((os : List ℕ) → run ≡ done y os → Chained c hops o os y)
      → push_output o run ≡ done y outs
      → Chained c (h ∷ hops) x outs y
  unfolding push_output
  push-Chained c h hops x o (failed r) first rest e = absurd (ground arith)
  push-Chained c h hops x o (done z os) {y} {outs} first rest e =
      let same : o ∷ os ≡ outs = ground arith in
      let end : done z os ≡ done y os = ground arith in rw (← same) (first, rest os end)

  no_hops :
      (c : StateCache) (x : ℕ) {y : ℕ} {outs : List ℕ}
      → ret (done x []) ≡ ret (done y outs)
      → Chained c [] x outs y
  no_hops c x {y} {outs} e = let same : [] ≡ outs = ground arith in rw (← same) (ground arith)

  run_hops-Chained :
      (c : StateCache) (hops : List RouteHop) (ps : List PoolState) (x : ℕ) {y : ℕ} {outs : List ℕ}
      → fresh_states c hops ≡ some ps
      → run_hops fl c hops ps x ≡ ret (done y outs)
      → Chained c hops x outs y
  unfolding fresh_states run_hops
  run_hops-Chained c [] ps x f e = no_hops c x e
  run_hops-Chained c (h ∷ hops) [] x f e = absurd (ground arith)
  run_hops-Chained c (h ∷ hops) (p ∷ ps) x f e =
      let fresh : (get_any c h.pool_address ≡ some p) × (fresh_states c hops ≡ some ps) =
        ground arith in
      elim (Option-cases (is_a_to_b p h.input_mint)) [
        | inl missing ↦ absurd (ground arith)
        | inr (d, side) ↦
            let bins = get_bin_arrays c h.pool_address in
            let ticks = get_tick_arrays c h.pool_address in
            elim (Outcome-cases (get_output_amount_with_cache fl p x d bins ticks)) [
              | inr bad ↦ absurd (ground arith)
              | inl (o, quoted) ↦ elim (Bool-cases (o == 0)) [
                | inl zero_out ↦ absurd (ground arith)
                | inr some_out ↦
                    >>=-use (run_hops fl c hops ps o) _ (rw (side, quoted, some_out, run_hops) at e)
                      λ run hr end.
                        push-Chained c h hops x o run
                          (record {
                            pool = p;
                            direction = d;
                            cached = fresh.0;
                            side = side;
                            quoted = quoted;
                            positive = ground arith;
                          })
                          (λ os same. run_hops-Chained c hops ps o fresh.1 (rw (← same) hr))
                          (ground arith)
              ]
            ]
      ]

  done-route :
      (now : ℕ) (s : ProfitSimulator fl) (route : ArbRoute) (y : ℕ) (outs : List ℕ) {r : Profit}
      → decide_profit fl now s route y outs ≡ profitable r
      → (y ≡ route.input_amount + r.net_profit_lamports)
        × (r.route.hops ≡ set_outputs route.hops outs)
  unfolding decide_profit
  done-route now s route y outs h = ground arith

  from_run :
      (now : ℕ) (s : ProfitSimulator fl) (route : ArbRoute) (run : HopRun) (ps : List PoolState)
      {r : Profit}
      → fresh_states s.state_cache route.hops ≡ some ps
      → run_hops fl s.state_cache route.hops ps route.input_amount ≡ ret run
      → after_hops fl now s route run ≡ profitable r
      → IsSafe fl now s route r
        × ((outs : List ℕ) × (r.route.hops ≡ set_outputs route.hops outs)
            × Chained s.state_cache route.hops route.input_amount outs
                (route.input_amount + r.net_profit_lamports))
  unfolding after_hops
  from_run now s route (failed reason) ps fresh hr e = absurd (ground arith)
  from_run now s route (done y outs) ps fresh hr e =
      let (value, hops) = done-route now s route y outs e in
      (
        decide_profit-IsSafe fl now s route y outs e,
        (
          outs,
          hops,
          rw (← value) (run_hops-Chained s.state_cache route.hops ps route.input_amount fresh hr),
        ),
      )

  -- In a profitable result of `simulate` the tip reaches the floor and, with the positive final profit,
  -- which reaches the minimum, makes up the slippage-adjusted profit; the stated profit is positive and
  -- within the sanity cap. Its hops carry the outputs that the cached pools quote one after the other,
  -- from the input of the route to the input plus the stated profit.
  pub simulate-profitable :
      (now : ℕ) (s : ProfitSimulator fl) (route : ArbRoute) {r : Profit}
      → simulate fl now s route ≡ ret (profitable r)
      → IsSafe fl now s route r
        × ((outs : List ℕ) × (r.route.hops ≡ set_outputs route.hops outs)
            × Chained s.state_cache route.hops route.input_amount outs
                (route.input_amount + r.net_profit_lamports))
  unfolding simulate after_hops
  simulate-profitable now s route {r} h =
      let c = s.state_cache in
      let x = route.input_amount in
      elim (Option-cases (fresh_states c route.hops)) [
        | inl missing ↦ absurd (ground arith)
        | inr (ps, fresh) ↦
            >>=-use (run_hops fl c route.hops ps x) _ (rw (fresh, simulate) at h)
              λ run hr e. from_run now s route run ps fresh hr (ground arith)
      ]

-- ===== src/Simulator/Gate.antt =====
-- What a profitable result of the simulator promises about the money.
use engine_mev.Base.{ℕ, ◌+◌, ◌≤◌, ◌<◌, ◌≡◌, arith, List}
use engine_mev.Base.Float.{F64}
use engine_mev.Base.Int.{pos, as_i64}
use engine_mev.Pool.{ArbRoute}
use engine_mev.Simulator.{
  Profit, profitable, max_sane_profit, ProfitSimulator, effective_min_tip, slippage_adjusted,
  tip_for, decide_profit,
}

module _ (fl : F64) where
  -- The tip reaches the floor and stays below the slippage-adjusted profit; what is left after it is
  -- positive and reaches the minimum; the profit is positive and below the sanity cap, and is the one that
  -- the result's route states; the guard of the transaction is break-even.
  pub record IsSafe (now : ℕ) (s : ProfitSimulator fl) (route : ArbRoute) (r : Profit)
      : Type 0 where
    pub tip_floor : effective_min_tip fl now s ≤ r.tip_lamports
    pub tip_share :
        r.tip_lamports + r.final_profit_lamports ≡ slippage_adjusted fl s r.net_profit_lamports
    pub left_over : 0 < r.final_profit_lamports
    pub minimum : s.min_profit_lamports ≤ r.final_profit_lamports
    pub gain : 0 < r.net_profit_lamports
    pub sane : r.net_profit_lamports ≤ max_sane_profit
    pub stated : r.route.estimated_profit ≡ pos r.net_profit_lamports
    pub guard : r.min_final_output ≡ route.input_amount
    pub same_input : r.route.input_amount ≡ route.input_amount

  pub decide_profit-IsSafe :
      (now : ℕ) (s : ProfitSimulator fl) (route : ArbRoute) (amount : ℕ) (outs : List ℕ)
      {r : Profit}
      → decide_profit fl now s route amount outs ≡ profitable r
      → IsSafe now s route r
  unfolding decide_profit tip_for as_i64
  decide_profit-IsSafe now s route amount outs h = ground arith

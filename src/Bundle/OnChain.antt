-- ===== src/Bundle/OnChain.antt =====
-- The instruction that src/executor/bundle.rs builds, executed by programs/arb-guard/src/lib.rs. The
-- runtime hands the accounts over in their order, and the parameters as they were serialised.
use engine_mev.Base.{
  ℕ, zero, suc, ◌+◌, ◌-◌, ◌<◌, ◌≤◌, ◌≡◌, refl, ap, ◌∙◌, Bool, true, false, Option, none, some, List,
  [], ◌∷◌, length, get_elem?, take, drop, map, leb, ltb, ◌&&◌, if◌then◌else◌, arith,
}
use engine_mev.Base.Outcome.{Outcome, ret, nothing, panic, >>=-use}
use engine_mev.Pool.{Pubkey, RouteHop, ArbRoute}
use engine_mev.Swap.{AccountMeta, SolanaSdk, account}
use engine_mev.Swap as Client
use engine_mev.Swap.Rewritten.{with_amount}
use engine_mev.Guard.{
  Result, ok, err, failed, ◌>>=◌, ◌>>◌, require, checked_add_u64, swap_output_zero,
  no_profit_detected,
}
use engine_mev.Guard.Execute.{
  Store, AccountInfo, Instruction, HopV2Params, ArbV2Params, get_token_balance, account_at,
  hop_data, last_hop, run_hop, run_hops, execute_hops, some_hops, execute_arb_v2,
}
use engine_mev.Bundle as Builder
use engine_mev.Bundle.{BundleBuilder, build_swap_instruction_with_min_out}
use engine_mev.Bundle.Amounts.{takes_amount, build_swap_instruction_with_min_out-with_amount}
use engine_mev.Bundle.Execute.{
  is_empty, amount_in_offset, output_ata, build_hop_ixs, build_v2_params,
}
use engine_mev.Bundle.Placed.{IsPlaced, ArePlaced, build_v2_params-ArePlaced}
pub mod Steps
pub mod Refined

-- An account as the program sees it, the parameters of a hop as it reads them, and the instruction
-- that it invokes.
abbrev pub info : AccountMeta → AccountInfo
info a = record { key = a.pubkey; is_signer = a.is_signer; is_writable = a.is_writable }

abbrev pub mirrored : Builder.HopV2Params → HopV2Params
mirrored p = record {
  program_id_index = p.program_id_index;
  accounts_start = p.accounts_start;
  accounts_len = p.accounts_len;
  output_token_index = p.output_token_index;
  amount_in_offset = p.amount_in_offset;
  ix_data = p.ix_data;
}

abbrev pub received_params : Builder.ArbV2Params → ArbV2Params
received_params p = record { min_amount_out = p.min_amount_out; hops = map mirrored p.hops }

abbrev pub invoked : Client.Instruction → Instruction
invoked ix = record {
  program_id = ix.program_id;
  accounts = map info ix.accounts;
  ix_data = ix.ix_data;
}

abbrev pub of_outcome {ℓ} : {A : Type ℓ} → Outcome A → Result A
of_outcome (ret a) = ok a
of_outcome nothing = failed
of_outcome panic = failed

module _ (invoke : Instruction → Store → Result Store) where
  -- One swap by its effect: what the output's balance gains.
  unfoldable pub swap_once : Pubkey → Instruction → Store → Result (ℕ × Store)
  swap_once output ix st = do
    pre_balance ← get_token_balance st output
    after ← invoke ix st
    post_balance ← get_token_balance after output
    require (ltb pre_balance post_balance) swap_output_zero
    ok (post_balance - pre_balance, after)

  module _ (sdk : SolanaSdk) (b : BundleBuilder) where
    -- The swaps of a route, each built for the amount that the one before it has brought in.
    unfoldable pub run_route : ℕ → ℕ → List RouteHop → Store → Result Store
    run_route amount min_amount_out [] st = ok st
    run_route amount min_amount_out (hop ∷ rest) st = do
      let min_out = if is_empty rest then min_amount_out else 0
      ix ← of_outcome (build_swap_instruction_with_min_out sdk b hop amount min_out)
      (received, after) ← swap_once (output_ata sdk b hop) (invoked ix) st
      run_route received min_amount_out rest after

    abbrev pub last_of : RouteHop → List RouteHop → RouteHop
    last_of hop [] = hop
    last_of hop (next ∷ rest) = last_of next rest

    -- The whole instruction: the route between two readings of the balance of its last output.
    unfoldable pub arbitrage : ℕ → ℕ → RouteHop → List RouteHop → Store → Result Store
    arbitrage amount min_amount_out hop rest st = do
      let profit = output_ata sdk b (last_of hop rest)
      start_balance ← get_token_balance st profit
      after ← run_route amount min_amount_out (hop ∷ rest) st
      end_balance ← get_token_balance after profit
      target ← checked_add_u64 start_balance min_amount_out
      require (leb target end_balance) no_profit_detected
      ok after

    -- The hops after the first take the received amount at the offset that the builder names.
    unfoldable pub all_take_amount : List RouteHop → Bool
    all_take_amount [] = true
    all_take_amount (hop ∷ rest) = takes_amount hop.dex_type b hop && all_take_amount rest

-- ===== src/Tests/Ranges.antt =====
-- Swaps in the ranges of a concentrated-liquidity pool.
use engine_mev.Base.{◌+◌, ◌-◌, ◌^◌, ◌≡◌, refl, true, false, List, [], ◌∷◌}
use engine_mev.Base.Int.{pos, negsuc, ◌+ℤ◌, ◌-ℤ◌}
use engine_mev.Base.Outcome.{ret}
use engine_mev.Base.Word.{checked_add, checked_mul, checked_sub, checked_div, add_u128}
use engine_mev.Pool.{ClmmTick}
use engine_mev.Quote.Clmm.{
  q64, SwapStepResult, ceil_div, max_in_down, partial_down, out_down, max_in_up, partial_up, out_up,
  compute_swap_step, input_after_fee, single_tick_down, single_tick_up, clmm_single_tick_output,
}
use engine_mev.Quote.Clmm.Step.{StepDown, StepUp, compute_swap_step_down, compute_swap_step_up}
use engine_mev.Quote.TickPrice.{tick_index_to_sqrt_price_x64}
use engine_mev.Quote.TickWalk.{
  Walk, to_i128, of_i128, check_i128, cross, swap_to_tick, tick_step, walk,
}
use engine_mev.Quote.TickWalk.Monotone.{Moves, walk-Moves}
use engine_mev.Tests.Data.{fixed_point}

program : Unit {0}
unfolding compute_swap_step max_in_down partial_down out_down max_in_up partial_up out_up ceil_div
    input_after_fee single_tick_down single_tick_up clmm_single_tick_output
    tick_index_to_sqrt_price_x64 walk tick_step swap_to_tick cross to_i128 of_i128 check_i128
    checked_add checked_mul checked_sub checked_div add_u128 ◌+ℤ◌ ◌-ℤ◌
program = tt

abbrev stepped_down : SwapStepResult
stepped_down = record {
  amount_in = 10_000;
  amount_out = 9_900;
  next_sqrt_price = 18264103043276783778;
}

fell : compute_swap_step q64 (q64 - 2 ^ 60) 1_000_000 10_000 true ≡ ret stepped_down
unfolding program
fell = refl

abbrev stepped_up : SwapStepResult
stepped_up = record {
  amount_in = 10_000;
  amount_out = 9_900;
  next_sqrt_price = 18631211514446647132;
}

rose : compute_swap_step q64 (q64 + 2 ^ 60) 1_000_000 10_000 false ≡ ret stepped_up
unfolding program
rose = refl

compute_swap_step_down_example : StepDown q64 (q64 - 2 ^ 60) 1_000_000 10_000 stepped_down
compute_swap_step_down_example = compute_swap_step_down q64 (q64 - 2 ^ 60) 1_000_000 10_000 fell

compute_swap_step_up_example : StepUp q64 (q64 + 2 ^ 60) 1_000_000 10_000 stepped_up
compute_swap_step_up_example = compute_swap_step_up q64 (q64 + 2 ^ 60) 1_000_000 10_000 rose

single_sold : clmm_single_tick_output 30 q64 1_000_000 10_000 true ≡ ret 9_871
unfolding program
single_sold = refl

single_bought : clmm_single_tick_output 30 q64 1_000_000 10_000 false ≡ ret 9_870
unfolding program
single_bought = refl

-- Two ticks above the price; the first one takes liquidity away.
abbrev ticks : List ClmmTick
ticks =
    record { tick_index = pos 2; liquidity_net = negsuc 399_999; liquidity_gross = 400_000 }
    ∷ record { tick_index = pos 40; liquidity_net = negsuc 599_999; liquidity_gross = 600_000 }
    ∷ []

abbrev before : Walk
before = record {
  amount_remaining = 10_000;
  total_output = 0;
  current_sqrt_price = q64;
  current_liquidity = 1_000_000;
}

abbrev after : Walk
after = record {
  amount_remaining = 8_761;
  total_output = 1_235;
  current_sqrt_price = 18483656008601044428;
  current_liquidity = 0;
}

walked : walk fixed_point 50 false ticks before ≡ ret after
unfolding program
walked = refl

walk-Moves_example : Moves false before after
walk-Moves_example = walk-Moves fixed_point 50 false ticks before walked

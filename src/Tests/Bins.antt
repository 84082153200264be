-- ===== src/Tests/Bins.antt =====
-- Bin-by-bin quotes, and the quotes of every kind of pool.
use engine_mev.Base.{ℕ, zero, suc, ◌≤◌, ◌<◌, ◌≡◌, refl, arith, true, none, some, List, [], ◌∷◌}
use engine_mev.Base.Int.{pos, negsuc, ◌+ℤ◌, ◌-ℤ◌, scale}
use engine_mev.Base.Outcome.{ret}
use engine_mev.Base.Word.{
  u64_mod, checked_add, checked_mul, checked_sub, checked_div, add_u128, mul_u128,
}
use engine_mev.Pool.{DexType, PoolState, DlmmBin, DlmmBinArray}
use engine_mev.Quote.Clmm.{q64, ceil_div}
use engine_mev.Quote.Dlmm.{
  array_idx, to_usize, bin_offset, find_array, bin_at, next_id, max_in_after_fee, partial_out,
  fee_on, consume_bin, end_in_bin, bin_step, max_bins, bin_walk, bin_output,
}
use engine_mev.Quote.Dlmm
use engine_mev.Quote.Dlmm.BinIndex.{bin_index_split}
use engine_mev.Quote.Dlmm.Payout.{held_from, bin_output-le-held}
use engine_mev.Quote.Dispatch.{quote_by_type, get_output_amount_with_cache}
use engine_mev.Quote.Dispatch.Bounds.{quote_fits_u64}
use engine_mev.Tests.Data.{amm, fixed_point}

program : Unit {0}
unfolding array_idx to_usize bin_offset find_array bin_at next_id max_in_after_fee partial_out
    fee_on consume_bin end_in_bin bin_step bin_walk bin_output ceil_div Dlmm.quote quote_by_type
    get_output_amount_with_cache checked_add checked_mul checked_sub checked_div add_u128 mul_u128
    ◌+ℤ◌ ◌-ℤ◌
program = tt

abbrev bin : ℕ → ℕ → DlmmBin
bin x y = record { amount_x = x; amount_y = y; price_q64 = q64 }

-- The array of the bins -70 to -1; only the last two are listed with amounts.
abbrev empty_bins : ℕ → List DlmmBin → List DlmmBin
empty_bins zero rest = rest
empty_bins (suc n) rest = bin 0 0 ∷ empty_bins n rest

abbrev arrays : List DlmmBinArray
arrays = record { index = negsuc 0; bins = empty_bins 68 (bin 0 700 ∷ bin 0 500 ∷ []) } ∷ []

abbrev dlmm_pool : PoolState
dlmm_pool = record (amm 60 1 2 10_000 10_000) {
  dex_type = DexType.meteora_dlmm;
  fee_bps = 10;
  current_tick = some (negsuc 0);
}

paid : bin_output dlmm_pool 1_000 true (negsuc 0) arrays ≡ ret 998
unfolding program
paid = refl

bin_index_split_example :
    (bin_offset (negsuc 70) < 70)
    × (scale (array_idx (negsuc 70)) 70 +ℤ pos (bin_offset (negsuc 70)) ≡ negsuc 70)
bin_index_split_example = bin_index_split (negsuc 70)

bin_output-le-held_example : 998 ≤ held_from max_bins true arrays (negsuc 0)
bin_output-le-held_example = bin_output-le-held dlmm_pool 1_000 true (negsuc 0) arrays paid

dispatched :
    get_output_amount_with_cache fixed_point dlmm_pool 1_000 true (some arrays) none ≡ ret 998
unfolding program
dispatched = refl

quote_fits_u64_example : 998 < u64_mod
quote_fits_u64_example =
    quote_fits_u64 fixed_point dlmm_pool 1_000 true (some arrays) none (omega arith) (omega arith)
      dispatched

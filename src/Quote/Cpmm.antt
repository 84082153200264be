-- ===== src/Quote/Cpmm.antt =====
-- Constant-product quoting, src/router/dex/cpmm.rs.
use engine_mev.Base.{ℕ, ◌==◌, ◌||◌, Bool, leb, if◌then◌else◌}
use engine_mev.Base.Outcome.{Outcome, ret, nothing, ◌>>=◌}
use engine_mev.Base.Word.{checked_add, checked_mul, checked_sub, checked_div}
use engine_mev.Pool.{PoolState}
pub mod Laws

-- The part of `quote` below the choice of the direction.
unfoldable pub swap_output : ℕ → ℕ → ℕ → ℕ → Outcome ℕ
unfolding checked_add checked_mul checked_sub checked_div
swap_output reserve_in reserve_out fee_bps input_amount =
    if reserve_in == 0 || reserve_out == 0 then nothing else do
      fee_factor ← checked_sub 10_000 fee_bps
      input_after_fee ← checked_mul input_amount fee_factor
      numerator ← checked_mul reserve_out input_after_fee
      scaled ← checked_mul reserve_in 10_000
      denominator ← checked_add scaled input_after_fee
      output ← checked_div numerator denominator
      if leb reserve_out output then nothing else ret output

-- The pair `(reserve_in, reserve_out)`.
unfoldable pub reserve_in : PoolState → Bool → ℕ
reserve_in p a_to_b = if a_to_b then p.token_a_reserve else p.token_b_reserve

unfoldable pub reserve_out : PoolState → Bool → ℕ
reserve_out p a_to_b = if a_to_b then p.token_b_reserve else p.token_a_reserve

unfoldable pub quote : PoolState → ℕ → Bool → Outcome ℕ
quote p input_amount a_to_b =
    swap_output (reserve_in p a_to_b) (reserve_out p a_to_b) p.fee_bps input_amount

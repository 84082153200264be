-- ===== src/Quote/Phoenix.antt =====
-- Top-of-book quoting for Phoenix, src/router/dex/phoenix.rs.
use engine_mev.Base.{ℕ, Bool, ◌==◌, ltb, if◌then◌else◌, min}
use engine_mev.Base.Outcome.{Outcome, ret, nothing, of_option, reject_if, ◌>>=◌, ◌>>◌}
use engine_mev.Base.Word.{u64_mod, checked_mul, checked_sub, checked_div}
use engine_mev.Pool.{PoolState}

-- `if output > u64::MAX { None } else { Some(output as u64) }`.
abbrev pub narrow : ℕ → Outcome ℕ
narrow output = if ltb output u64_mod then ret output else nothing

-- The fee, taken from the input first.
unfoldable pub after_fee : PoolState → ℕ → Outcome ℕ
after_fee p input_amount = do
  factor ← checked_sub 10_000 p.fee_bps
  scaled ← checked_mul input_amount factor
  checked_div scaled 10_000

-- Selling base into the best bid.
unfoldable pub sell : PoolState → ℕ → Outcome ℕ
sell p input_after_fee = do
  price ← of_option p.best_bid_price
  reject_if (price == 0)
  output ← checked_mul (min input_after_fee p.token_a_reserve) price
  narrow output

-- Buying base from the best ask.
unfoldable pub buy : PoolState → ℕ → Outcome ℕ
buy p input_after_fee = do
  price ← of_option p.best_ask_price
  reject_if (price == 0)
  output ← checked_div input_after_fee price
  narrow (min output p.token_b_reserve)

unfoldable pub quote : PoolState → ℕ → Bool → Outcome ℕ
quote p input_amount a_to_b = do
  input_after_fee ← after_fee p input_amount
  if a_to_b then sell p input_after_fee else buy p input_after_fee

-- ===== src/Quote/Clmm.antt =====
-- The shared math of the concentrated-liquidity pools, src/router/dex/mod.rs: prices are square
-- roots in Q64.64.
use engine_mev.Base.{ℕ, ◌+◌, ◌/◌, ◌%◌, ◌*◌, ◌^◌, Bool, ◌==◌, ltb, leb, if◌then◌else◌}
use engine_mev.Base.Outcome.{Outcome, ret, nothing, ◌>>=◌, ◌>>◌, reject_if}
use engine_mev.Base.Word.{u64_mod, checked_add, checked_mul, checked_sub, checked_div}
pub mod Step
pub mod Single

abbrev pub q64 : ℕ
q64 = 2 ^ 64

unfoldable pub ceil_div : ℕ → ℕ → ℕ
ceil_div a b = if b == 0 then 0 else a / b + (if ltb 0 (a % b) then 1 else 0)

abbrev pub min_sqrt_price_x64 : ℕ
min_sqrt_price_x64 = 4295048016

abbrev pub max_sqrt_price_x64 : ℕ
max_sqrt_price_x64 = 79226673515401279992447579055

-- The triple that `compute_swap_step` returns.
pub record SwapStepResult : Type 0 where
  pub amount_in : ℕ
  pub amount_out : ℕ
  pub next_sqrt_price : ℕ

-- `max_in` and the partial fill of a falling price.
unfoldable pub max_in_down : ℕ → ℕ → ℕ → Outcome ℕ
max_in_down current target liquidity = do
  price_diff ← checked_sub current target
  product ← checked_mul liquidity price_diff
  step1 ← checked_div product current
  scaled ← checked_mul step1 q64
  checked_div scaled target

unfoldable pub partial_down : ℕ → ℕ → ℕ → Outcome ℕ
partial_down current liquidity amount = do
  amt_x_price ← checked_mul amount current
  shifted ← checked_div amt_x_price q64
  denom ← checked_add liquidity shifted
  reject_if (denom == 0)
  product ← checked_mul liquidity current
  checked_div product denom

unfoldable pub out_down : ℕ → ℕ → ℕ → Outcome ℕ
out_down current next liquidity = do
  out_price_diff ← checked_sub current next
  product ← checked_mul liquidity out_price_diff
  checked_div product q64

-- The same of a rising price.
unfoldable pub max_in_up : ℕ → ℕ → ℕ → Outcome ℕ
max_in_up current target liquidity = do
  price_diff ← checked_sub target current
  product ← checked_mul liquidity price_diff
  checked_div product q64

unfoldable pub partial_up : ℕ → ℕ → ℕ → Outcome ℕ
partial_up current liquidity amount = do
  scaled ← checked_mul amount q64
  delta ← checked_div scaled liquidity
  checked_add current delta

unfoldable pub out_up : ℕ → ℕ → ℕ → Outcome ℕ
out_up current next liquidity = do
  out_price_diff ← checked_sub next current
  numerator ← checked_mul liquidity out_price_diff
  step1 ← checked_div numerator current
  scaled ← checked_mul step1 q64
  checked_div scaled next

unfoldable pub compute_swap_step : ℕ → ℕ → ℕ → ℕ → Bool → Outcome SwapStepResult
compute_swap_step current target liquidity amount_remaining a_to_b =
    if a_to_b
    then (do
      max_in ← max_in_down current target liquidity
      let full = leb max_in amount_remaining
      next ← if full then ret target else partial_down current liquidity amount_remaining
      amount_out ← out_down current next liquidity
      ret (record {
        amount_in = if full then max_in else amount_remaining;
        amount_out = amount_out;
        next_sqrt_price = next;
      }))
    else (do
      max_in ← max_in_up current target liquidity
      let full = leb max_in amount_remaining
      next ← if full then ret target else partial_up current liquidity amount_remaining
      amount_out ← out_up current next liquidity
      ret (record {
        amount_in = if full then max_in else amount_remaining;
        amount_out = amount_out;
        next_sqrt_price = next;
      }))

-- `if output > u64::MAX { return None; } Some(output as u64)`.
abbrev pub narrow : ℕ → Outcome ℕ
narrow output = if ltb output u64_mod then ret output else nothing

-- The input less its fee, at a denominator of a million.
unfoldable pub input_after_fee : ℕ → ℕ → Outcome ℕ
input_after_fee fee_bps input_amount = do
  factor ← checked_sub 1_000_000 (fee_bps * 100)
  scaled ← checked_mul input_amount factor
  checked_div scaled 1_000_000

unfoldable pub single_tick_down : ℕ → ℕ → ℕ → Outcome ℕ
single_tick_down sqrt_price_x64 liquidity amount = do
  product ← checked_mul amount sqrt_price_x64
  input_x_price ← checked_div product q64
  denom ← checked_add liquidity input_x_price
  reject_if (denom == 0)
  scaled ← checked_mul liquidity sqrt_price_x64
  new_sqrt_price ← checked_div scaled denom
  reject_if (leb sqrt_price_x64 new_sqrt_price)
  price_diff ← checked_sub sqrt_price_x64 new_sqrt_price
  moved ← checked_mul liquidity price_diff
  output ← checked_div moved q64
  narrow output

unfoldable pub single_tick_up : ℕ → ℕ → ℕ → Outcome ℕ
single_tick_up sqrt_price_x64 liquidity amount = do
  shifted ← checked_mul amount q64
  price_delta ← checked_div shifted liquidity
  new_sqrt_price ← checked_add sqrt_price_x64 price_delta
  reject_if (leb new_sqrt_price sqrt_price_x64)
  numerator ← checked_mul liquidity price_delta
  step1 ← checked_div numerator sqrt_price_x64
  scaled ← checked_mul step1 q64
  output ← checked_div scaled new_sqrt_price
  narrow output

unfoldable pub clmm_single_tick_output : ℕ → ℕ → ℕ → ℕ → Bool → Outcome ℕ
clmm_single_tick_output fee_bps sqrt_price_x64 liquidity input_amount a_to_b = do
  amount ← input_after_fee fee_bps input_amount
  if amount == 0
      then ret 0
      else if a_to_b
      then single_tick_down sqrt_price_x64 liquidity amount
      else single_tick_up sqrt_price_x64 liquidity amount

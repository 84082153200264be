-- ===== src/Quote/TickWalk.antt =====
-- The walk over initialized ticks that src/router/dex/clmm_orca.rs and clmm_raydium.rs both hold,
-- word for word: the ticks in the direction of the swap, one round of the loop, the loop with its
-- limit of 50 rounds, and the range behind the last tick.
use engine_mev.Base.{
  ℕ, zero, suc, ◌+◌, ◌-◌, ◌^◌, Bool, true, false, Option, none, some, List, [], ◌∷◌, ◌++◌, ◌==◌,
  ltb, leb, ◌||◌, ◌&&◌, not, if◌then◌else◌,
}
use engine_mev.Base.Int.{ℤ, pos, negsuc, ◌+ℤ◌, ◌-ℤ◌, ltb_ℤ, leb_ℤ}
use engine_mev.Base.Float.{F64}
use engine_mev.Base.Outcome.{Outcome, ret, nothing, panic, ◌>>=◌}
use engine_mev.Base.Sort.{retain, sort_by}
use engine_mev.Base.Word.{add_u128}
use engine_mev.Pool.{ClmmTick, ClmmTickArray}
use engine_mev.Quote.Clmm.{
  SwapStepResult, compute_swap_step, min_sqrt_price_x64, max_sqrt_price_x64,
}
use engine_mev.Quote.TickPrice.{tick_index_to_sqrt_price_x64}
pub mod Monotone

all_ticks : List ClmmTickArray → List ClmmTick
all_ticks [] = []
all_ticks (arr ∷ rest) = arr.ticks ++ all_ticks rest

-- The ticks that have liquidity, on the side of the swap, in the order in which it meets them.
unfoldable pub initialized_ticks : List ClmmTickArray → ℤ → Bool → List ClmmTick
unfolding all_ticks retain sort_by
initialized_ticks arrays current_tick a_to_b =
    let live = retain (λ t. ltb 0 t.liquidity_gross) (all_ticks arrays) in
    if a_to_b
    then sort_by (λ s t. ltb_ℤ t.tick_index s.tick_index)
        (retain (λ t. leb_ℤ t.tick_index current_tick) live)
    else sort_by (λ s t. ltb_ℤ s.tick_index t.tick_index)
        (retain (λ t. ltb_ℤ current_tick t.tick_index) live)

-- `x as i128` of a `u128`, and back.
unfoldable pub to_i128 : ℕ → ℤ
to_i128 n = if ltb n (2 ^ 127) then pos n else negsuc (2 ^ 128 - 1 - n)

unfoldable pub of_i128 : ℤ → ℕ
of_i128 (pos n) = n
of_i128 (negsuc n) = 2 ^ 128 - 1 - n

-- A result of `i128::checked_add` or `checked_sub`: `None` outside the range.
unfoldable pub check_i128 : ℤ → Outcome ℤ
check_i128 (pos n) = if ltb n (2 ^ 127) then ret (pos n) else nothing
check_i128 (negsuc n) = if ltb n (2 ^ 127) then ret (negsuc n) else nothing

-- Crossing a tick subtracts its net liquidity on the way down and adds it on the way up.
unfoldable pub cross : Bool → ℕ → ClmmTick → Outcome ℕ
unfolding to_i128 of_i128 check_i128 ◌+ℤ◌ ◌-ℤ◌
cross a_to_b liquidity tick = do
  net ← check_i128 (
      if a_to_b
      then to_i128 liquidity -ℤ tick.liquidity_net
      else to_i128 liquidity +ℤ tick.liquidity_net)
  ret (of_i128 net)

-- The variables of the loop.
pub record Walk : Type 0 where
  pub amount_remaining : ℕ
  pub total_output : ℕ
  pub current_sqrt_price : ℕ
  pub current_liquidity : ℕ

-- The tick lies behind the current price: only the liquidity changes.
abbrev pub is_behind : Bool → ℕ → ℕ → Bool
is_behind a_to_b target current = if a_to_b then leb current target else leb target current

-- The part of a round that moves the price, from the step inside the range on.
unfoldable pub swap_to_tick : Bool → ℕ → ClmmTick → Walk → Outcome Walk
swap_to_tick a_to_b target tick w = do
  r ← compute_swap_step w.current_sqrt_price target w.current_liquidity w.amount_remaining a_to_b
  total ← add_u128 w.total_output r.amount_out
  liquidity ←
      if r.next_sqrt_price == target
      then cross a_to_b w.current_liquidity tick
      else ret w.current_liquidity
  ret (record {
    amount_remaining = w.amount_remaining - r.amount_in;
    total_output = total;
    current_sqrt_price = r.next_sqrt_price;
    current_liquidity = liquidity;
  })

-- One round, with the price of its tick.
unfoldable pub tick_step : Bool → ℕ → ClmmTick → Walk → Outcome Walk
tick_step a_to_b target tick w =
    if is_behind a_to_b target w.current_sqrt_price
    then (do
      liquidity ← cross a_to_b w.current_liquidity tick
      ret (record w { current_liquidity = liquidity }))
    else if w.current_liquidity == 0
    then (do
      liquidity ← cross a_to_b w.current_liquidity tick
      ret (record w { current_sqrt_price = target; current_liquidity = liquidity }))
    else swap_to_tick a_to_b target tick w

-- `let max_steps = 50`.
abbrev pub max_steps : ℕ
max_steps = 50

module _ (fl : F64) where
  -- The loop; the number is the count of rounds that are left.
  unfoldable pub walk : ℕ → Bool → List ClmmTick → Walk → Outcome Walk
  walk zero a_to_b ticks w = ret w
  walk (suc rounds) a_to_b [] w = ret w
  walk (suc rounds) a_to_b (tick ∷ ticks) w = elim (w.amount_remaining == 0) [
    | true ↦ ret w
    | false ↦ do
      target ← tick_index_to_sqrt_price_x64 fl tick.tick_index
      w' ← tick_step a_to_b target tick w
      walk rounds a_to_b ticks w'
  ]

-- The swap of what is left in the range behind the last tick; a step that fails adds nothing.
unfoldable pub last_range : Bool → Walk → Outcome ℕ
last_range a_to_b w =
    if ltb 0 w.amount_remaining && ltb 0 w.current_liquidity
    then elim (compute_swap_step w.current_sqrt_price
        (if a_to_b then min_sqrt_price_x64 else max_sqrt_price_x64) w.current_liquidity
        w.amount_remaining a_to_b) [
          | ret r ↦ add_u128 w.total_output r.amount_out
          | nothing ↦ ret w.total_output
          | panic ↦ panic
        ]
    else ret w.total_output

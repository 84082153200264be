-- ===== src/Quote/TickWalk/Monotone.antt =====
-- The walk over the ticks moves the price one way, only uses input up and only adds output.
use engine_mev.Base.{
  ℕ, zero, suc, ◌≤◌, ◌≡◌, Bool, true, false, List, [], ◌∷◌, inl, inr, Bool-cases, ◌==◌, arith,
  if◌then◌else◌,
}
use engine_mev.Base.Float.{F64}
use engine_mev.Base.Outcome.{ret, >>=-use}
use engine_mev.Base.Word.{add_u128, add_u128-eq_ret}
use engine_mev.Pool.{ClmmTick}
use engine_mev.Quote.Clmm.{SwapStepResult, compute_swap_step}
use engine_mev.Quote.Clmm.Step.{compute_swap_step_down, compute_swap_step_up}
use engine_mev.Quote.TickPrice.{tick_index_to_sqrt_price_x64}
use engine_mev.Quote.TickWalk.{Walk, cross, swap_to_tick, tick_step, walk}

-- The input that is left never grows and the output never shrinks; the price falls (or stays) on the
-- way down and rises (or stays) on the way up.
pub record Moves (a_to_b : Bool) (w w' : Walk) : Type 0 where
  pub uses : w'.amount_remaining ≤ w.amount_remaining
  pub pays : w.total_output ≤ w'.total_output
  pub price :
      if a_to_b
      then w'.current_sqrt_price ≤ w.current_sqrt_price
      else w.current_sqrt_price ≤ w'.current_sqrt_price

Moves-refl : (d : Bool) (w : Walk) → Moves d w w
Moves-refl true w = omega arith
Moves-refl false w = omega arith

Moves-trans : (d : Bool) (u v w : Walk) → Moves d u v → Moves d v w → Moves d u w
Moves-trans true u v w h k = omega arith
Moves-trans false u v w h k = omega arith

ret-Moves : (d : Bool) (w : Walk) {w' : Walk} → ret w ≡ ret w' → Moves d w w'
ret-Moves true w e = ground arith
ret-Moves false w e = ground arith

step_price :
    (d : Bool) (c t l a : ℕ) {r : SwapStepResult}
    → compute_swap_step c t l a d ≡ ret r
    → if d then r.next_sqrt_price ≤ c else c ≤ r.next_sqrt_price
step_price true c t l a h = (compute_swap_step_down c t l a h).not_up
step_price false c t l a h = (compute_swap_step_up c t l a h).not_down

swap_to_tick-Moves :
    (d : Bool) (t : ℕ) (k : ClmmTick) (w : Walk) {w' : Walk}
    → swap_to_tick d t k w ≡ ret w'
    → Moves d w w'
unfolding swap_to_tick
swap_to_tick-Moves d t k w h =
    >>=-use (compute_swap_step w.current_sqrt_price t w.current_liquidity w.amount_remaining d) _ h
      λ r hr h1. >>=-use (add_u128 w.total_output r.amount_out) _ h1 λ total ht h2.
        >>=-use
          (if r.next_sqrt_price == t
            then cross d w.current_liquidity k
            else ret w.current_liquidity)
          _ h2
          λ l hl e.
            let moved = step_price d _ t _ _ hr in let paid = add_u128-eq_ret _ _ ht in ground arith

tick_step-Moves :
    (d : Bool) (t : ℕ) (k : ClmmTick) (w : Walk) {w' : Walk}
    → tick_step d t k w ≡ ret w'
    → Moves d w w'
unfolding tick_step
tick_step-Moves true t k w {w' = w'} h = ground (arith, swap_to_tick-Moves true t k w {w' = w'})
tick_step-Moves false t k w {w' = w'} h = ground (arith, swap_to_tick-Moves false t k w {w' = w'})

module _ (fl : F64) where
  -- Walking over ticks never leaves more input than there was, never takes output back, and never
  -- moves the price against the direction of the swap, whatever the ticks hold and however often
  -- the loop runs.
  pub walk-Moves :
      (rounds : ℕ) (d : Bool) (ticks : List ClmmTick) (w : Walk) {w' : Walk}
      → walk fl rounds d ticks w ≡ ret w'
      → Moves d w w'
  unfolding walk
  walk-Moves zero d ticks w h = ret-Moves d w h
  walk-Moves (suc rounds) d [] w h = ret-Moves d w h
  walk-Moves (suc rounds) d (k ∷ ticks) w {w'} h = elim (Bool-cases (w.amount_remaining == 0)) [
    | inl empty ↦ ret-Moves d w (rw (empty, walk) at h)
    | inr more ↦
        >>=-use (tick_index_to_sqrt_price_x64 fl k.tick_index) _ (rw (more, walk) at h) λ t ht h1.
          >>=-use (tick_step d t k w) _ h1 λ v hv h2.
            Moves-trans d w v w' (tick_step-Moves d t k w hv) (walk-Moves rounds d ticks v h2)
  ]

-- ===== src/Quote/Clmm/Step.antt =====
-- What one step inside a range of constant liquidity guarantees.
use native.Mathlib.Nat.{div-mul-le_self, le-div_iff_mul-le, div-le_of_le-mul}
use engine_mev.Base.{
  ℕ, ◌+◌, ◌-◌, ◌*◌, ◌/◌, ◌≤◌, ◌<◌, ◌≡◌, true, false, arith, ◌⊎◌, ap, if◌then◌else◌, leb,
}
use engine_mev.Base.Outcome.{ret, >>=-use}
use engine_mev.Base.Word.{checked_add, checked_mul, checked_sub, checked_div, mul-le}
use engine_mev.Quote.Clmm.{
  q64, SwapStepResult, max_in_down, partial_down, out_down, max_in_up, partial_up, out_up,
  compute_swap_step,
}

max_in_down-eq_ret :
    (c t l : ℕ) {m : ℕ}
    → max_in_down c t l ≡ ret m
    → (t ≤ c) × (0 < c) × (0 < t) × (m ≡ l * (c - t) / c * q64 / t)
unfolding max_in_down checked_sub checked_mul checked_div
max_in_down-eq_ret c t l h = ground arith

partial_down-eq_ret :
    (c l a : ℕ) {n : ℕ}
    → partial_down c l a ≡ ret n
    → (0 < l + a * c / q64) × (n ≡ l * c / (l + a * c / q64))
unfolding partial_down checked_add checked_mul checked_div
partial_down-eq_ret c l a h = ground arith

max_in_up-eq_ret : (c t l : ℕ) {m : ℕ} → max_in_up c t l ≡ ret m → (c ≤ t) × (m ≡ l * (t - c) / q64)
unfolding max_in_up checked_sub checked_mul checked_div
max_in_up-eq_ret c t l h = ground arith

partial_up-eq_ret : (c l a : ℕ) {n : ℕ} → partial_up c l a ≡ ret n → (0 < l) × (n ≡ c + a * q64 / l)
unfolding partial_up checked_add checked_mul checked_div
partial_up-eq_ret c l a h = ground arith

out_down-eq_ret : (c n l : ℕ) {y : ℕ} → out_down c n l ≡ ret y → (n ≤ c) × (y ≡ l * (c - n) / q64)
unfolding out_down checked_sub checked_mul checked_div
out_down-eq_ret c n l h = ground arith

out_up-eq_ret :
    (c n l : ℕ) {y : ℕ}
    → out_up c n l ≡ ret y
    → (c ≤ n) × (0 < c) × (0 < n) × (y ≡ l * (n - c) / c * q64 / n)
unfolding out_up checked_sub checked_mul checked_div
out_up-eq_ret c n l h = ground arith

-- A partial fill of a falling price does not pass the target.
crossing :
    (l c t a s w e : ℕ)
    → c ≡ t + e
    → a * t ≤ s * q64
    → s * c ≤ l * e
    → w * q64 ≤ a * c
    → t * (l + w) ≤ l * c
crossing l c t a s w e split used short paid = omega (
  arith,
  mul-le (w * q64) (a * c) t paid,
  mul-le (a * t) (s * q64) c used,
  ap (λ (n : ℕ). l * n) split,
)

partial_down_bounds :
    (c t l a : ℕ) {m n : ℕ}
    → max_in_down c t l ≡ ret m
    → a < m
    → partial_down c l a ≡ ret n
    → (t ≤ n) × (n ≤ c)
partial_down_bounds c t l a {m} {n} hm less hn =
    let (le, pos_c, pos_t, em) = max_in_down-eq_ret c t l hm in
    let (pos_d, en) = partial_down-eq_ret c l a hn in
    let s = l * (c - t) / c in
    let w = a * c / q64 in
    let fit : a * t ≤ s * q64 = (le-div_iff_mul-le pos_t).0 (omega (arith, less, em)) in
    let low : t * (l + w) ≤ l * c =
      crossing l c t a s w (c - t) (omega arith) fit (div-mul-le_self _ c)
        (div-mul-le_self _ q64) in
    (rw en ((le-div_iff_mul-le pos_d).1 low), rw en (div-le_of_le-mul (l + w) (grind arith)))

partial_up_bounds :
    (c t l a : ℕ) {m n : ℕ}
    → max_in_up c t l ≡ ret m
    → a < m
    → partial_up c l a ≡ ret n
    → (c ≤ n) × (n ≤ t)
partial_up_bounds c t l a {m} {n} hm less hn =
    let (le, em) = max_in_up-eq_ret c t l hm in
    let (pos_l, en) = partial_up-eq_ret c l a hn in
    let fit : a * q64 ≤ l * (t - c) = omega (arith, less, em) in
    let d : a * q64 / l ≤ t - c = div-le_of_le-mul l fit in (omega arith, omega arith)

-- What a step that moves the price from `c` towards `t` must satisfy at an input `a` and a liquidity
-- `l`, for a falling and for a rising price.
pub record StepDown (c t l a : ℕ) (r : SwapStepResult) : Type 0 where
  pub within : r.amount_in ≤ a
  pub not_past : t ≤ r.next_sqrt_price
  pub not_up : r.next_sqrt_price ≤ c
  pub done : (r.next_sqrt_price ≡ t) ⊎ (r.amount_in ≡ a)
  pub paid : r.amount_out * q64 ≤ l * (c - r.next_sqrt_price)

pub record StepUp (c t l a : ℕ) (r : SwapStepResult) : Type 0 where
  pub within : r.amount_in ≤ a
  pub not_past : r.next_sqrt_price ≤ t
  pub not_down : c ≤ r.next_sqrt_price
  pub done : (r.next_sqrt_price ≡ t) ⊎ (r.amount_in ≡ a)
  pub paid : r.amount_out * r.next_sqrt_price * c ≤ l * (r.next_sqrt_price - c) * q64

fill_down :
    (c t l a m n : ℕ)
    → max_in_down c t l ≡ ret m
    → (if leb m a then ret t else partial_down c l a) ≡ ret n
    → let i = if leb m a then m else a in (i ≤ a) × (t ≤ n) × (n ≤ c) × ((n ≡ t) ⊎ (i ≡ a))
fill_down c t l a m n hm hn =
    ground (arith, max_in_down-eq_ret c t l hm, partial_down_bounds c t l a {n = n} hm)

fill_up :
    (c t l a m n : ℕ)
    → max_in_up c t l ≡ ret m
    → (if leb m a then ret t else partial_up c l a) ≡ ret n
    → let i = if leb m a then m else a in (i ≤ a) × (n ≤ t) × (c ≤ n) × ((n ≡ t) ⊎ (i ≡ a))
fill_up c t l a m n hm hn =
    ground (arith, max_in_up-eq_ret c t l hm, partial_up_bounds c t l a {n = n} hm)

down_parts :
    (c t l a m n y : ℕ) {r : SwapStepResult}
    → max_in_down c t l ≡ ret m
    → (if leb m a then ret t else partial_down c l a) ≡ ret n
    → out_down c n l ≡ ret y
    → ret (record { amount_in = if leb m a then m else a; amount_out = y; next_sqrt_price = n })
      ≡ ret r
    → StepDown c t l a r
down_parts c t l a m n y hm hn hy e =
    let facts = fill_down c t l a m n hm hn in
    let value = out_down-eq_ret c n l hy in
    let paid : y * q64 ≤ l * (c - n) = rw value.1 (div-mul-le_self _ q64) in ground arith

up_parts :
    (c t l a m n y : ℕ) {r : SwapStepResult}
    → max_in_up c t l ≡ ret m
    → (if leb m a then ret t else partial_up c l a) ≡ ret n
    → out_up c n l ≡ ret y
    → ret (record { amount_in = if leb m a then m else a; amount_out = y; next_sqrt_price = n })
      ≡ ret r
    → StepUp c t l a r
up_parts c t l a m n y hm hn hy e =
    let facts = fill_up c t l a m n hm hn in
    let value = out_up-eq_ret c n l hy in
    let s = l * (n - c) / c in
    let top : y * n ≤ s * q64 = rw value.3 (div-mul-le_self _ n) in
    let paid : y * n * c ≤ l * (n - c) * q64 = omega (
      arith,
      mul-le (y * n) (s * q64) c top,
      mul-le (s * c) (l * (n - c)) q64 (div-mul-le_self _ c),
    ) in
    ground arith

-- A step of a falling price consumes at most what is left of the input, ends between the target and
-- the current price, reaches the target or uses all of the input, and pays no more than the
-- liquidity times the price difference.
pub compute_swap_step_down :
    (c t l a : ℕ) {r : SwapStepResult} → compute_swap_step c t l a true ≡ ret r → StepDown c t l a r
unfolding compute_swap_step
compute_swap_step_down c t l a h = >>=-use (max_in_down c t l) _ h λ m hm h1.
    >>=-use (if leb m a then ret t else partial_down c l a) _ h1
      λ n hn h2. >>=-use (out_down c n l) _ h2 λ y hy e. down_parts c t l a m n y hm hn hy e

-- A step of a rising price consumes at most what is left of the input, ends between the current price
-- and the target, reaches the target or uses all of the input, and its output times the product of
-- the two prices is at most the liquidity times the price difference times 2^64.
pub compute_swap_step_up :
    (c t l a : ℕ) {r : SwapStepResult} → compute_swap_step c t l a false ≡ ret r → StepUp c t l a r
unfolding compute_swap_step
compute_swap_step_up c t l a h = >>=-use (max_in_up c t l) _ h λ m hm h1.
    >>=-use (if leb m a then ret t else partial_up c l a) _ h1
      λ n hn h2. >>=-use (out_up c n l) _ h2 λ y hy e. up_parts c t l a m n y hm hn hy e

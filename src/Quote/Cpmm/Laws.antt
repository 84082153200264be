-- ===== src/Quote/Cpmm/Laws.antt =====
-- What a constant-product quote guarantees: the product of the reserves, the order of the quotes,
-- the inputs that get a quote, and the way there and back.
use native.Mathlib.Nat.{div-mul-le_self, le-div_iff_mul-le, div-lt_iff_lt-mul}
use engine_mev.Base.{ℕ, ◌+◌, ◌-◌, ◌*◌, ◌/◌, ◌≤◌, ◌<◌, ◌≡◌, Bool, true, false, ap, arith}
use engine_mev.Base.Outcome.{ret}
use engine_mev.Base.Word.{u128_mod, mul-le}
use engine_mev.Pool.{PoolState}
use engine_mev.Quote.Cpmm.{swap_output, reserve_in, reserve_out, quote}

-- What a successful quote computed.
pub swap_output-eq_ret :
    (i o f x : ℕ) {y : ℕ}
    → swap_output i o f x ≡ ret y
    → (0 < i)
      × (f ≤ 10_000)
      × (y < o)
      × (y ≡ o * (x * (10_000 - f)) / (i * 10_000 + x * (10_000 - f)))
unfolding swap_output
swap_output-eq_ret i o f x h = ground arith

-- The trade's two sides, from the bound that the division gives.
traded : (i y z t x : ℕ) → y * (i * 10_000 + t) ≤ (y + z) * t → t ≤ x * 10_000 → i * y ≤ x * z
traded i y z t x h k = omega (arith, mul-le t (x * 10_000) z k)

kept : (i o x y z : ℕ) → o ≡ y + z → i * y ≤ x * z → i * o ≤ (i + x) * z
kept i o x y z e h = omega (arith, ap (λ (t : ℕ). i * t) e)

swap_constant_product :
    (i o f x : ℕ) {y : ℕ} → swap_output i o f x ≡ ret y → i * o ≤ (i + x) * (o - y)
swap_constant_product i o f x {y} h =
    let (pos_i, fee, small, value) = swap_output-eq_ret i o f x h in
    let t = x * (10_000 - f) in
    let d = i * 10_000 + t in
    let z = o - y in
    let split : o ≡ y + z = omega arith in
    let paid : y * d ≤ (y + z) * t = rw (← split, value) (div-mul-le_self (o * t) d) in
    let fair : i * y ≤ x * z = traded i y z t x paid (mul-le (10_000 - f) 10_000 x (omega arith)) in
    kept i o x y z split fair

-- A quote never lowers the product of the two reserves: when the pool takes the whole input and pays
-- the quoted output, the reserves after the trade have at least the product of those before it.
pub constant_product :
    (p : PoolState) (x : ℕ) (d : Bool) {y : ℕ}
    → quote p x d ≡ ret y
    → reserve_in p d * reserve_out p d ≤ (reserve_in p d + x) * (reserve_out p d - y)
unfolding quote
constant_product p x d h = swap_constant_product _ _ _ x h

-- One output amount divided by a larger input: `o * t / (k + t)` grows with `t`.
fraction_mono : (o k t s y : ℕ) → y * (k + t) ≤ o * t → y ≤ o → t ≤ s → y * (k + s) ≤ o * s
fraction_mono o k t s y h small le =
    let r = s - t in
    let e : s ≡ t + r = omega arith in
    omega (arith, mul-le y o r small, ap (λ (n : ℕ). y * n) e, ap (λ (n : ℕ). o * n) e)

swap_mono :
    (i o f x x' : ℕ) {y y' : ℕ}
    → x ≤ x'
    → swap_output i o f x ≡ ret y
    → swap_output i o f x' ≡ ret y'
    → y ≤ y'
swap_mono i o f x x' {y} {y'} le h h' =
    let (pos_i, fee, small, value) = swap_output-eq_ret i o f x h in
    let (_, _, _, value') = swap_output-eq_ret i o f x' h' in
    let g = 10_000 - f in
    let bound : y * (i * 10_000 + x * g) ≤ o * (x * g) = rw value (div-mul-le_self _ _) in
    rw value' (
      (le-div_iff_mul-le (omega arith)).1
        (fraction_mono o (i * 10_000) (x * g) (x' * g) y bound (omega arith) (grind arith)))

-- A larger input never gets a smaller quote from the same pool, in either direction, where both
-- inputs get one.
pub quote_mono :
    (p : PoolState) (x x' : ℕ) (d : Bool) {y y' : ℕ}
    → x ≤ x'
    → quote p x d ≡ ret y
    → quote p x' d ≡ ret y'
    → y ≤ y'
unfolding quote
quote_mono p x x' d le h h' = swap_mono _ _ _ x x' le h h'

quotient_below : (o t k : ℕ) → 0 < o → 0 < k → o * t / (k + t) < o
quotient_below o t k ho hk = (div-lt_iff_lt-mul (omega arith)).1 (grind arith)

swap_total :
    (i o f x : ℕ)
    → 0 < i
    → 0 < o
    → f ≤ 10_000
    → x * (10_000 - f) < u128_mod
    → o * (x * (10_000 - f)) < u128_mod
    → i * 10_000 + x * (10_000 - f) < u128_mod
    → swap_output i o f x ≡ ret (o * (x * (10_000 - f)) / (i * 10_000 + x * (10_000 - f)))
unfolding swap_output
swap_total i o f x hi ho hf ht hn hd =
    let t = x * (10_000 - f) in
    let d = i * 10_000 + t in
    let below : o * t / d < o = quotient_below o t (i * 10_000) ho (omega arith) in ground arith

-- Every input gets a quote where both reserves are positive, the fee is at most the whole input, and
-- the numerator and the denominator of the formula fit 128 bits; it is the formula rounded down.
pub quote_total :
    (p : PoolState) (x : ℕ) (d : Bool)
    → let t = x * (10_000 - p.fee_bps) in
      0 < reserve_in p d
      → 0 < reserve_out p d
      → p.fee_bps ≤ 10_000
      → reserve_out p d * t < u128_mod
      → reserve_in p d * 10_000 + t < u128_mod
      → quote p x d ≡ ret (reserve_out p d * t / (reserve_in p d * 10_000 + t))
unfolding quote
quote_total p x d hi ho hf hn hd = swap_total _ _ _ x hi ho hf (omega arith) hn hd

-- The reserves after the pool has taken `x` of token a and paid `y` of token b.
abbrev pub after_a_to_b : PoolState → ℕ → ℕ → PoolState
after_a_to_b p x y = record p {
  token_a_reserve = p.token_a_reserve + x;
  token_b_reserve = p.token_b_reserve - y;
}

no_gain : (i o x z : ℕ) → 0 < o → i * o ≤ o * (i + x - z) → z ≤ i + x → z ≤ x
no_gain i o x z pos_o h le = let e : i ≤ i + x - z = grind arith in omega arith

-- Swapping token a for token b and the whole output back again, on the reserves that the first swap
-- left behind, returns at most what was put in: one pool cannot be drained by a round trip.
pub quote_round_trip :
    (p : PoolState) (x : ℕ) {y z : ℕ}
    → quote p x true ≡ ret y
    → quote (after_a_to_b p x y) y false ≡ ret z
    → z ≤ x
unfolding quote reserve_in reserve_out
quote_round_trip p x {y} {z} there back =
    let i = p.token_a_reserve in
    let o = p.token_b_reserve in
    let (_, _, small, _) = swap_output-eq_ret _ _ _ x there in
    let (_, _, small', _) = swap_output-eq_ret _ _ _ y back in
    let first : i * o ≤ (i + x) * (o - y) = swap_constant_product _ _ _ x there in
    let second : (o - y) * (i + x) ≤ (o - y + y) * (i + x - z) =
      swap_constant_product _ _ _ y back in
    let whole : o - y + y ≡ o = omega arith in
    no_gain i o x z (omega arith) (grind (arith, first, second, whole)) (omega arith)

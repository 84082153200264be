-- ===== src/Quote/Dlmm/Payout.antt =====
-- What a walk over bins pays out is in the bins that it visits.
use native.Mathlib.Nat.{le-div_iff_mul-le, div-le_of_le-mul}
use engine_mev.Base.{
  ℕ, zero, suc, ◌+◌, ◌-◌, ◌*◌, ◌/◌, ◌%◌, ◌^◌, ◌≤◌, ◌<◌, ◌≡◌, ◌⊎◌, inl, inr, Bool, true, false, none,
  some, List, arith, ◌==◌, leb, leb→lt, if◌then◌else◌, Bool-cases, Option-cases,
}
use engine_mev.Base.Int.{ℤ, pos, ◌+ℤ◌, ◌-ℤ◌}
use engine_mev.Base.Outcome.{ret, >>=-use, reject_if}
use engine_mev.Base.Word.{checked_add, checked_mul, checked_div, add_u128, add_u128-eq_ret}
use engine_mev.Pool.{DlmmBin, DlmmBinArray, PoolState}
use engine_mev.Quote.Clmm.{q64, ceil_div, narrow}
use engine_mev.Quote.Dlmm.{
  bin_at, next_id, BinWalk, bin_amount, max_in_after_fee, partial_out, fee_on, consume_bin,
  end_in_bin, bin_step, max_bins, bin_walk, bin_output,
}

-- The bin after `id` in the direction of the swap.
abbrev pub step_id : Bool → ℤ → ℤ
step_id swap_for_y id = if swap_for_y then id -ℤ pos 1 else id +ℤ pos 1

-- What the bins hold on the side that the swap takes out, over a number of ids from `id` on.
unfoldable pub held_from : ℕ → Bool → List DlmmBinArray → ℤ → ℕ
held_from zero d arrays id = 0
held_from (suc n) d arrays id =
    (elim (bin_at arrays id) [ none ↦ 0 | some b ↦ bin_amount d b ])
    + held_from n d arrays (step_id d id)

next_id-eq_ret : (d : Bool) (id : ℤ) {i : ℤ} → next_id d id ≡ ret i → i ≡ step_id d id
unfolding next_id
next_id-eq_ret d id h = ground arith

max_in_up-eq_ret :
    (b : DlmmBin) {m : ℕ}
    → max_in_after_fee true b ≡ ret m
    → (0 < b.price_q64) × (m ≡ (b.amount_y * q64 + (b.price_q64 - 1)) / b.price_q64)
unfolding max_in_after_fee checked_add checked_div
max_in_up-eq_ret b h = ground arith

max_in_down-eq_ret :
    (b : DlmmBin) {m : ℕ}
    → max_in_after_fee false b ≡ ret m
    → m ≡ ceil_div (b.amount_x * b.price_q64) q64
unfolding max_in_after_fee checked_mul
max_in_down-eq_ret b h = ground arith

-- An input below the bin's largest one pays no more than the bin's amount.
partial_y :
    (b : DlmmBin) (a : ℕ) {m y : ℕ}
    → max_in_after_fee true b ≡ ret m
    → a < m
    → partial_out true b a ≡ ret y
    → y ≤ b.amount_y
unfolding partial_out checked_mul checked_div
partial_y b a {m} {y} hm less hy =
    let (pos_p, em) = max_in_up-eq_ret b hm in
    let fits : (a + 1) * b.price_q64 ≤ b.amount_y * q64 + (b.price_q64 - 1) =
      (le-div_iff_mul-le pos_p).0 (omega (arith, less, em)) in
    let value : y ≡ a * b.price_q64 / q64 = ground arith in omega (arith, fits, value)

ceil_bound : (n a : ℕ) → a < ceil_div n q64 → a * q64 ≤ n
unfolding ceil_div
ceil_bound n a h = ground arith

partial_x :
    (b : DlmmBin) (a : ℕ) {m y : ℕ}
    → max_in_after_fee false b ≡ ret m
    → a < m
    → partial_out false b a ≡ ret y
    → y ≤ b.amount_x
unfolding partial_out checked_div
partial_x b a {m} {y} hm less hy =
    let em = max_in_down-eq_ret b hm in
    let fits : a * q64 ≤ b.amount_x * b.price_q64 = ceil_bound _ a (omega (arith, less, em)) in
    let value : y ≡ a * q64 % 2 ^ 128 / b.price_q64 = ground arith in
    omega (
      arith,
      value,
      div-le_of_le-mul b.price_q64 {m = a * q64 % 2 ^ 128} {n = b.amount_x} (omega (arith, fits)),
    )

partial_bound :
    (d : Bool) (b : DlmmBin) (a : ℕ) {m y : ℕ}
    → max_in_after_fee d b ≡ ret m
    → leb m a ≡ false
    → partial_out d b a ≡ ret y
    → y ≤ bin_amount d b
partial_bound true b a hm part hy = partial_y b a hm (leb→lt _ a part) hy
partial_bound false b a hm part hy = partial_x b a hm (leb→lt _ a part) hy

-- A round pays at most the bin's amount, and goes on to the next bin or uses the input up.
record Round (d : Bool) (b : DlmmBin) (w w' : BinWalk) : Type 0 where
  pays : w'.total_out ≤ w.total_out + bin_amount d b
  goes_on : (w'.current_id ≡ step_id d w.current_id) ⊎ (w'.amount_left ≡ 0)

consume_bin-Round :
    (rate denom : ℕ) (d : Bool) (b : DlmmBin) (m : ℕ) (w : BinWalk) {w' : BinWalk}
    → consume_bin rate denom d b m w ≡ ret w'
    → Round d b w w'
unfolding consume_bin
consume_bin-Round rate denom d b m w h =
    >>=-use (add_u128 w.total_out (bin_amount d b)) _ h λ total ht h1.
      >>=-use (fee_on rate denom m) _ h1 λ fee hf h2. >>=-use (add_u128 m fee) _ h2 λ used hu h3.
        >>=-use (next_id d w.current_id) _ h3 λ id hi e.
          let value = add_u128-eq_ret _ _ ht in
          let next = next_id-eq_ret d _ hi in record { pays = ground arith; goes_on = inl (cc) }

end_in_bin-Round :
    (d : Bool) (b : DlmmBin) (a : ℕ) (w : BinWalk) {m : ℕ} {w' : BinWalk}
    → max_in_after_fee d b ≡ ret m
    → leb m a ≡ false
    → end_in_bin d b a w ≡ ret w'
    → Round d b w w'
unfolding end_in_bin
end_in_bin-Round d b a w hm part h = >>=-use (partial_out d b a) _ h λ out ho h1.
    >>=-use (add_u128 w.total_out out) _ h1 λ total ht e.
      let value = add_u128-eq_ret _ _ ht in
      let small = partial_bound d b a hm part ho in
      record { pays = ground arith; goes_on = inr (ground arith) }

bin_step-Round :
    (rate denom : ℕ) (d : Bool) (b : DlmmBin) (w : BinWalk) {w' : BinWalk}
    → bin_step rate denom d b w ≡ ret w'
    → Round d b w w'
unfolding bin_step
bin_step-Round rate denom d b w {w'} h = elim (Bool-cases (bin_amount d b == 0)) [
  | inl empty ↦ >>=-use (next_id d w.current_id) _ (rw (empty, bin_step) at h) λ id hi e.
      let next = next_id-eq_ret d _ hi in record { pays = ground arith; goes_on = inl (cc) }
  | inr full ↦ >>=-use (max_in_after_fee d b) _ (rw (full, bin_step) at h) λ m hm h1.
      >>=-use (fee_on rate denom w.amount_left) _ h1 λ fee hf h2.
        elim (Bool-cases (leb m (w.amount_left - fee))) [
          | inl whole ↦ consume_bin-Round rate denom d b m w (rw whole at h2)
          | inr part ↦ end_in_bin-Round d b (w.amount_left - fee) w hm part (rw part at h2)
        ]
]

ret-injective : {A : Type 0} {a b : A} → ret a ≡ ret b → b ≡ a
ret-injective e = cc

module _ (rate denom : ℕ) (d : Bool) (arrays : List DlmmBinArray) where
  walk_done :
      (n : ℕ) (w : BinWalk) {w' : BinWalk}
      → w.amount_left ≡ 0
      → bin_walk n rate denom d arrays w ≡ ret w'
      → w'.total_out ≡ w.total_out
  unfolding bin_walk
  walk_done zero w done h = ground arith
  walk_done (suc n) w done h = ground arith

  -- A run of the loop either stops at once or makes a round at a bin and goes on.
  walk_round :
      (n : ℕ) (w : BinWalk) {w' : BinWalk}
      → bin_walk (suc n) rate denom d arrays w ≡ ret w'
      → (w' ≡ w)
        ⊎ ((b : DlmmBin) × (v : BinWalk) × (bin_at arrays w.current_id ≡ some b)
            × (bin_step rate denom d b w ≡ ret v)
            × (bin_walk n rate denom d arrays v ≡ ret w'))
  unfolding bin_walk
  walk_round n w h = elim (Bool-cases (w.amount_left == 0)) [
    | inl empty ↦ inl (ret-injective (rw (empty, bin_walk) at h))
    | inr more ↦ elim (Option-cases (bin_at arrays w.current_id)) [
      | inl missing ↦ inl (ret-injective (rw (more, missing, bin_walk) at h))
      | inr (b, found) ↦ elim (Bool-cases (b.price_q64 == 0)) [
        | inl no_price ↦ inl (ret-injective (rw (more, found, no_price, bin_walk) at h))
        | inr priced ↦
            >>=-use (bin_step rate denom d b w) _ (rw (more, found, priced, bin_walk) at h)
              λ v hv rest. inr (b, v, found, hv, rest)
      ]
    ]
  ]

  walk-le-held :
      (n : ℕ) (w : BinWalk) {w' : BinWalk}
      → bin_walk n rate denom d arrays w ≡ ret w'
      → w'.total_out ≤ w.total_out + held_from n d arrays w.current_id
  unfolding bin_walk held_from
  walk-le-held zero w h = ground arith
  walk-le-held (suc n) w {w'} h = elim (walk_round n w h) [
    | inl stopped ↦ ground arith
    | inr (b, v, found, step, rest) ↦
        let round = bin_step-Round rate denom d b w step in
        rw (found, held_from)
          (elim round.goes_on [
            | inl next ↦
                let ih : w'.total_out
                    ≤ v.total_out + held_from n d arrays (step_id d w.current_id) =
                  rw (← next) (walk-le-held n v rest) in
                omega (arith, ih, round.pays)
            | inr done ↦ omega (arith, walk_done n v done rest, round.pays)
          ])
  ]

narrow_zero : {y : ℕ} → ret 0 ≡ ret y → y ≡ 0
narrow_zero e = ret-injective e

narrow-eq_ret : (n : ℕ) {y : ℕ} → narrow n ≡ ret y → y ≡ n
narrow-eq_ret n e = ground arith

-- A bin-by-bin quote is at most what the first 200 bins from the active one hold on the side that
-- the swap takes out.
pub bin_output-le-held :
    (p : PoolState) (x : ℕ) (d : Bool) (id : ℤ) (arrays : List DlmmBinArray) {y : ℕ}
    → bin_output p x d id arrays ≡ ret y
    → y ≤ held_from max_bins d arrays id
unfolding bin_output
bin_output-le-held p x d id arrays {y} h =
    let rate = p.fee_bps * 100_000 in
    let denom = 1_000_000_000 - rate in
    let start : BinWalk = record { amount_left = x; total_out = 0; current_id = id } in
    elim (Bool-cases (x == 0)) [
      | inl no_input ↦ omega (arith, narrow_zero (rw (no_input, bin_output) at h))
      | inr input ↦ >>=-use (reject_if (denom == 0)) _ (rw (input, bin_output) at h) λ _ _ h1.
          >>=-use (bin_walk max_bins rate denom d arrays start) _ h1 λ w hw e.
            let held = walk-le-held rate denom d arrays max_bins start hw in
            omega (arith, held, narrow-eq_ret w.total_out e)
    ]

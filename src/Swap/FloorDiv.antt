-- ===== src/Swap/FloorDiv.antt =====
-- The three ways in which the program divides an index by the size of an array agree, and round down.
use native.Mathlib.Nat.{div-add-mod', mod-lt}
use engine_mev.Base.{ℕ, ◌-◌, ◌/◌, ◌^◌, ◌<◌, ◌≡◌, suc, ◌%◌, ◌==◌, inl, inr, Bool-cases, arith}
use engine_mev.Base.Int.{ℤ, pos, negsuc, neg_ℕ, ◌+ℤ◌, ◌-ℤ◌, ◌≤ℤ◌, ◌<ℤ◌, scale}
use engine_mev.Base.Int32.{i32_of, sub_i32, div_i32, rem_i32}
use engine_mev.Base.Outcome.{ret}
use engine_mev.Swap.{floor_div}
use engine_mev.Swap.Dlmm.{bin_array_index}
use engine_mev.Quote.Dlmm.{array_idx}

-- For every 32-bit bin id, the array that the swap instruction names for the bin is the one in which
-- the quote looks it up, and both are the quotient that `floor_div` returns.
pub bin_array_index-array_idx :
    (id : ℤ)
    → negsuc (2 ^ 31 - 1) ≤ℤ id
    → id ≤ℤ pos (2 ^ 31 - 1)
    → (bin_array_index id ≡ array_idx id) × (floor_div id (pos 70) ≡ ret (bin_array_index id))
unfolding bin_array_index array_idx ◌+ℤ◌ ◌-ℤ◌ floor_div rem_i32 div_i32 sub_i32 i32_of
bin_array_index-array_idx (pos n) h k = (ground arith, ground arith)
bin_array_index-array_idx (negsuc n) h k = (ground arith, ground arith)

pub floor_div-floor :
    (a : ℤ) (k : ℕ)
    → negsuc (2 ^ 31 - 1) ≤ℤ a
    → a ≤ℤ pos (2 ^ 31 - 1)
    → 0 < k
    → k < 2 ^ 31
    → (q : ℤ) × (floor_div a (pos k) ≡ ret q) × (scale q k ≤ℤ a) × (a <ℤ (scale q k +ℤ pos k))
unfolding floor_div rem_i32 div_i32 sub_i32 i32_of ◌+ℤ◌ ◌-ℤ◌
floor_div-floor (pos n) k h h' p p' = (pos (n / k), grind arith, grind arith, grind arith)
floor_div-floor (negsuc n) k h h' p p' = elim (Bool-cases (suc n % k == 0)) [
  | inl e ↦ (
    neg_ℕ (suc n / k),
    grind (arith, e),
    grind (arith, e, div-add-mod' (suc n) k),
    grind (arith, e, div-add-mod' (suc n) k),
  )
  | inr e ↦ (
    negsuc (suc n / k),
    grind (arith, e),
    grind (arith, e, div-add-mod' (suc n) k, mod-lt (suc n) p),
    grind (arith, e, div-add-mod' (suc n) k, mod-lt (suc n) p),
  )
]

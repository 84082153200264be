-- ===== src/Quote/Dlmm.antt =====
-- Bin-by-bin quoting for Meteora DLMM, src/router/dex/dlmm.rs.
use engine_mev.Base.{
  ℕ, zero, suc, ◌+◌, ◌-◌, ◌*◌, ◌/◌, ◌%◌, ◌^◌, Bool, true, false, Option, none, some, List, [], ◌∷◌,
  get_elem?, ◌==◌, ltb, leb, if◌then◌else◌,
}
use engine_mev.Base.Int.{ℤ, pos, negsuc, ◌+ℤ◌, ◌-ℤ◌, leb_ℤ, eqb_ℤ, div_trunc, scale}
use engine_mev.Base.Outcome.{Outcome, ret, nothing, panic, of_option, ◌>>=◌, ◌>>◌, reject_if}
use engine_mev.Base.Word.{checked_add, checked_mul, checked_div, add_u128, mul_u128}
use engine_mev.Pool.{DlmmBin, DlmmBinArray, PoolState, dlmm_max_bin_per_array}
use engine_mev.Quote.Clmm.{q64, ceil_div, narrow}
pub mod BinIndex
pub mod Payout

-- The array that holds a bin, and the place of the bin in it. Division rounds towards zero.
unfoldable pub array_idx : ℤ → ℤ
unfolding ◌-ℤ◌
array_idx current_id =
    if leb_ℤ (pos 0) current_id
    then div_trunc current_id dlmm_max_bin_per_array
    else div_trunc (current_id -ℤ pos (dlmm_max_bin_per_array - 1)) dlmm_max_bin_per_array

-- `x as usize` of an `i64`.
unfoldable pub to_usize : ℤ → ℕ
to_usize (pos n) = n
to_usize (negsuc n) = 2 ^ 64 - 1 - n

unfoldable pub bin_offset : ℤ → ℕ
unfolding array_idx to_usize
bin_offset current_id = to_usize (current_id -ℤ scale (array_idx current_id) dlmm_max_bin_per_array)

-- `bin_arrays.iter().find(|a| a.index == array_idx)`.
unfoldable pub find_array : List DlmmBinArray → ℤ → Option DlmmBinArray
find_array [] i = none
find_array (a ∷ rest) i = if eqb_ℤ a.index i then some a else find_array rest i

unfoldable pub bin_at : List DlmmBinArray → ℤ → Option DlmmBin
bin_at arrays current_id = elim (find_array arrays (array_idx current_id)) [
  | none ↦ none
  | some a ↦ get_elem? a.bins (bin_offset current_id)
]

-- `current_id -= 1` and `current_id += 1` on `i32`.
unfoldable pub next_id : Bool → ℤ → Outcome ℤ
next_id swap_for_y id =
    if swap_for_y
    then (if eqb_ℤ id (negsuc (2 ^ 31 - 1)) then panic else ret (id -ℤ pos 1))
    else (if eqb_ℤ id (pos (2 ^ 31 - 1)) then panic else ret (id +ℤ pos 1))

-- The variables of the loop.
pub record BinWalk : Type 0 where
  pub amount_left : ℕ
  pub total_out : ℕ
  pub current_id : ℤ

-- The side of a bin that a swap takes out.
abbrev pub bin_amount : Bool → DlmmBin → ℕ
bin_amount swap_for_y b = if swap_for_y then b.amount_y else b.amount_x

-- The largest input, after the fee, that a bin can take.
unfoldable pub max_in_after_fee : Bool → DlmmBin → Outcome ℕ
max_in_after_fee swap_for_y b =
    if swap_for_y
    then (do
      rounded ← checked_add (b.amount_y * q64) (b.price_q64 - 1)
      checked_div rounded b.price_q64)
    else (do product ← checked_mul b.amount_x b.price_q64; ret (ceil_div product q64))

-- What a bin pays for an input that does not use it up.
unfoldable pub partial_out : Bool → DlmmBin → ℕ → Outcome ℕ
partial_out swap_for_y b amount_after_fee =
    if swap_for_y
    then (do product ← checked_mul amount_after_fee b.price_q64; checked_div product q64)
    else checked_div ((amount_after_fee * q64) % 2 ^ 128) b.price_q64

-- `ceil_div(amount * total_fee_rate, fee_denom)`; the product is not a checked one.
unfoldable pub fee_on : ℕ → ℕ → ℕ → Outcome ℕ
fee_on rate denom amount = do product ← mul_u128 amount rate; ret (ceil_div product denom)

-- The whole bin is used: its amount goes out, and its gross input goes in.
unfoldable pub consume_bin : ℕ → ℕ → Bool → DlmmBin → ℕ → BinWalk → Outcome BinWalk
consume_bin rate denom swap_for_y b max_in w = do
  total ← add_u128 w.total_out (bin_amount swap_for_y b)
  consumed_fee ← fee_on rate denom max_in
  consumed ← add_u128 max_in consumed_fee
  id ← next_id swap_for_y w.current_id
  ret (record { amount_left = w.amount_left - consumed; total_out = total; current_id = id })

-- The input ends in this bin.
unfoldable pub end_in_bin : Bool → DlmmBin → ℕ → BinWalk → Outcome BinWalk
end_in_bin swap_for_y b amount_after_fee w = do
  out ← partial_out swap_for_y b amount_after_fee
  total ← add_u128 w.total_out out
  ret (record w { amount_left = 0; total_out = total })

-- One round of the loop at a bin with a price.
unfoldable pub bin_step : ℕ → ℕ → Bool → DlmmBin → BinWalk → Outcome BinWalk
bin_step rate denom swap_for_y b w =
    if bin_amount swap_for_y b == 0
    then (do id ← next_id swap_for_y w.current_id; ret (record w { current_id = id }))
    else (do
      max_in ← max_in_after_fee swap_for_y b
      fee ← fee_on rate denom w.amount_left
      let after = w.amount_left - fee
      if leb max_in after
          then consume_bin rate denom swap_for_y b max_in w
          else end_in_bin swap_for_y b after w)

-- `for _ in 0..200`.
abbrev pub max_bins : ℕ
max_bins = 200

-- The loop; the number is the count of rounds that are left.
unfoldable pub bin_walk : ℕ → ℕ → ℕ → Bool → List DlmmBinArray → BinWalk → Outcome BinWalk
bin_walk zero rate denom swap_for_y arrays w = ret w
bin_walk (suc rounds) rate denom swap_for_y arrays w = elim (w.amount_left == 0) [
  | true ↦ ret w
  | false ↦ elim (bin_at arrays w.current_id) [
    | none ↦ ret w
    | some b ↦ elim (b.price_q64 == 0) [
      | true ↦ ret w
      | false ↦ do
        w' ← bin_step rate denom swap_for_y b w
        bin_walk rounds rate denom swap_for_y arrays w'
    ]
  ]
]

unfoldable pub bin_output : PoolState → ℕ → Bool → ℤ → List DlmmBinArray → Outcome ℕ
bin_output p input_amount a_to_b active_id arrays =
    let rate = p.fee_bps * 100_000 in
    let denom = 1_000_000_000 - rate in
    let start : BinWalk = record {
      amount_left = input_amount;
      total_out = 0;
      current_id = active_id;
    } in
    let run = (do
      reject_if (denom == 0)
      w ← bin_walk max_bins rate denom a_to_b arrays start
      narrow w.total_out) in
    if input_amount == 0 then ret 0 else run

unfoldable pub quote_with_active_id : PoolState → ℕ → Bool → ℤ → List DlmmBinArray → Outcome ℕ
quote_with_active_id p input_amount a_to_b active_id arrays =
    bin_output p input_amount a_to_b active_id arrays

unfoldable pub quote : PoolState → ℕ → Bool → Option (List DlmmBinArray) → Outcome ℕ
quote p input_amount a_to_b bin_arrays = do
  active_id ← of_option p.current_tick
  bins ← of_option bin_arrays
  elim bins [ [] ↦ nothing | arr ∷ rest ↦ bin_output p input_amount a_to_b active_id (arr ∷ rest) ]

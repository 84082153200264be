-- ===== src/Quote/Dispatch.antt =====
-- The dispatcher of src/router/pool.rs: which quoting code a pool's kind selects.
use engine_mev.Base.{ℕ, Bool, Option, none, some, List, ◌==◌, if◌then◌else◌}
use engine_mev.Base.Float.{F64}
use engine_mev.Base.Int.{ℤ}
use engine_mev.Base.Outcome.{Outcome, ret, nothing, or_else}
use engine_mev.Pool.{
  DexType, raydium_amm, raydium_clmm, raydium_cp, orca_whirlpool, meteora_dlmm, meteora_damm_v2,
  sanctum_infinity, phoenix, manifest, pump_swap, PoolState, DlmmBinArray, ClmmTickArray,
}
use engine_mev.Quote.Cpmm
use engine_mev.Quote.Dlmm
use engine_mev.Quote.ClmmOrca
use engine_mev.Quote.ClmmRaydium
use engine_mev.Quote.Phoenix
use engine_mev.Quote.Manifest
use engine_mev.Quote.DammV2
use engine_mev.Quote.Sanctum
pub mod Bounds

module _ (fl : F64) where
  -- The `match` on the kind of the pool.
  unfoldable pub quote_by_type :
      DexType
      → PoolState
      → ℕ
      → Bool
      → Option (List DlmmBinArray)
      → Option (List ClmmTickArray)
      → Outcome ℕ
  quote_by_type meteora_dlmm p x d bins ticks =
      let fallback = Cpmm.quote p x d in or_else (Dlmm.quote p x d bins) fallback
  quote_by_type orca_whirlpool p x d bins ticks =
      let fallback = Cpmm.quote p x d in or_else (ClmmOrca.quote fl p x d ticks) fallback
  quote_by_type raydium_clmm p x d bins ticks =
      let fallback = Cpmm.quote p x d in or_else (ClmmRaydium.quote fl p x d ticks) fallback
  quote_by_type phoenix p x d bins ticks = Phoenix.quote p x d
  quote_by_type manifest p x d bins ticks = Manifest.quote p x d
  quote_by_type meteora_damm_v2 p x d bins ticks = DammV2.quote p x d
  quote_by_type sanctum_infinity p x d bins ticks = Sanctum.quote p x d
  quote_by_type raydium_amm p x d bins ticks = Cpmm.quote p x d
  quote_by_type raydium_cp p x d bins ticks = Cpmm.quote p x d
  quote_by_type pump_swap p x d bins ticks = Cpmm.quote p x d

  unfoldable pub get_output_amount_with_cache :
      PoolState → ℕ → Bool → Option (List DlmmBinArray) → Option (List ClmmTickArray) → Outcome ℕ
  get_output_amount_with_cache p input_amount a_to_b bins ticks =
      let quoted = quote_by_type p.dex_type p input_amount a_to_b bins ticks in
      if input_amount == 0 then ret 0 else quoted

  unfoldable pub get_output_amount_with_bins :
      PoolState → ℕ → Bool → Option (List DlmmBinArray) → Outcome ℕ
  get_output_amount_with_bins p input_amount a_to_b bins =
      get_output_amount_with_cache p input_amount a_to_b bins none

  unfoldable pub get_output_amount : PoolState → ℕ → Bool → Outcome ℕ
  get_output_amount p input_amount a_to_b =
      get_output_amount_with_cache p input_amount a_to_b none none

unfoldable pub get_dlmm_bin_output : PoolState → ℕ → Bool → ℤ → List DlmmBinArray → Outcome ℕ
get_dlmm_bin_output p input_amount a_to_b active_id arrays =
    let quoted = Dlmm.quote_with_active_id p input_amount a_to_b active_id arrays in
    if input_amount == 0 then ret 0 else quoted

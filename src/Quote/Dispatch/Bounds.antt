-- ===== src/Quote/Dispatch/Bounds.antt =====
-- Every quote fits a `u64`, whatever kind the pool is of.
use engine_mev.Base.{
  ℕ, ◌<◌, ◌≡◌, Bool, true, false, Option, none, some, List, [], ◌∷◌, ◌==◌, ltb, arith,
  if◌then◌else◌, ◌&&◌,
}
use engine_mev.Base.Float.{F64}
use engine_mev.Base.Outcome.{
  Outcome, ret, nothing, panic, or_else, ◌>>=◌, >>=-use, of_option, reject_if,
}
use engine_mev.Base.Word.{u64_mod}
use engine_mev.Pool.{
  DexType, raydium_amm, raydium_clmm, raydium_cp, orca_whirlpool, meteora_dlmm, meteora_damm_v2,
  sanctum_infinity, phoenix, manifest, pump_swap, PoolState, DlmmBinArray, ClmmTickArray,
}
use engine_mev.Quote.Cpmm
use engine_mev.Quote.Cpmm.Laws.{swap_output-eq_ret}
use engine_mev.Base.Int.{ℤ}
use engine_mev.Quote.Clmm
use engine_mev.Quote.Clmm.Single.{single_tick_down-eq_ret, single_tick_up-eq_ret}
use engine_mev.Quote.ClmmOrca
use engine_mev.Quote.ClmmRaydium
use engine_mev.Quote.DammV2
use engine_mev.Quote.Dlmm
use engine_mev.Quote.Manifest
use engine_mev.Quote.OrderBook.{phoenix_sell, phoenix_buy, manifest_sell, manifest_buy}
use engine_mev.Quote.Phoenix
use engine_mev.Quote.Sanctum
use engine_mev.Quote.TickWalk
use engine_mev.Quote.Dispatch.{quote_by_type, get_output_amount_with_cache}

abbrev Fits : Outcome ℕ → Type 0
Fits m = (y : ℕ) → m ≡ ret y → y < u64_mod

or_else-Fits : (m k : Outcome ℕ) → Fits m → Fits k → Fits (or_else m k)
or_else-Fits (ret a) k hm hk = hm
or_else-Fits nothing k hm hk = hk
or_else-Fits panic k hm hk = hm

>>=-Fits :
    {A : Type 0} (m : Outcome A) (f : A → Outcome ℕ) → ((a : A) → Fits (f a)) → Fits (m >>= f)
>>=-Fits m f h y e = >>=-use m f e λ a _ rest. h a y rest

narrow-Fits : (n : ℕ) → Fits (Clmm.narrow n)
narrow-Fits n y e = ground arith

if-Fits : (b : Bool) (m k : Outcome ℕ) → Fits m → Fits k → Fits (if b then m else k)
if-Fits true m k hm hk = hm
if-Fits false m k hm hk = hk

zero-Fits : Fits (ret 0)
zero-Fits y e = ground arith

nothing-Fits : Fits nothing
nothing-Fits y e = cc

cpmm-Fits :
    (p : PoolState) (x : ℕ) (d : Bool)
    → p.token_a_reserve < u64_mod
    → p.token_b_reserve < u64_mod
    → Fits (Cpmm.quote p x d)
unfolding Cpmm.quote Cpmm.reserve_out
cpmm-Fits p x true a b y e = omega (arith, swap_output-eq_ret _ _ _ x e)
cpmm-Fits p x false a b y e = omega (arith, swap_output-eq_ret _ _ _ x e)

single-Fits : (f s l x : ℕ) (d : Bool) → Fits (Clmm.clmm_single_tick_output f s l x d)
unfolding Clmm.clmm_single_tick_output
single-Fits f s l x d = >>=-Fits (Clmm.input_after_fee f x) _ λ a. if-Fits (a == 0) _ _ zero-Fits (
    if-Fits d _ _ (λ y e. (single_tick_down-eq_ret s l a e).3)
      (λ y e. (single_tick_up-eq_ret s l a e).1))

phoenix-Fits : (p : PoolState) (x : ℕ) (d : Bool) → Fits (Phoenix.quote p x d)
unfolding Phoenix.quote
phoenix-Fits p x d =
    >>=-Fits (Phoenix.after_fee p x) _
      λ a. if-Fits d _ _ (λ y e. (phoenix_sell p a e).3) (λ y e. (phoenix_buy p a e).3)

manifest-Fits : (p : PoolState) (x : ℕ) (d : Bool) → Fits (Manifest.quote p x d)
unfolding Manifest.quote
manifest-Fits p x d =
    >>=-Fits (Manifest.after_fee p x) _
      λ a. if-Fits d _ _ (λ y e. (manifest_sell p a e).3) (λ y e. (manifest_buy p a e).3)

bin_output-Fits :
    (p : PoolState) (x : ℕ) (d : Bool) (id : ℤ) (arrays : List DlmmBinArray)
    → Fits (Dlmm.bin_output p x d id arrays)
unfolding Dlmm.bin_output
bin_output-Fits p x d id arrays = if-Fits (x == 0) _ _ zero-Fits (
    >>=-Fits (reject_if _) _
      λ _. >>=-Fits (Dlmm.bin_walk _ _ _ d arrays _) _ λ w. narrow-Fits w.total_out)

dlmm-Fits :
    (p : PoolState) (x : ℕ) (d : Bool) (bins : Option (List DlmmBinArray))
    → Fits (Dlmm.quote p x d bins)
unfolding Dlmm.quote
dlmm-Fits p x d none = >>=-Fits (of_option p.current_tick) _ λ id. nothing-Fits
dlmm-Fits p x d (some []) = >>=-Fits (of_option p.current_tick) _ λ id. nothing-Fits
dlmm-Fits p x d (some (arr ∷ rest)) =
    >>=-Fits (of_option p.current_tick) _ λ id. bin_output-Fits p x d id (arr ∷ rest)

-- The two quotes that take a price and a liquidity, over the values of the two fields.
priced-Fits :
    (s l : Option ℕ) (at : ℕ → ℕ → Outcome ℕ) (other : Outcome ℕ)
    → ((a b : ℕ) → Fits (at a b))
    → Fits other
    → Fits (elim s [
      | none ↦ other
      | some a ↦ elim l [ none ↦ other | some b ↦ if ltb 0 a && ltb 0 b then at a b else other ]
    ])
priced-Fits none l at other ha ho = ho
priced-Fits (some a) none at other ha ho = ho
priced-Fits (some a) (some b) at other ha ho = if-Fits (ltb 0 a && ltb 0 b) _ _ (ha a b) ho

module _ (fl : F64) where
  orca-Fits :
      (p : PoolState) (x : ℕ) (d : Bool) (ticks : Option (List ClmmTickArray))
      → Fits (ClmmOrca.quote fl p x d ticks)
  unfolding ClmmOrca.quote ClmmOrca.quote_at ClmmOrca.multi_tick_output
  orca-Fits p x d none =
      priced-Fits p.sqrt_price_x64 p.liquidity _ _ (λ s l. single-Fits p.fee_bps s l x d)
        nothing-Fits
  orca-Fits p x d (some []) =
      priced-Fits p.sqrt_price_x64 p.liquidity _ _ (λ s l. single-Fits p.fee_bps s l x d)
        nothing-Fits
  orca-Fits p x d (some (arr ∷ rest)) =
      priced-Fits p.sqrt_price_x64 p.liquidity _ _
        (λ s l. >>=-Fits (Clmm.input_after_fee p.fee_bps x) _ λ a. if-Fits (a == 0) _ _ zero-Fits (
          >>=-Fits (TickWalk.walk fl _ d _ _) _
            λ w. >>=-Fits (TickWalk.last_range d w) _ λ n. narrow-Fits n))
        nothing-Fits

  raydium-Fits :
      (p : PoolState) (x : ℕ) (d : Bool) (ticks : Option (List ClmmTickArray))
      → Fits (ClmmRaydium.quote fl p x d ticks)
  unfolding ClmmRaydium.quote ClmmRaydium.quote_at ClmmRaydium.multi_tick_output
  raydium-Fits p x d none =
      priced-Fits p.sqrt_price_x64 p.liquidity _ _ (λ s l. single-Fits p.fee_bps s l x d)
        nothing-Fits
  raydium-Fits p x d (some []) =
      priced-Fits p.sqrt_price_x64 p.liquidity _ _ (λ s l. single-Fits p.fee_bps s l x d)
        nothing-Fits
  raydium-Fits p x d (some (arr ∷ rest)) =
      priced-Fits p.sqrt_price_x64 p.liquidity _ _
        (λ s l. >>=-Fits (Clmm.input_after_fee p.fee_bps x) _ λ a. if-Fits (a == 0) _ _ zero-Fits (
          >>=-Fits (TickWalk.walk fl _ d _ _) _
            λ w. >>=-Fits (TickWalk.last_range d w) _ λ n. narrow-Fits n))
        nothing-Fits

  module _ (p : PoolState) (x : ℕ) (d : Bool) (fit_a : p.token_a_reserve < u64_mod)
      (fit_b : p.token_b_reserve < u64_mod) where
    damm-Fits : Fits (DammV2.quote p x d)
    unfolding DammV2.quote
    damm-Fits =
        priced-Fits p.sqrt_price_x64 p.liquidity _ _ (λ s l. single-Fits p.fee_bps s l x d)
          (cpmm-Fits p x d fit_a fit_b)

    sanctum-Fits : Fits (Sanctum.quote p x d)
    unfolding Sanctum.quote
    sanctum-Fits =
        priced-Fits p.sqrt_price_x64 p.liquidity _ _ (λ s l. single-Fits p.fee_bps s l x d)
          (cpmm-Fits p x d fit_a fit_b)

    by_type-Fits :
        (t : DexType) (bins : Option (List DlmmBinArray)) (ticks : Option (List ClmmTickArray))
        → Fits (quote_by_type fl t p x d bins ticks)
    unfolding quote_by_type
    by_type-Fits meteora_dlmm bins ticks =
        or_else-Fits _ _ (dlmm-Fits p x d bins) (cpmm-Fits p x d fit_a fit_b)
    by_type-Fits orca_whirlpool bins ticks =
        or_else-Fits _ _ (orca-Fits p x d ticks) (cpmm-Fits p x d fit_a fit_b)
    by_type-Fits raydium_clmm bins ticks =
        or_else-Fits _ _ (raydium-Fits p x d ticks) (cpmm-Fits p x d fit_a fit_b)
    by_type-Fits phoenix bins ticks = phoenix-Fits p x d
    by_type-Fits manifest bins ticks = manifest-Fits p x d
    by_type-Fits meteora_damm_v2 bins ticks = damm-Fits
    by_type-Fits sanctum_infinity bins ticks = sanctum-Fits
    by_type-Fits raydium_amm bins ticks = cpmm-Fits p x d fit_a fit_b
    by_type-Fits raydium_cp bins ticks = cpmm-Fits p x d fit_a fit_b
    by_type-Fits pump_swap bins ticks = cpmm-Fits p x d fit_a fit_b

  -- Every quote of a pool fits 64 bits, whatever the kind of the pool and whatever the cached bins
  -- and ticks hold, when the two reserves do: the casts of the results lose nothing.
  pub quote_fits_u64 :
      (p : PoolState) (x : ℕ) (d : Bool) (bins : Option (List DlmmBinArray))
      (ticks : Option (List ClmmTickArray)) {y : ℕ}
      → p.token_a_reserve < u64_mod
      → p.token_b_reserve < u64_mod
      → get_output_amount_with_cache fl p x d bins ticks ≡ ret y
      → y < u64_mod
  unfolding get_output_amount_with_cache
  quote_fits_u64 p x d bins ticks {y} fit_a fit_b h =
      if-Fits (x == 0) _ _ zero-Fits (by_type-Fits p x d fit_a fit_b p.dex_type bins ticks) y h

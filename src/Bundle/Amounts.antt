-- ===== src/Bundle/Amounts.antt =====
-- The amount that the guard writes into a swap: `amount_in_offset` of src/executor/bundle.rs against
-- the layout of each exchange's data.
use engine_mev.Base.{ℕ, ◌≡◌, Bool, true, false, Option, none, some, ◌==◌, refl, arith}
use engine_mev.Base.Outcome.{Outcome, ret, of_option, ◌>>=◌}
use engine_mev.Cache.{get_any, get_mint_program}
use engine_mev.Pool.{
  Pubkey, PoolState, DexType, raydium_amm, raydium_clmm, raydium_cp, orca_whirlpool, meteora_dlmm,
  meteora_damm_v2, sanctum_infinity, phoenix, manifest, pump_swap, RouteHop,
}
use engine_mev.Swap.{Instruction, SolanaSdk}
use engine_mev.Swap.Rewritten
use engine_mev.Swap.Rewritten.{with_amount}
use engine_mev.Bundle.{BundleBuilder, build_by_type, build_swap_instruction_with_min_out}
use engine_mev.Bundle.Execute.{amount_in_offset}

-- Whether a pool that may be in the cache sells its first token for a mint.
abbrev sells : Option PoolState → Pubkey → Bool
sells none mint = false
sells (some pool) mint = mint == pool.token_a_mint

-- The swaps whose data has its input amount at `amount_in_offset`: those of the six exchanges, and
-- the sales of PumpSwap.
unfoldable pub takes_amount : DexType → BundleBuilder → RouteHop → Bool
takes_amount raydium_amm b hop = true
takes_amount raydium_clmm b hop = true
takes_amount raydium_cp b hop = true
takes_amount orca_whirlpool b hop = true
takes_amount meteora_dlmm b hop = true
takes_amount meteora_damm_v2 b hop = true
takes_amount sanctum_infinity b hop = false
takes_amount phoenix b hop = false
takes_amount manifest b hop = false
takes_amount pump_swap b hop = sells (get_any b.state_cache hop.pool_address) hop.input_mint

-- A pool that is in the cache is the same one for both amounts.
through_cache :
    (o : Option PoolState) (f g : PoolState → Outcome Instruction) (ix ix' : Instruction)
    → ((pool : PoolState) → o ≡ some pool → f pool ≡ ret ix → g pool ≡ ret ix')
    → (of_option o >>= f) ≡ ret ix
    → (of_option o >>= g) ≡ ret ix'
through_cache none f g ix ix' k h = cc
through_cache (some pool) f g ix ix' k h = k pool refl h

module _ (sdk : SolanaSdk) (b : BundleBuilder) (hop : RouteHop) (a x min_out : ℕ)
    (ix : Instruction) where
  by_type :
      (t : DexType)
      → takes_amount t b hop ≡ true
      → build_by_type sdk t b hop a min_out ≡ ret ix
      → build_by_type sdk t b hop x min_out ≡ ret (with_amount (amount_in_offset t) x ix)
  unfolding build_by_type takes_amount amount_in_offset
  by_type raydium_amm e h =
      through_cache (get_any b.state_cache hop.pool_address) _ _ ix (with_amount 1 x ix)
        (λ pool q. Rewritten.raydium_amm sdk b.signer pool hop.input_mint a x min_out ix) h
  by_type raydium_clmm e h =
      through_cache (get_any b.state_cache hop.pool_address) _ _ ix (with_amount 8 x ix)
        (λ pool q. Rewritten.raydium_clmm sdk b.signer pool hop.input_mint a x min_out ix) h
  by_type raydium_cp e h =
      through_cache (get_any b.state_cache hop.pool_address) _ _ ix (with_amount 8 x ix)
        (λ pool q. Rewritten.raydium_cp sdk b.signer pool hop.input_mint a x min_out ix) h
  by_type orca_whirlpool e h =
      through_cache (get_any b.state_cache hop.pool_address) _ _ ix (with_amount 8 x ix)
        (λ pool q. Rewritten.orca sdk b.signer pool hop.input_mint a x min_out ix) h
  by_type meteora_damm_v2 e h =
      through_cache (get_any b.state_cache hop.pool_address) _ _ ix (with_amount 8 x ix)
        (λ pool q. Rewritten.damm_v2 sdk b.signer pool hop.input_mint a x min_out ix) h
  by_type meteora_dlmm e h =
      through_cache (get_any b.state_cache hop.pool_address) _ _ ix (with_amount 8 x ix)
        (λ pool q.
          Rewritten.dlmm sdk b.signer pool hop.input_mint a x min_out ix
            (get_mint_program b.state_cache pool.token_a_mint)
            (get_mint_program b.state_cache pool.token_b_mint))
        h
  by_type pump_swap e h =
      through_cache (get_any b.state_cache hop.pool_address) _ _ ix (with_amount 8 x ix)
        (λ pool q.
          Rewritten.pumpswap_sell sdk b.signer pool hop.input_mint a x min_out ix
            (ground (arith, rw (q) at e)))
        h
  by_type sanctum_infinity e h = cc
  by_type phoenix e h = cc
  by_type manifest e h = cc

  -- What the guard writes at the builder's offset is the instruction that the builder makes for that
  -- amount: for every swap whose data has its input amount there, the instruction for any amount is
  -- the one for any other amount, rewritten.
  pub build_swap_instruction_with_min_out-with_amount :
      takes_amount hop.dex_type b hop ≡ true
      → build_swap_instruction_with_min_out sdk b hop a min_out ≡ ret ix
      → build_swap_instruction_with_min_out sdk b hop x min_out
        ≡ ret (with_amount (amount_in_offset hop.dex_type) x ix)
  unfolding build_swap_instruction_with_min_out
  build_swap_instruction_with_min_out-with_amount = by_type hop.dex_type

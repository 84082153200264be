-- ===== src/Swap/Rewritten.antt =====
-- The instruction that a builder makes for one amount is the one for another, rewritten.
use engine_mev.Base.{ℕ, ◌==◌, ◌≡◌, [], ◌∷◌, ◌++◌, arith, Option, if◌then◌else◌}
use engine_mev.Base.Bytes.{to_le_bytes}
use engine_mev.Base.Outcome.{ret}
use engine_mev.Pool.{Pubkey, PoolState}
use engine_mev.Guard.Execute.{rewrite_amount}
use engine_mev.Guard.Execute.Rewrite.{rewrite_amount_word}
use engine_mev.Swap.{Instruction, SolanaSdk}
use engine_mev.Swap.RaydiumAmm.{build_raydium_amm_swap_ix}
use engine_mev.Swap.RaydiumCp.{build_raydium_cp_swap_ix}
use engine_mev.Swap.RaydiumClmm.{build_raydium_clmm_swap_ix}
use engine_mev.Swap.Orca.{build_orca_whirlpool_swap_ix}
use engine_mev.Swap.Dlmm.{build_meteora_dlmm_swap_ix}
use engine_mev.Swap.DammV2.{build_damm_v2_swap_ix}
use engine_mev.Swap.PumpSwap.{build_pumpswap_swap_ix, sell_data}

-- The instruction with the amount written at an offset of its data.
abbrev pub with_amount : ℕ → ℕ → Instruction → Instruction
with_amount offset x ix = record ix { ix_data = rewrite_amount offset x ix.ix_data }

module _ (sdk : SolanaSdk) (signer : Pubkey) (pool : PoolState) (m : Pubkey) (a x min_out : ℕ)
    (ix : Instruction) where
  pub raydium_amm :
      build_raydium_amm_swap_ix sdk signer pool m a min_out ≡ ret ix
      → build_raydium_amm_swap_ix sdk signer pool m x min_out ≡ ret (with_amount 1 x ix)
  unfolding build_raydium_amm_swap_ix
  raydium_amm h = ground (arith, rewrite_amount_word (16 ∷ []) (to_le_bytes 8 min_out) a x)

  pub raydium_cp :
      build_raydium_cp_swap_ix sdk signer pool m a min_out ≡ ret ix
      → build_raydium_cp_swap_ix sdk signer pool m x min_out ≡ ret (with_amount 8 x ix)
  unfolding build_raydium_cp_swap_ix
  raydium_cp h = ground (
    arith,
    rewrite_amount_word (0x8f ∷ 0xbe ∷ 0x5a ∷ 0xda ∷ 0xc4 ∷ 0x1e ∷ 0x33 ∷ 0xde ∷ [])
        (to_le_bytes 8 min_out) a x,
  )

  pub raydium_clmm :
      build_raydium_clmm_swap_ix sdk signer pool m a min_out ≡ ret ix
      → build_raydium_clmm_swap_ix sdk signer pool m x min_out ≡ ret (with_amount 8 x ix)
  unfolding build_raydium_clmm_swap_ix
  raydium_clmm h = ground (
    arith,
    rewrite_amount_word (0x2b ∷ 0x04 ∷ 0xed ∷ 0x0b ∷ 0x1a ∷ 0xc9 ∷ 0x1e ∷ 0x62 ∷ [])
        (to_le_bytes 8 min_out ++ (to_le_bytes 16 0 ++ (1 ∷ []))) a x,
  )

  pub orca :
      build_orca_whirlpool_swap_ix sdk signer pool m a min_out ≡ ret ix
      → build_orca_whirlpool_swap_ix sdk signer pool m x min_out ≡ ret (with_amount 8 x ix)
  unfolding build_orca_whirlpool_swap_ix
  orca h = ground (
    arith,
    rewrite_amount_word (0x2b ∷ 0x04 ∷ 0xed ∷ 0x0b ∷ 0x1a ∷ 0xc9 ∷ 0x1e ∷ 0x62 ∷ [])
        (to_le_bytes 8 min_out
          ++ (to_le_bytes 16
                (if m == pool.token_a_mint then 4295048016 else 79226673515401279992447579055)
              ++ (1 ∷ (if m == pool.token_a_mint then 1 else 0) ∷ 0 ∷ [])))
        a x,
  )

  pub dlmm :
      (mint_a mint_b : Option Pubkey)
      → build_meteora_dlmm_swap_ix sdk signer pool m a min_out mint_a mint_b ≡ ret ix
      → build_meteora_dlmm_swap_ix sdk signer pool m x min_out mint_a mint_b
        ≡ ret (with_amount 8 x ix)
  unfolding build_meteora_dlmm_swap_ix
  dlmm mint_a mint_b h = ground (
    arith,
    rewrite_amount_word (0x41 ∷ 0x4b ∷ 0x3f ∷ 0x4c ∷ 0xeb ∷ 0x5b ∷ 0x5b ∷ 0x88 ∷ [])
        (to_le_bytes 8 min_out ++ to_le_bytes 4 0) a x,
  )

  pub damm_v2 :
      build_damm_v2_swap_ix sdk signer pool m a min_out ≡ ret ix
      → build_damm_v2_swap_ix sdk signer pool m x min_out ≡ ret (with_amount 8 x ix)
  unfolding build_damm_v2_swap_ix
  damm_v2 h = ground (
    arith,
    rewrite_amount_word (0x41 ∷ 0x4b ∷ 0x3f ∷ 0x4c ∷ 0xeb ∷ 0x5b ∷ 0x5b ∷ 0x88 ∷ [])
        (to_le_bytes 8 min_out ++ (0 ∷ [])) a x,
  )

  pub pumpswap_sell :
      m ≡ pool.token_a_mint
      → build_pumpswap_swap_ix sdk signer pool m a min_out ≡ ret ix
      → build_pumpswap_swap_ix sdk signer pool m x min_out ≡ ret (with_amount 8 x ix)
  unfolding build_pumpswap_swap_ix sell_data
  pumpswap_sell e h = ground (
    arith,
    e,
    rewrite_amount_word (51 ∷ 230 ∷ 133 ∷ 164 ∷ 1 ∷ 127 ∷ 131 ∷ 173 ∷ []) (to_le_bytes 8 min_out) a
        x,
  )

-- ===== src/Swap/RaydiumAmm.antt =====
-- SwapBaseInV2 of Raydium AMM v4, src/executor/swaps/raydium_amm.rs.
use engine_mev.Base.{ℕ, true, false, [], ◌∷◌, ◌++◌, ◌==◌}
use engine_mev.Base.Bytes.{to_le_bytes}
use engine_mev.Base.Outcome.{Outcome, ret, of_option, ◌>>=◌}
use engine_mev.Pool.{Pubkey, PoolState}
use engine_mev.Addresses
use engine_mev.Swap.{Instruction, SolanaSdk, account, readonly, derive_ata, output_mint}

module _ (sdk : SolanaSdk) where
  unfoldable pub build_raydium_amm_swap_ix :
      Pubkey → PoolState → Pubkey → ℕ → ℕ → Outcome Instruction
  build_raydium_amm_swap_ix signer pool input_mint amount_in minimum_amount_out = do
    vault_a ← of_option pool.extra.vault_a
    vault_b ← of_option pool.extra.vault_b
    nonce ← of_option pool.extra.amm_nonce
    amm_authority ← of_option (sdk.create_program_address ((nonce ∷ []) ∷ []) Addresses.raydium_amm)
    let a_to_b = input_mint == pool.token_a_mint
    let user_source_ata = derive_ata sdk signer input_mint
    let user_dest_ata = derive_ata sdk signer (output_mint pool a_to_b)
    ret (record {
      program_id = Addresses.raydium_amm;
      accounts =
          readonly Addresses.spl_token false
          ∷ account pool.address false
          ∷ readonly amm_authority false
          ∷ account vault_a false
          ∷ account vault_b false
          ∷ account user_source_ata false
          ∷ account user_dest_ata false
          ∷ readonly signer true
          ∷ [];
      ix_data = (16 ∷ []) ++ (to_le_bytes 8 amount_in ++ to_le_bytes 8 minimum_amount_out);
    })

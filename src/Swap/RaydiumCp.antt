-- ===== src/Swap/RaydiumCp.antt =====
-- swap_base_in of Raydium CP-Swap, src/executor/swaps/raydium_cp.rs.
use engine_mev.Base.{ℕ, true, false, [], ◌∷◌, ◌++◌, ◌==◌, if◌then◌else◌}
use engine_mev.Base.Bytes.{to_le_bytes}
use engine_mev.Base.Outcome.{Outcome, ret, of_option, ◌>>=◌}
use engine_mev.Pool.{Pubkey, PoolState}
use engine_mev.Addresses
use engine_mev.Swap.{
  Instruction, SolanaSdk, account, readonly, seed, key_bytes, derive_ata_with_program, output_mint,
}

module _ (sdk : SolanaSdk) where
  unfoldable pub build_raydium_cp_swap_ix :
      Pubkey → PoolState → Pubkey → ℕ → ℕ → Outcome Instruction
  build_raydium_cp_swap_ix signer pool input_mint amount_in minimum_amount_out = do
    vault_a ← of_option pool.extra.vault_a
    vault_b ← of_option pool.extra.vault_b
    amm_config ← of_option pool.extra.config
    token_prog_a ← of_option pool.extra.token_program_a
    token_prog_b ← of_option pool.extra.token_program_b
    let authority =
        sdk.find_program_address (seed "vault_and_lp_mint_auth_seed" ∷ []) Addresses.raydium_cp
    let observation =
        sdk.find_program_address (seed "observation" ∷ key_bytes pool.address ∷ [])
          Addresses.raydium_cp
    let a_to_b = input_mint == pool.token_a_mint
    let input_vault = if a_to_b then vault_a else vault_b
    let output_vault = if a_to_b then vault_b else vault_a
    let input_token_prog = if a_to_b then token_prog_a else token_prog_b
    let output_token_prog = if a_to_b then token_prog_b else token_prog_a
    let out_mint = output_mint pool a_to_b
    let user_input_ata = derive_ata_with_program sdk signer input_mint input_token_prog
    let user_output_ata = derive_ata_with_program sdk signer out_mint output_token_prog
    ret (record {
      program_id = Addresses.raydium_cp;
      accounts =
          account signer true
          ∷ readonly authority false
          ∷ readonly amm_config false
          ∷ account pool.address false
          ∷ account user_input_ata false
          ∷ account user_output_ata false
          ∷ account input_vault false
          ∷ account output_vault false
          ∷ readonly input_token_prog false
          ∷ readonly output_token_prog false
          ∷ readonly input_mint false
          ∷ readonly out_mint false
          ∷ account observation false
          ∷ [];
      ix_data =
          (0x8f ∷ 0xbe ∷ 0x5a ∷ 0xda ∷ 0xc4 ∷ 0x1e ∷ 0x33 ∷ 0xde ∷ [])
          ++ (to_le_bytes 8 amount_in ++ to_le_bytes 8 minimum_amount_out);
    })

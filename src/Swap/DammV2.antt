-- ===== src/Swap/DammV2.antt =====
-- swap of Meteora DAMM v2, src/executor/swaps/meteora_damm_v2.rs.
use engine_mev.Base.{ℕ, true, false, [], ◌∷◌, ◌++◌, ◌==◌, if◌then◌else◌}
use engine_mev.Base.Bytes.{to_le_bytes}
use engine_mev.Base.Outcome.{Outcome, ret, of_option, ◌>>=◌}
use engine_mev.Pool.{Pubkey, PoolState}
use engine_mev.Addresses
use engine_mev.Swap.{
  Instruction, SolanaSdk, account, readonly, seed, unwrap_or, derive_ata_with_program, output_mint,
}

module _ (sdk : SolanaSdk) where
  unfoldable pub build_damm_v2_swap_ix : Pubkey → PoolState → Pubkey → ℕ → ℕ → Outcome Instruction
  build_damm_v2_swap_ix signer pool input_mint amount_in minimum_amount_out = do
    vault_a ← of_option pool.extra.vault_a
    vault_b ← of_option pool.extra.vault_b
    let pool_authority = sdk.find_program_address [] Addresses.meteora_damm_v2
    let event_authority =
        sdk.find_program_address (seed "__event_authority" ∷ []) Addresses.meteora_damm_v2
    let a_to_b = input_mint == pool.token_a_mint
    let input_vault = if a_to_b then vault_a else vault_b
    let output_vault = if a_to_b then vault_b else vault_a
    let out_mint = output_mint pool a_to_b
    let token_program_a = unwrap_or pool.extra.token_program_a Addresses.spl_token
    let token_program_b = unwrap_or pool.extra.token_program_b Addresses.spl_token
    let input_token_program = if a_to_b then token_program_a else token_program_b
    let output_token_program = if a_to_b then token_program_b else token_program_a
    let user_input_ata = derive_ata_with_program sdk signer input_mint input_token_program
    let user_output_ata = derive_ata_with_program sdk signer out_mint output_token_program
    ret (record {
      program_id = Addresses.meteora_damm_v2;
      accounts =
          account pool.address false
          ∷ readonly pool_authority false
          ∷ account input_vault false
          ∷ account output_vault false
          ∷ account user_input_ata false
          ∷ account user_output_ata false
          ∷ readonly input_mint false
          ∷ readonly out_mint false
          ∷ readonly input_token_program false
          ∷ readonly event_authority false
          ∷ readonly Addresses.meteora_damm_v2 false
          ∷ account signer true
          ∷ [];
      ix_data =
          (0x41 ∷ 0x4b ∷ 0x3f ∷ 0x4c ∷ 0xeb ∷ 0x5b ∷ 0x5b ∷ 0x88 ∷ [])
          ++ (to_le_bytes 8 amount_in ++ (to_le_bytes 8 minimum_amount_out ++ (0 ∷ [])));
    })

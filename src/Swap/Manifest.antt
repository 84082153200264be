-- ===== src/Swap/Manifest.antt =====
-- Swap of Manifest, src/executor/swaps/manifest.rs.
use engine_mev.Base.{ℕ, true, false, [], ◌∷◌, ◌++◌, ◌==◌, if◌then◌else◌}
use engine_mev.Base.Bytes.{to_le_bytes}
use engine_mev.Base.Outcome.{Outcome, ret, of_option, ◌>>=◌}
use engine_mev.Pool.{Pubkey, PoolState}
use engine_mev.Addresses
use engine_mev.Swap.{Instruction, SolanaSdk, account, readonly, derive_ata}

module _ (sdk : SolanaSdk) where
  unfoldable pub build_manifest_swap_ix : Pubkey → PoolState → Pubkey → ℕ → ℕ → Outcome Instruction
  build_manifest_swap_ix signer pool input_mint amount_in minimum_amount_out = do
    vault_a ← of_option pool.extra.vault_a
    vault_b ← of_option pool.extra.vault_b
    let is_base_in = if input_mint == pool.token_a_mint then 1 else 0
    let base_ata = derive_ata sdk signer pool.token_a_mint
    let quote_ata = derive_ata sdk signer pool.token_b_mint
    ret (record {
      program_id = Addresses.manifest;
      accounts =
          account signer true
          ∷ account pool.address false
          ∷ readonly sdk.system_program false
          ∷ account base_ata false
          ∷ account quote_ata false
          ∷ account vault_a false
          ∷ account vault_b false
          ∷ readonly Addresses.spl_token false
          ∷ [];
      ix_data =
          (4 ∷ [])
          ++ (to_le_bytes 8 amount_in
              ++ (to_le_bytes 8 minimum_amount_out ++ (is_base_in ∷ 1 ∷ [])));
    })

-- ===== src/Swap/PumpSwap.antt =====
-- Sell and buy of PumpSwap, src/executor/swaps/pumpswap.rs. Both lists of accounts begin with the
-- same nineteen.
use engine_mev.Base.{ℕ, true, false, List, [], ◌∷◌, ◌++◌, ◌==◌, if◌then◌else◌}
use engine_mev.Base.Bytes.{Bytes, to_le_bytes}
use engine_mev.Base.Outcome.{Outcome, ret, of_option, ◌>>=◌}
use engine_mev.Pool.{Pubkey, PoolState}
use engine_mev.Addresses
use engine_mev.Swap.{
  AccountMeta, Instruction, SolanaSdk, account, readonly, seed, key_bytes, unwrap_or, derive_ata,
  derive_ata_with_program,
}

-- The data of a sale, and of a purchase, whose amounts stand in the other order.
unfoldable pub sell_data : ℕ → ℕ → Bytes
sell_data amount_in minimum_amount_out =
    (51 ∷ 230 ∷ 133 ∷ 164 ∷ 1 ∷ 127 ∷ 131 ∷ 173 ∷ [])
    ++ (to_le_bytes 8 amount_in ++ to_le_bytes 8 minimum_amount_out)

unfoldable pub buy_data : ℕ → ℕ → Bytes
buy_data amount_in minimum_amount_out =
    (102 ∷ 6 ∷ 61 ∷ 18 ∷ 1 ∷ 218 ∷ 235 ∷ 234 ∷ [])
    ++ (to_le_bytes 8 minimum_amount_out ++ (to_le_bytes 8 amount_in ++ (0 ∷ [])))

module _ (sdk : SolanaSdk) where
  unfoldable pub pumpswap_accounts :
      Pubkey → PoolState → Pubkey → Pubkey → Pubkey → List AccountMeta → List AccountMeta
  pumpswap_accounts signer pool base_vault quote_vault coin_creator rest =
      let base_token_program = unwrap_or pool.extra.token_program_a Addresses.spl_token in
      let quote_token_program = unwrap_or pool.extra.token_program_b Addresses.spl_token in
      let user_base_ata = derive_ata_with_program sdk signer pool.token_a_mint base_token_program in
      let user_quote_ata = derive_ata sdk signer pool.token_b_mint in
      let coin_creator_vault_authority =
        sdk.find_program_address (seed "creator_vault" ∷ key_bytes coin_creator ∷ [])
          Addresses.pumpswap in
      let coin_creator_vault_ata = derive_ata sdk coin_creator_vault_authority pool.token_b_mint in
      let protocol_fee_recipient = Addresses.pumpswap_fee_recipient_1 in
      let protocol_fee_recipient_ata = derive_ata sdk protocol_fee_recipient pool.token_b_mint in
      account pool.address false
      ∷ account signer true
      ∷ readonly Addresses.pumpswap_global_config false
      ∷ readonly pool.token_a_mint false
      ∷ readonly pool.token_b_mint false
      ∷ account user_base_ata false
      ∷ account user_quote_ata false
      ∷ account base_vault false
      ∷ account quote_vault false
      ∷ readonly protocol_fee_recipient false
      ∷ account protocol_fee_recipient_ata false
      ∷ readonly base_token_program false
      ∷ readonly quote_token_program false
      ∷ readonly sdk.system_program false
      ∷ readonly Addresses.ata_program false
      ∷ readonly Addresses.pumpswap_event_authority false
      ∷ readonly Addresses.pumpswap false
      ∷ account coin_creator_vault_ata false
      ∷ readonly coin_creator_vault_authority false
      ∷ rest

  unfoldable pub sell_accounts : List AccountMeta
  sell_accounts =
      readonly Addresses.pumpswap_fee_config false
      ∷ readonly Addresses.pumpswap_fee_program false
      ∷ []

  unfoldable pub buy_accounts : Pubkey → List AccountMeta
  buy_accounts signer =
      let user_volume_accumulator =
        sdk.find_program_address (seed "user_volume_accumulator" ∷ key_bytes signer ∷ [])
          Addresses.pumpswap in
      account Addresses.pumpswap_global_volume_accumulator false
      ∷ account user_volume_accumulator false
      ∷ readonly Addresses.pumpswap_fee_config false
      ∷ readonly Addresses.pumpswap_fee_program false
      ∷ []

  unfoldable pub build_pumpswap_swap_ix : Pubkey → PoolState → Pubkey → ℕ → ℕ → Outcome Instruction
  build_pumpswap_swap_ix signer pool input_mint amount_in minimum_amount_out = do
    base_vault ← of_option pool.extra.vault_a
    quote_vault ← of_option pool.extra.vault_b
    coin_creator ← of_option pool.extra.coin_creator
    let is_sell = input_mint == pool.token_a_mint
    ret (record {
      program_id = Addresses.pumpswap;
      accounts =
          pumpswap_accounts signer pool base_vault quote_vault coin_creator
            (if is_sell then sell_accounts else buy_accounts signer);
      ix_data =
          if is_sell
          then sell_data amount_in minimum_amount_out
          else buy_data amount_in minimum_amount_out;
    })

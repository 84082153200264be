-- ===== src/Swap/Sanctum.antt =====
-- SwapExactIn of Sanctum Infinity, src/executor/swaps/sanctum.rs.
use engine_mev.Base.{ℕ, true, false, List, [], ◌∷◌, ◌++◌}
use engine_mev.Base.Bytes.{to_le_bytes}
use engine_mev.Base.Outcome.{Outcome, ret}
use engine_mev.Pool.{Pubkey}
use engine_mev.Addresses
use engine_mev.Swap.{
  AccountMeta, Instruction, SolanaSdk, account, readonly, seed, derive_ata, output_mint,
}
use engine_mev.Addresses.{sanctum_calculator_accounts}

module _ (sdk : SolanaSdk) where
  unfoldable pub sanctum_swap_accounts_v2 : Pubkey → Pubkey → Pubkey → List AccountMeta
  sanctum_swap_accounts_v2 signer input_mint output_mint =
      let pool_state_pda =
        sdk.find_program_address (seed "state" ∷ []) Addresses.sanctum_s_controller in
      let lst_state_list_pda =
        sdk.find_program_address (seed "lst-state-list" ∷ []) Addresses.sanctum_s_controller in
      let protocol_fee_pda =
        sdk.find_program_address (seed "protocol-fee" ∷ []) Addresses.sanctum_s_controller in
      let user_src_ata = derive_ata sdk signer input_mint in
      let user_dst_ata = derive_ata sdk signer output_mint in
      let protocol_fee_accumulator = derive_ata sdk protocol_fee_pda output_mint in
      let src_pool_reserves = derive_ata sdk pool_state_pda input_mint in
      let dst_pool_reserves = derive_ata sdk pool_state_pda output_mint in
      readonly signer true
      ∷ readonly input_mint false
      ∷ readonly output_mint false
      ∷ account user_src_ata false
      ∷ account user_dst_ata false
      ∷ account protocol_fee_accumulator false
      ∷ readonly Addresses.spl_token false
      ∷ readonly Addresses.spl_token false
      ∷ account pool_state_pda false
      ∷ account lst_state_list_pda false
      ∷ account src_pool_reserves false
      ∷ account dst_pool_reserves false
      ∷ []

  -- The calculators' accounts, which are all read only.
  abbrev all_readonly : List Pubkey → List AccountMeta
  all_readonly [] = []
  all_readonly (k ∷ ks) = readonly k false ∷ all_readonly ks

  unfoldable pub build_sanctum_swap_ix :
      Pubkey → Pubkey → Pubkey → ℕ → ℕ → ℕ → ℕ → Outcome Instruction
  build_sanctum_swap_ix signer input_mint output_mint amount_in minimum_amount_out src_lst_index
        dst_lst_index =
      let (src_calc_program, src_calc_suffix, src_calc_accs) =
        sanctum_calculator_accounts input_mint in
      let (dst_calc_program, dst_calc_suffix, dst_calc_accs) =
        sanctum_calculator_accounts output_mint in
      ret (record {
        program_id = Addresses.sanctum_s_controller;
        accounts =
            sanctum_swap_accounts_v2 signer input_mint output_mint
            ++ (all_readonly (src_calc_program ∷ src_calc_suffix)
                ++ (all_readonly (dst_calc_program ∷ dst_calc_suffix)
                    ++ all_readonly
                        (Addresses.sanctum_pricing ∷ Addresses.sanctum_pricing_state ∷ [])));
        ix_data =
            (0x01 ∷ src_calc_accs ∷ dst_calc_accs ∷ [])
            ++ (to_le_bytes 4 src_lst_index
                ++ (to_le_bytes 4 dst_lst_index
                    ++ (to_le_bytes 8 minimum_amount_out ++ to_le_bytes 8 amount_in)));
      })

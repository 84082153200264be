-- ===== src/Swap/Phoenix.antt =====
-- An ImmediateOrCancel order of Phoenix, src/executor/swaps/phoenix.rs.
use engine_mev.Base.{ℕ, true, false, [], ◌∷◌, ◌++◌, ◌==◌, if◌then◌else◌}
use engine_mev.Base.Bytes.{to_le_bytes}
use engine_mev.Base.Outcome.{Outcome, ret, of_option, ◌>>=◌}
use engine_mev.Pool.{Pubkey, PoolState}
use engine_mev.Addresses
use engine_mev.Swap.{Instruction, SolanaSdk, account, readonly, seed, derive_ata}

module _ (sdk : SolanaSdk) where
  unfoldable pub build_phoenix_swap_ix : Pubkey → PoolState → Pubkey → ℕ → ℕ → Outcome Instruction
  build_phoenix_swap_ix signer pool input_mint amount_in minimum_amount_out = do
    vault_a ← of_option pool.extra.vault_a
    vault_b ← of_option pool.extra.vault_b
    let log_authority = sdk.find_program_address (seed "log" ∷ []) Addresses.phoenix_v1
    let a_to_b = input_mint == pool.token_a_mint
    let side = if a_to_b then 0x01 else 0x00
    let base_ata = derive_ata sdk signer pool.token_a_mint
    let quote_ata = derive_ata sdk signer pool.token_b_mint
    ret (record {
      program_id = Addresses.phoenix_v1;
      accounts =
          readonly Addresses.phoenix_v1 false
          ∷ readonly log_authority false
          ∷ account pool.address false
          ∷ account signer true
          ∷ account base_ata false
          ∷ account quote_ata false
          ∷ account vault_a false
          ∷ account vault_b false
          ∷ readonly Addresses.spl_token false
          ∷ [];
      -- The instruction, the packet, the side, the price, the base and quote lots, the least base and
      -- quote lots, the two options, the order's id, and the flag for deposited funds.
      ix_data =
          (0x00 ∷ 0x01 ∷ side ∷ [])
          ++ (to_le_bytes 8 0
              ++ (to_le_bytes 8 amount_in
                  ++ (to_le_bytes 8 0
                      ++ (to_le_bytes 8 minimum_amount_out
                          ++ (to_le_bytes 8 0
                              ++ ((0x00 ∷ 0x00 ∷ []) ++ (to_le_bytes 16 0 ++ (0x00 ∷ []))))))));
    })

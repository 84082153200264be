-- ===== src/Swap/RaydiumClmm.antt =====
-- swap_v2 of Raydium CLMM, src/executor/swaps/raydium_clmm.rs.
use engine_mev.Base.{ℕ, Bool, true, false, [], ◌∷◌, ◌++◌, ◌==◌, if◌then◌else◌}
use engine_mev.Base.Bytes.{to_le_bytes}
use engine_mev.Base.Outcome.{Outcome, ret, of_option, ◌>>=◌}
use engine_mev.Pool.{Pubkey, PoolState}
use engine_mev.Addresses
use engine_mev.Swap.{
  Instruction, SolanaSdk, account, readonly, seed, key_bytes, unwrap_or, derive_ata_with_program,
  output_mint,
}
use engine_mev.Base.Bytes.{to_be_bytes}
use engine_mev.Base.Int.{ℤ, pos, negsuc}
use engine_mev.Base.Int32.{mul_i32, as_unsigned}
use engine_mev.Swap.{floor_div, array_starts, tick_or_zero}

-- The start indices of the three tick arrays that the swap may cross.
unfoldable pub clmm_array_starts : Bool → ℤ → ℕ → Outcome (ℤ × ℤ × ℤ)
clmm_array_starts a_to_b tick_current tick_spacing = do
  ticks_in_array ← mul_i32 (pos 60) (pos tick_spacing)
  base ← floor_div tick_current ticks_in_array
  start_base ← mul_i32 base ticks_in_array
  array_starts start_base ticks_in_array
      (if a_to_b then (pos 0, negsuc 0, negsuc 1) else (pos 0, pos 1, pos 2))

module _ (sdk : SolanaSdk) where
  unfoldable pub clmm_tick_array : Pubkey → ℤ → Pubkey
  clmm_tick_array pool start =
      sdk.find_program_address
        (seed "tick_array" ∷ key_bytes pool ∷ to_be_bytes 4 (as_unsigned 32 start) ∷ [])
        Addresses.raydium_clmm

  -- The token program of a side, by the mint that is on it.
  abbrev side_program : PoolState → Pubkey → Pubkey
  side_program pool mint =
      if mint == pool.token_a_mint
      then unwrap_or pool.extra.token_program_a Addresses.spl_token
      else unwrap_or pool.extra.token_program_b Addresses.spl_token

  unfoldable pub build_raydium_clmm_swap_ix :
      Pubkey → PoolState → Pubkey → ℕ → ℕ → Outcome Instruction
  build_raydium_clmm_swap_ix signer pool input_mint amount_in minimum_amount_out = do
    vault_a ← of_option pool.extra.vault_a
    vault_b ← of_option pool.extra.vault_b
    tick_spacing ← of_option pool.extra.tick_spacing
    amm_config ← of_option pool.extra.config
    observation_state ← of_option pool.extra.observation
    let a_to_b = input_mint == pool.token_a_mint
    let input_vault = if a_to_b then vault_a else vault_b
    let output_vault = if a_to_b then vault_b else vault_a
    let out_mint = output_mint pool a_to_b
    let user_input_ata =
        derive_ata_with_program sdk signer input_mint (side_program pool input_mint)
    let user_output_ata = derive_ata_with_program sdk signer out_mint (side_program pool out_mint)
    let bitmap_extension =
        sdk.find_program_address
          (seed "pool_tick_array_bitmap_extension" ∷ key_bytes pool.address ∷ [])
          Addresses.raydium_clmm
    (first, second, third) ← clmm_array_starts a_to_b (tick_or_zero pool.current_tick) tick_spacing
    ret (record {
      program_id = Addresses.raydium_clmm;
      accounts =
          account signer true
          ∷ readonly amm_config false
          ∷ account pool.address false
          ∷ account user_input_ata false
          ∷ account user_output_ata false
          ∷ account input_vault false
          ∷ account output_vault false
          ∷ account observation_state false
          ∷ readonly Addresses.spl_token false
          ∷ readonly Addresses.token_2022 false
          ∷ readonly Addresses.memo false
          ∷ readonly input_mint false
          ∷ readonly out_mint false
          ∷ account bitmap_extension false
          ∷ account (clmm_tick_array pool.address first) false
          ∷ account (clmm_tick_array pool.address second) false
          ∷ account (clmm_tick_array pool.address third) false
          ∷ [];
      ix_data =
          (0x2b ∷ 0x04 ∷ 0xed ∷ 0x0b ∷ 0x1a ∷ 0xc9 ∷ 0x1e ∷ 0x62 ∷ [])
          ++ (to_le_bytes 8 amount_in
              ++ (to_le_bytes 8 minimum_amount_out ++ (to_le_bytes 16 0 ++ (1 ∷ []))));
    })

-- ===== src/Swap/Orca.antt =====
-- swap_v2 of Orca Whirlpool, src/executor/swaps/orca.rs.
use engine_mev.Base.{ℕ, Bool, true, false, [], ◌∷◌, ◌++◌, ◌==◌, if◌then◌else◌}
use engine_mev.Base.Bytes.{to_le_bytes}
use engine_mev.Base.Outcome.{Outcome, ret, of_option, ◌>>=◌}
use engine_mev.Pool.{Pubkey, PoolState}
use engine_mev.Addresses
use engine_mev.Swap.{
  Instruction, SolanaSdk, account, readonly, seed, key_bytes, unwrap_or, derive_ata_with_program,
}
use engine_mev.Base.Int.{ℤ, pos, negsuc, leb_ℤ}
use engine_mev.Base.Int32.{add_i32, mul_i32, decimal}
use engine_mev.Swap.{floor_div, array_starts, tick_or_zero}

-- Which arrays the swap may cross, counted from the one of the current tick. The tests of the code
-- are those of an `i32`, and its sums panic on overflow.
unfoldable pub whirlpool_offsets : Bool → ℤ → ℤ → ℤ → ℤ → Outcome (ℤ × ℤ × ℤ)
whirlpool_offsets true tick_current tick_spacing start_base ticks_in_array =
    ret (pos 0, negsuc 0, negsuc 1)
whirlpool_offsets false tick_current tick_spacing start_base ticks_in_array = do
  shifted ← add_i32 tick_current tick_spacing
  end ← add_i32 start_base ticks_in_array
  ret (if leb_ℤ end shifted then (pos 1, pos 2, pos 3) else (pos 0, pos 1, pos 2))

unfoldable pub whirlpool_array_starts : Bool → ℤ → ℕ → Outcome (ℤ × ℤ × ℤ)
whirlpool_array_starts a_to_b tick_current tick_spacing = do
  ticks_in_array ← mul_i32 (pos 88) (pos tick_spacing)
  base ← floor_div tick_current ticks_in_array
  start_base ← mul_i32 base ticks_in_array
  offsets ← whirlpool_offsets a_to_b tick_current (pos tick_spacing) start_base ticks_in_array
  array_starts start_base ticks_in_array offsets

module _ (sdk : SolanaSdk) where
  unfoldable pub whirlpool_tick_array : Pubkey → ℤ → Pubkey
  whirlpool_tick_array pool start =
      sdk.find_program_address (seed "tick_array" ∷ key_bytes pool ∷ decimal start ∷ [])
        Addresses.orca_whirlpool

  unfoldable pub build_orca_whirlpool_swap_ix :
      Pubkey → PoolState → Pubkey → ℕ → ℕ → Outcome Instruction
  build_orca_whirlpool_swap_ix signer pool input_mint amount_in minimum_amount_out = do
    vault_a ← of_option pool.extra.vault_a
    vault_b ← of_option pool.extra.vault_b
    tick_spacing ← of_option pool.extra.tick_spacing
    let token_program_a = unwrap_or pool.extra.token_program_a Addresses.spl_token
    let token_program_b = unwrap_or pool.extra.token_program_b Addresses.spl_token
    let a_to_b = input_mint == pool.token_a_mint
    let oracle =
        sdk.find_program_address (seed "oracle" ∷ key_bytes pool.address ∷ [])
          Addresses.orca_whirlpool
    (first, second, third) ←
        whirlpool_array_starts a_to_b (tick_or_zero pool.current_tick) tick_spacing
    let sqrt_price_limit = if a_to_b then 4295048016 else 79226673515401279992447579055
    let user_ata_a = derive_ata_with_program sdk signer pool.token_a_mint token_program_a
    let user_ata_b = derive_ata_with_program sdk signer pool.token_b_mint token_program_b
    ret (record {
      program_id = Addresses.orca_whirlpool;
      accounts =
          readonly token_program_a false
          ∷ readonly token_program_b false
          ∷ readonly Addresses.memo false
          ∷ account signer true
          ∷ account pool.address false
          ∷ readonly pool.token_a_mint false
          ∷ readonly pool.token_b_mint false
          ∷ account user_ata_a false
          ∷ account vault_a false
          ∷ account user_ata_b false
          ∷ account vault_b false
          ∷ account (whirlpool_tick_array pool.address first) false
          ∷ account (whirlpool_tick_array pool.address second) false
          ∷ account (whirlpool_tick_array pool.address third) false
          ∷ account oracle false
          ∷ [];
      ix_data =
          (0x2b ∷ 0x04 ∷ 0xed ∷ 0x0b ∷ 0x1a ∷ 0xc9 ∷ 0x1e ∷ 0x62 ∷ [])
          ++ (to_le_bytes 8 amount_in
              ++ (to_le_bytes 8 minimum_amount_out
                  ++ (to_le_bytes 16 sqrt_price_limit
                      ++ (1 ∷ (if a_to_b then 1 else 0) ∷ 0 ∷ []))));
    })

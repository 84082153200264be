-- ===== src/Swap/Dlmm.antt =====
-- swap2 of Meteora DLMM, src/executor/swaps/meteora_dlmm.rs.
use engine_mev.Base.{ℕ, Bool, true, false, Option, none, some, [], ◌∷◌, ◌++◌, ◌==◌, if◌then◌else◌}
use engine_mev.Base.Bytes.{to_le_bytes}
use engine_mev.Base.Outcome.{Outcome, ret, of_option, ◌>>=◌}
use engine_mev.Pool.{Pubkey, PoolState}
use engine_mev.Addresses
use engine_mev.Swap.{
  AccountMeta, Instruction, SolanaSdk, account, readonly, seed, key_bytes, unwrap_or,
  derive_ata_with_program, output_mint,
}
use engine_mev.Base.{◌-◌, ◌||◌, ◌&&◌}
use engine_mev.Base.Int.{ℤ, pos, negsuc, ◌+ℤ◌, ◌-ℤ◌, leb_ℤ, ltb_ℤ, div_trunc}
use engine_mev.Base.Int32.{rem, is_zero, as_unsigned}
use engine_mev.Base.Outcome.{◌>>◌, reject_if}
use engine_mev.Swap.{tick_or_zero}

unfoldable pub bin_array_index : ℤ → ℤ
bin_array_index active_id =
    if leb_ℤ (pos 0) active_id || is_zero (rem active_id (pos 70))
    then div_trunc active_id 70
    else div_trunc active_id 70 -ℤ pos 1

-- An index that the pool's own bitmap does not cover.
abbrev pub outside_bitmap : ℤ → Bool
outside_bitmap i = ltb_ℤ (pos (512 - 1)) i || ltb_ℤ i (negsuc (512 - 1))

-- The arrays that the swap may cross: the active bin's, and two more in the direction of the swap.
unfoldable pub bin_array_indices : Bool → ℤ → ℤ × ℤ × ℤ
unfolding bin_array_index ◌+ℤ◌
bin_array_indices a_to_b active_id =
    let i = bin_array_index active_id in
    if a_to_b
    then (i +ℤ pos 0, i +ℤ negsuc 0, i +ℤ negsuc 1)
    else (i +ℤ pos 0, i +ℤ pos 1, i +ℤ pos 2)

unfoldable pub needs_bitmap_extension : ℤ × ℤ × ℤ → Bool
needs_bitmap_extension (a, b, c) = outside_bitmap a || (outside_bitmap b || outside_bitmap c)

abbrev pub is_missing : Option Pubkey → Bool
is_missing none = true
is_missing (some k) = false

-- The extension's account, or the program's as the mark of a missing one.
abbrev pub bitmap_account : Option Pubkey → AccountMeta
bitmap_account (some pda) = account pda false
bitmap_account none = readonly Addresses.meteora_dlmm false

-- `a.or(b).unwrap_or(d)`.
abbrev pub first_known : Option Pubkey → Option Pubkey → Pubkey → Pubkey
first_known (some k) b d = k
first_known none b d = unwrap_or b d

module _ (sdk : SolanaSdk) where
  unfoldable pub bin_array_address : Pubkey → ℤ → Pubkey
  bin_array_address pool i =
      sdk.find_program_address
        (seed "bin_array" ∷ key_bytes pool ∷ to_le_bytes 8 (as_unsigned 64 i) ∷ [])
        Addresses.meteora_dlmm

  unfoldable pub build_meteora_dlmm_swap_ix :
      Pubkey → PoolState → Pubkey → ℕ → ℕ → Option Pubkey → Option Pubkey → Outcome Instruction
  build_meteora_dlmm_swap_ix signer pool input_mint amount_in minimum_amount_out mint_a_program
        mint_b_program =
      do
        vault_a ← of_option pool.extra.vault_a
        vault_b ← of_option pool.extra.vault_b
        let a_to_b = input_mint == pool.token_a_mint
        let prog_a = first_known mint_a_program pool.extra.token_program_a Addresses.spl_token
        let prog_b = first_known mint_b_program pool.extra.token_program_b Addresses.spl_token
        let input_prog = if a_to_b then prog_a else prog_b
        let output_prog = if a_to_b then prog_b else prog_a
        let user_input_ata = derive_ata_with_program sdk signer input_mint input_prog
        let user_output_ata =
            derive_ata_with_program sdk signer (output_mint pool a_to_b) output_prog
        let oracle =
            sdk.find_program_address (seed "oracle" ∷ key_bytes pool.address ∷ [])
              Addresses.meteora_dlmm
        let event_authority =
            sdk.find_program_address (seed "__event_authority" ∷ []) Addresses.meteora_dlmm
        let indices = bin_array_indices a_to_b (tick_or_zero pool.current_tick)
        reject_if (needs_bitmap_extension indices && is_missing pool.extra.bitmap_extension)
        ret (record {
          program_id = Addresses.meteora_dlmm;
          accounts =
              account pool.address false
              ∷ bitmap_account pool.extra.bitmap_extension
              ∷ account vault_a false
              ∷ account vault_b false
              ∷ account user_input_ata false
              ∷ account user_output_ata false
              ∷ readonly pool.token_a_mint false
              ∷ readonly pool.token_b_mint false
              ∷ account oracle false
              ∷ readonly Addresses.meteora_dlmm false
              ∷ account signer true
              ∷ readonly prog_a false
              ∷ readonly prog_b false
              ∷ readonly Addresses.memo false
              ∷ readonly event_authority false
              ∷ readonly Addresses.meteora_dlmm false
              ∷ account (bin_array_address pool.address indices.0) false
              ∷ account (bin_array_address pool.address indices.1) false
              ∷ account (bin_array_address pool.address indices.2) false
              ∷ [];
          ix_data =
              (0x41 ∷ 0x4b ∷ 0x3f ∷ 0x4c ∷ 0xeb ∷ 0x5b ∷ 0x5b ∷ 0x88 ∷ [])
              ++ (to_le_bytes 8 amount_in ++ (to_le_bytes 8 minimum_amount_out ++ to_le_bytes 4 0));
        })

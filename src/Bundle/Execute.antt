-- ===== src/Bundle/Execute.antt =====
-- `build_execute_arb_v2_ix` of src/executor/bundle.rs: the swaps of a route laid out as the accounts
-- and the parameters of one `execute_arb_v2` instruction. `borsh` is the serialisation of the
-- parameters. `as u8` keeps a number's low byte.
use engine_mev.Base.{
  ℕ, suc, ◌%◌, Bool, true, false, Option, none, some, List, [], ◌∷◌, ◌++◌, length, ◌==◌,
  if◌then◌else◌,
}
use engine_mev.Base.Bytes.{Bytes}
use engine_mev.Base.Outcome.{Outcome, ret, of_option, panic_if, ◌>>=◌, ◌>>◌}
use engine_mev.Cache.{StateCache, get_mint_program}
use engine_mev.Pool.{Pubkey, DexType, raydium_amm, RouteHop, ArbRoute}
use engine_mev.Addresses
use engine_mev.Swap.{
  AccountMeta, Instruction, SolanaSdk, account, readonly, unwrap_or, derive_ata_with_program,
}
use engine_mev.Bundle.{HopV2Params, ArbV2Params, BundleBuilder, build_swap_instruction_with_min_out}

abbrev pub as_u8 : ℕ → ℕ
as_u8 n = n % 256

-- `accounts.iter().position(|a| a.pubkey == key)`.
unfoldable pub position : Pubkey → List AccountMeta → Option ℕ
position key [] = none
position key (a ∷ rest) =
    let later = position key rest in
    if a.pubkey == key then some 0 else elim later [ none ↦ none | some i ↦ some (suc i) ]

unfoldable pub amount_in_offset : DexType → ℕ
amount_in_offset t = elim t [ raydium_amm ↦ 1 | _ ↦ 8 ]

-- The token program of a hop's output.
unfoldable pub output_token_program : StateCache → Pubkey → Pubkey
output_token_program c mint =
    if mint == Addresses.wsol
    then Addresses.spl_token
    else unwrap_or (get_mint_program c mint) Addresses.spl_token

abbrev pub is_empty {ℓ} : {A : Type ℓ} → List A → Bool
is_empty [] = true
is_empty (x ∷ xs) = false

module _ (sdk : SolanaSdk) where
  -- The swap of each hop, beside its hop. Only the last hop has the minimum.
  unfoldable pub build_hop_ixs :
      BundleBuilder → ℕ → ℕ → List RouteHop → Outcome (List (RouteHop × Instruction))
  build_hop_ixs b amount_in min_amount_out [] = ret []
  build_hop_ixs b amount_in min_amount_out (hop ∷ rest) = do
    let min_out = if is_empty rest then min_amount_out else 0
    ix ← build_swap_instruction_with_min_out sdk b hop amount_in min_out
    later ← build_hop_ixs b hop.estimated_output min_amount_out rest
    ret ((hop, ix) ∷ later)

  abbrev pub output_ata : BundleBuilder → RouteHop → Pubkey
  output_ata b hop =
      derive_ata_with_program sdk b.signer hop.output_mint
        (output_token_program b.state_cache hop.output_mint)

  -- The loop: the accounts so far grow by the program and the accounts of each swap.
  unfoldable pub pack_hops :
      BundleBuilder
      → List AccountMeta
      → List (RouteHop × Instruction)
      → Outcome (List AccountMeta × List HopV2Params)
  pack_hops b remaining_accounts [] = ret (remaining_accounts, [])
  pack_hops b remaining_accounts ((hop, ix) ∷ rest) = do
    let with_program = remaining_accounts ++ (readonly ix.program_id false ∷ [])
    let with_accounts = with_program ++ ix.accounts
    output_token_index ← of_option (position (output_ata b hop) with_accounts)
    (all_accounts, params) ← pack_hops b with_accounts rest
    ret (
      all_accounts,
      record {
        program_id_index = as_u8 (length remaining_accounts);
        accounts_start = as_u8 (length with_program);
        accounts_len = as_u8 (length ix.accounts);
        output_token_index = as_u8 output_token_index;
        amount_in_offset = amount_in_offset hop.dex_type;
        ix_data = ix.ix_data;
      }
          ∷ params,
    )

  -- `route.hops.len() - 1` panics on an empty route.
  unfoldable pub build_v2_params :
      BundleBuilder → ArbRoute → ℕ → Outcome (List AccountMeta × ArbV2Params)
  build_v2_params b route min_amount_out = do
    panic_if (is_empty route.hops)
    hop_ixs ← build_hop_ixs b route.input_amount min_amount_out route.hops
    (accounts, params) ← pack_hops b (account b.signer true ∷ []) hop_ixs
    ret (accounts, record { min_amount_out = min_amount_out; hops = params })

  unfoldable pub build_execute_arb_v2_ix :
      (ArbV2Params → Option Bytes) → BundleBuilder → ArbRoute → ℕ → Outcome Instruction
  build_execute_arb_v2_ix borsh b route min_amount_out = do
    guard_program ← of_option b.arb_guard_program_id
    (accounts, params) ← build_v2_params b route min_amount_out
    bytes ← of_option (borsh params)
    ret (record {
      program_id = guard_program;
      accounts = accounts;
      ix_data = (141 ∷ 60 ∷ 173 ∷ 81 ∷ 122 ∷ 89 ∷ 6 ∷ 39 ∷ []) ++ bytes;
    })

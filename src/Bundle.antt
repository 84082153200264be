-- ===== src/Bundle.antt =====
-- The bundle builder, src/executor/bundle.rs: the swap instruction of a hop, by its exchange. Of the
-- searcher's key pair only the public key is used. An error, whose message is not modelled, is
-- `nothing`; the cache is the one of src/state/cache.rs.
use engine_mev.Base.{ℕ, Option, List}
use engine_mev.Base.Bytes.{Bytes}
use engine_mev.Base.Outcome.{Outcome, of_option, ◌>>=◌}
use engine_mev.Cache.{StateCache, get_any, get_mint_program, get_lst_index}
use engine_mev.Pool.{
  Pubkey, DexType, raydium_amm, raydium_clmm, raydium_cp, orca_whirlpool, meteora_dlmm,
  meteora_damm_v2, sanctum_infinity, phoenix, manifest, pump_swap, RouteHop,
}
use engine_mev.Swap.{Instruction, SolanaSdk}
use engine_mev.Swap.RaydiumAmm.{build_raydium_amm_swap_ix}
use engine_mev.Swap.RaydiumCp.{build_raydium_cp_swap_ix}
use engine_mev.Swap.RaydiumClmm.{build_raydium_clmm_swap_ix}
use engine_mev.Swap.Orca.{build_orca_whirlpool_swap_ix}
use engine_mev.Swap.Dlmm.{build_meteora_dlmm_swap_ix}
use engine_mev.Swap.DammV2.{build_damm_v2_swap_ix}
use engine_mev.Swap.Phoenix.{build_phoenix_swap_ix}
use engine_mev.Swap.Manifest.{build_manifest_swap_ix}
use engine_mev.Swap.PumpSwap.{build_pumpswap_swap_ix}
use engine_mev.Swap.Sanctum.{build_sanctum_swap_ix}
pub mod Execute
pub mod Arb
pub mod Amounts
pub mod Placed
pub mod OnChain
pub mod Atas

pub record HopV2Params : Type 0 where
  pub program_id_index : ℕ
  pub accounts_start : ℕ
  pub accounts_len : ℕ
  pub output_token_index : ℕ
  pub amount_in_offset : ℕ
  pub ix_data : Bytes

pub record ArbV2Params : Type 0 where
  pub min_amount_out : ℕ
  pub hops : List HopV2Params

pub record BundleBuilder : Type 0 where
  pub signer : Pubkey
  pub state_cache : StateCache
  pub arb_guard_program_id : Option Pubkey

module _ (sdk : SolanaSdk) where
  -- The `match` on the exchange of the hop.
  unfoldable pub build_by_type : DexType → BundleBuilder → RouteHop → ℕ → ℕ → Outcome Instruction
  build_by_type raydium_amm b hop amount_in minimum_amount_out = do
    pool ← of_option (get_any b.state_cache hop.pool_address)
    build_raydium_amm_swap_ix sdk b.signer pool hop.input_mint amount_in minimum_amount_out
  build_by_type raydium_clmm b hop amount_in minimum_amount_out = do
    pool ← of_option (get_any b.state_cache hop.pool_address)
    build_raydium_clmm_swap_ix sdk b.signer pool hop.input_mint amount_in minimum_amount_out
  build_by_type raydium_cp b hop amount_in minimum_amount_out = do
    pool ← of_option (get_any b.state_cache hop.pool_address)
    build_raydium_cp_swap_ix sdk b.signer pool hop.input_mint amount_in minimum_amount_out
  build_by_type orca_whirlpool b hop amount_in minimum_amount_out = do
    pool ← of_option (get_any b.state_cache hop.pool_address)
    build_orca_whirlpool_swap_ix sdk b.signer pool hop.input_mint amount_in minimum_amount_out
  build_by_type meteora_dlmm b hop amount_in minimum_amount_out = do
    pool ← of_option (get_any b.state_cache hop.pool_address)
    let prog_a = get_mint_program b.state_cache pool.token_a_mint
    let prog_b = get_mint_program b.state_cache pool.token_b_mint
    build_meteora_dlmm_swap_ix sdk b.signer pool hop.input_mint amount_in minimum_amount_out prog_a
        prog_b
  build_by_type meteora_damm_v2 b hop amount_in minimum_amount_out = do
    pool ← of_option (get_any b.state_cache hop.pool_address)
    build_damm_v2_swap_ix sdk b.signer pool hop.input_mint amount_in minimum_amount_out
  build_by_type sanctum_infinity b hop amount_in minimum_amount_out = do
    src_idx ← of_option (get_lst_index b.state_cache hop.input_mint)
    dst_idx ← of_option (get_lst_index b.state_cache hop.output_mint)
    build_sanctum_swap_ix sdk b.signer hop.input_mint hop.output_mint amount_in minimum_amount_out
        src_idx dst_idx
  build_by_type phoenix b hop amount_in minimum_amount_out = do
    pool ← of_option (get_any b.state_cache hop.pool_address)
    build_phoenix_swap_ix sdk b.signer pool hop.input_mint amount_in minimum_amount_out
  build_by_type manifest b hop amount_in minimum_amount_out = do
    pool ← of_option (get_any b.state_cache hop.pool_address)
    build_manifest_swap_ix sdk b.signer pool hop.input_mint amount_in minimum_amount_out
  build_by_type pump_swap b hop amount_in minimum_amount_out = do
    pool ← of_option (get_any b.state_cache hop.pool_address)
    build_pumpswap_swap_ix sdk b.signer pool hop.input_mint amount_in minimum_amount_out

  unfoldable pub build_swap_instruction_with_min_out :
      BundleBuilder → RouteHop → ℕ → ℕ → Outcome Instruction
  build_swap_instruction_with_min_out b hop amount_in minimum_amount_out =
      build_by_type hop.dex_type b hop amount_in minimum_amount_out

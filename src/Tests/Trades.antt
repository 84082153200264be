-- ===== src/Tests/Trades.antt =====
-- A route from wrapped SOL to a token and back, its instruction, and the run of it.
use engine_mev.Base.{
  ◌+◌, ◌≡◌, refl, arith, true, false, some, List, [], ◌∷◌, ◌++◌, length, get_elem?, take, drop, All,
  map,
}
use engine_mev.Base.Bytes.{Bytes, to_le_bytes, from_le_bytes, to_be_bytes, be_value, from_be_bytes}
use engine_mev.Base.Int.{pos, negsuc}
use engine_mev.Base.Outcome.{Outcome, ret, nothing, panic}
use engine_mev.Addresses
use engine_mev.Bundle.{
  BundleBuilder, ArbV2Params, build_by_type, build_swap_instruction_with_min_out,
}
use engine_mev.Bundle.Amounts.{takes_amount, build_swap_instruction_with_min_out-with_amount}
use engine_mev.Bundle.Arb.{
  Atas, route_mints, pool_hint, pool_program, guarded_program, guarded_mints,
}
use engine_mev.Bundle.Atas.{IsListed, guarded_mints-IsListed}
use engine_mev.Bundle.Execute.{
  position, amount_in_offset, output_token_program, build_hop_ixs, pack_hops, build_v2_params,
}
use engine_mev.Bundle.OnChain.{info, received_params, arbitrage, all_take_amount}
use engine_mev.Bundle.OnChain.Refined.{execute_arb_v2-arbitrage}
use engine_mev.Bundle.Placed.{ArePlaced, build_v2_params-ArePlaced}
use engine_mev.Cache.{
  StateCache, new, upsert, insert, lookup, get_any, normalize_pair, put, get_mint_program,
  set_mint_program,
}
use engine_mev.Cache.Index.{add}
use engine_mev.Guard.{Result, ok}
use engine_mev.Guard.Execute.{Store, execute_arb_v2}
use engine_mev.Guard.Execute as Guard
use engine_mev.Pool.{Pubkey, DexType, PoolExtra, PoolState, RouteHop, ArbRoute}
use engine_mev.Swap.{
  AccountMeta, Instruction, SolanaSdk, account, derive_ata, derive_ata_with_program, floor_div,
}
use engine_mev.Swap.Dlmm.{bin_array_index}
use engine_mev.Swap.FloorDiv.{bin_array_index-array_idx}
use engine_mev.Swap.RaydiumAmm.{build_raydium_amm_swap_ix}
use engine_mev.Swap.RaydiumCp.{build_raydium_cp_swap_ix}
use engine_mev.Swap.Rewritten.{with_amount}
use engine_mev.Quote.Dlmm.{array_idx}
use engine_mev.Tests.Data.{no_extra, amm}

program : Unit {0}
unfolding to_le_bytes from_le_bytes to_be_bytes be_value from_be_bytes build_by_type
    build_swap_instruction_with_min_out takes_amount position amount_in_offset output_token_program
    build_hop_ixs pack_hops build_v2_params all_take_amount new upsert insert lookup get_any
    normalize_pair put get_mint_program set_mint_program add derive_ata derive_ata_with_program
    build_raydium_amm_swap_ix build_raydium_cp_swap_ix route_mints pool_hint pool_program
    guarded_program guarded_mints bin_array_index array_idx
program = tt

-- An address is the number that the program and the seeds spell together.
abbrev spelled : Pubkey → List Bytes → Pubkey
spelled k [] = k
spelled k (s ∷ rest) = spelled (be_value k s) rest

abbrev pub sdk : SolanaSdk
sdk = record {
  find_program_address = λ seeds k. spelled k seeds;
  create_program_address = λ seeds k. some (spelled k seeds);
  system_program = 0;
  transfer = λ from to lamports. record {
    program_id = 0;
    accounts = account from true ∷ account to false ∷ [];
    ix_data = 2 ∷ to_le_bytes 8 lamports;
  };
}

abbrev vaults : PoolExtra
vaults = record no_extra {
  vault_a = some 11;
  vault_b = some 12;
  config = some 13;
  token_program_a = some Addresses.spl_token;
  token_program_b = some Addresses.spl_token;
  amm_nonce = some 254;
}

abbrev pool_there : PoolState
pool_there = record (amm 50 Addresses.wsol 2 1_000_000 900_000) { extra = vaults }

abbrev pool_back : PoolState
pool_back = record (amm 60 2 Addresses.wsol 900_000 1_100_000) {
  dex_type = DexType.raydium_cp;
  extra = vaults;
}

abbrev cache : StateCache
cache =
    set_mint_program 2 Addresses.spl_token (upsert 0 60 pool_back (upsert 0 50 pool_there (new 10)))

abbrev builder : BundleBuilder
builder = record { signer = 7; state_cache = cache; arb_guard_program_id = some 99 }

abbrev hop_there : RouteHop
hop_there = record {
  pool_address = 50;
  dex_type = DexType.raydium_amm;
  input_mint = Addresses.wsol;
  output_mint = 2;
  estimated_output = 890;
}

abbrev hop_back : RouteHop
hop_back = record {
  pool_address = 60;
  dex_type = DexType.raydium_cp;
  input_mint = 2;
  output_mint = Addresses.wsol;
  estimated_output = 1_080;
}

abbrev route : ArbRoute
route = record {
  hops = hop_there ∷ hop_back ∷ [];
  base_mint = Addresses.wsol;
  input_amount = 1_000;
  estimated_profit = pos 80;
  estimated_profit_lamports = 80;
}

abbrev accounts_of : Outcome (List AccountMeta × ArbV2Params) → List AccountMeta
accounts_of (ret r) = r.0
accounts_of nothing = []
accounts_of panic = []

abbrev params_of : Outcome (List AccountMeta × ArbV2Params) → ArbV2Params
params_of (ret r) = r.1
params_of nothing = record { min_amount_out = 0; hops = [] }
params_of panic = record { min_amount_out = 0; hops = [] }

abbrev accounts : List AccountMeta
accounts = accounts_of (build_v2_params sdk builder route 1_050)

abbrev params : ArbV2Params
params = params_of (build_v2_params sdk builder route 1_050)

-- The signer, then a program and its accounts for each of the two swaps.
twenty_four : length accounts ≡ 24
unfolding program
twenty_four = refl

built : build_v2_params sdk builder route 1_050 ≡ ret (accounts, params)
unfolding program
built = refl

-- Every token account is credited ten by each invocation.
abbrev invoke : Guard.Instruction → Store → Result Store
invoke ix st =
    ok (λ k. take 64 (st k) ++ to_le_bytes 8 (from_le_bytes (take 8 (drop 64 (st k))) + 10))

abbrev sixty_four : Bytes
sixty_four = to_be_bytes 64 0

abbrev store : Store
store k = sixty_four ++ to_le_bytes 8 500

build_v2_params-ArePlaced_example :
    (pairs : List (RouteHop × Instruction)) × (build_hop_ixs sdk builder 1_000 1_050
        (hop_there ∷ hop_back ∷ [])
      ≡ ret pairs)
    × (get_elem? accounts 0 ≡ some (account 7 true))
    × ArePlaced sdk builder accounts pairs params.hops
    × (params.min_amount_out ≡ 1_050)
build_v2_params-ArePlaced_example =
    build_v2_params-ArePlaced sdk builder route 1_050 accounts params built
      (omega (arith, twenty_four))

later_take : all_take_amount invoke sdk builder (hop_back ∷ []) ≡ true
unfolding program
later_take = refl

execute_arb_v2-arbitrage_example :
    execute_arb_v2 invoke (map info accounts) (received_params params) store
    ≡ arbitrage invoke sdk builder 1_000 1_050 hop_there (hop_back ∷ []) store
execute_arb_v2-arbitrage_example =
    execute_arb_v2-arbitrage invoke sdk builder route hop_there (hop_back ∷ []) 1_050 accounts
      params store refl later_take built (omega (arith, twenty_four))

abbrev ix_of : Outcome Instruction → Instruction
ix_of (ret ix) = ix
ix_of nothing = record { program_id = 0; accounts = []; ix_data = [] }
ix_of panic = record { program_id = 0; accounts = []; ix_data = [] }

abbrev swap_back : Instruction
swap_back = ix_of (build_swap_instruction_with_min_out sdk builder hop_back 890 1_050)

takes : takes_amount hop_back.dex_type builder hop_back ≡ true
unfolding program
takes = refl

built_back : build_swap_instruction_with_min_out sdk builder hop_back 890 1_050 ≡ ret swap_back
unfolding program
built_back = refl

build_swap_instruction_with_min_out-with_amount_example :
    build_swap_instruction_with_min_out sdk builder hop_back 905 1_050
    ≡ ret (with_amount (amount_in_offset DexType.raydium_cp) 905 swap_back)
build_swap_instruction_with_min_out-with_amount_example =
    build_swap_instruction_with_min_out-with_amount sdk builder hop_back 890 905 1_050 swap_back
      takes built_back

abbrev route_atas : Atas
route_atas = (Addresses.wsol, Addresses.spl_token) ∷ (2, Addresses.spl_token) ∷ []

listed : guarded_mints route.hops (route_mints route.hops) [] cache ≡ (cache, ret route_atas)
unfolding program
listed = refl

guarded_mints-IsListed_example : All (IsListed route_atas cache) (route_mints route.hops)
guarded_mints-IsListed_example = guarded_mints-IsListed route.hops cache cache route_atas listed

bin_array_index-array_idx_example :
    (bin_array_index (negsuc 140) ≡ array_idx (negsuc 140))
    × (floor_div (negsuc 140) (pos 70) ≡ ret (bin_array_index (negsuc 140)))
bin_array_index-array_idx_example =
    bin_array_index-array_idx (negsuc 140) (omega arith) (omega arith)

third_below : bin_array_index (negsuc 140) ≡ negsuc 2
unfolding program
third_below = refl

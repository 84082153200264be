-- ===== src/Bundle/Arb.antt =====
-- `build_arb_instructions` of src/executor/bundle.rs: the compute budget, the token accounts, the
-- wrapping of SOL, the swaps and the unwrapping, with the guard's program and without it. The cache
-- is shared, so what the guarded path has written into it stays there when the path fails.
use engine_mev.Base.{
  ℕ, ◌*◌, true, false, Option, none, some, List, [], ◌∷◌, ◌++◌, map, ◌==◌, if◌then◌else◌,
}
use engine_mev.Base.Bytes.{Bytes, to_le_bytes}
use engine_mev.Base.Outcome.{Outcome, ret, nothing, panic_if, ◌>>=◌, ◌>>◌}
use engine_mev.Cache.{StateCache, lookup, get_any, get_mint_program, set_mint_program}
use engine_mev.Pool.{Pubkey, PoolState, RouteHop, ArbRoute, last_output}
use engine_mev.Addresses
use engine_mev.Swap.{
  Instruction, SolanaSdk, account, readonly, unwrap_or, derive_ata, derive_ata_with_program,
}
use engine_mev.Bundle.{ArbV2Params, BundleBuilder}
use engine_mev.Bundle.Execute.{is_empty, build_hop_ixs, build_execute_arb_v2_ix}

-- The mints in the order of the two loops.
unfoldable pub route_mints : List RouteHop → List Pubkey
route_mints [] = []
route_mints (hop ∷ rest) = hop.input_mint ∷ hop.output_mint ∷ route_mints rest

-- The program that a pool's parser has stored for a mint.
unfoldable pub pool_hint : PoolState → Pubkey → Option Pubkey
pool_hint pool mint =
    if pool.token_a_mint == mint
    then pool.extra.token_program_a
    else if pool.token_b_mint == mint
    then pool.extra.token_program_b
    else none

unfoldable pub pool_program : StateCache → Pubkey → List RouteHop → Option Pubkey
pool_program c mint [] = none
pool_program c mint (h ∷ rest) =
    let later = pool_program c mint rest in
    elim (get_any c h.pool_address) [
      | none ↦ later
      | some pool ↦ elim (pool_hint pool mint) [ none ↦ later | some p ↦ some p ]
    ]

-- The token program of a mint on the guarded path, and the cache after it; `none` is the error.
unfoldable pub guarded_program : List RouteHop → StateCache → Pubkey → Option (Pubkey × StateCache)
guarded_program hops c mint = elim (mint == Addresses.wsol) [
  | true ↦ some (Addresses.spl_token, c)
  | false ↦ elim (get_mint_program c mint) [
    | some p ↦ some (p, c)
    | none ↦ elim (pool_program c mint hops) [
      | some p ↦ some (p, set_mint_program mint p c)
      | none ↦ none
    ]
  ]
]

abbrev pub Atas : Type 0
Atas = List (Pubkey × Pubkey)

unfoldable pub guarded_mints :
    List RouteHop → List Pubkey → Atas → StateCache → StateCache × Outcome Atas
guarded_mints hops [] atas c = (c, ret atas)
guarded_mints hops (mint ∷ rest) atas c = elim (lookup mint atas) [
  | some p ↦ guarded_mints hops rest atas c
  | none ↦ elim (guarded_program hops c mint) [
    | none ↦ (c, nothing)
    | some r ↦ guarded_mints hops rest (atas ++ ((mint, r.0) ∷ [])) r.1
  ]
]

-- The same loop without the guard, where an unknown mint has the SPL token program.
unfoldable pub raw_mints : StateCache → List Pubkey → Atas → Atas
raw_mints c [] atas = atas
raw_mints c (mint ∷ rest) atas = elim (lookup mint atas) [
  | some p ↦ raw_mints c rest atas
  | none ↦
      let program =
        if mint == Addresses.wsol
        then Addresses.spl_token
        else unwrap_or (get_mint_program c mint) Addresses.spl_token in
      raw_mints c rest (atas ++ ((mint, program) ∷ []))
]

-- The limit of 400,000 compute units, and a heap of 256 KB.
unfoldable pub compute_budget_ixs : List Instruction
compute_budget_ixs =
    record {
      program_id = Addresses.compute_budget;
      accounts = [];
      ix_data = 2 ∷ to_le_bytes 4 400_000;
    }
    ∷ record {
      program_id = Addresses.compute_budget;
      accounts = [];
      ix_data = 1 ∷ to_le_bytes 4 (256 * 1_024);
    }
    ∷ []

module _ (sdk : SolanaSdk) (signer : Pubkey) where
  -- CreateIdempotent.
  unfoldable pub create_ata_ix : Pubkey × Pubkey → Instruction
  create_ata_ix (mint, mint_token_program) =
      let ata = derive_ata_with_program sdk signer mint mint_token_program in
      record {
        program_id = Addresses.ata_program;
        accounts =
            account signer true
            ∷ account ata false
            ∷ readonly signer false
            ∷ readonly mint false
            ∷ readonly sdk.system_program false
            ∷ readonly mint_token_program false
            ∷ [];
        ix_data = 1 ∷ [];
      }

  -- The transfer of the input to the wSOL account and SyncNative, if the first hop takes wSOL.
  unfoldable pub wrap_ixs : ArbRoute → List Instruction
  wrap_ixs route = elim route.hops [
    | [] ↦ []
    | hop ∷ rest ↦
        let wsol_ata = derive_ata sdk signer Addresses.wsol in
        if hop.input_mint == Addresses.wsol
        then sdk.transfer signer wsol_ata route.input_amount
          ∷ record {
            program_id = Addresses.spl_token;
            accounts = account wsol_ata false ∷ [];
            ix_data = 17 ∷ [];
          }
          ∷ []
        else []
  ]

  -- CloseAccount, if the last hop gives wSOL.
  unfoldable pub unwrap_ixs : ArbRoute → List Instruction
  unwrap_ixs route = elim route.hops [
    | [] ↦ []
    | hop ∷ rest ↦
        let wsol_ata = derive_ata sdk signer Addresses.wsol in
        if last_output hop rest == Addresses.wsol
        then record {
          program_id = Addresses.spl_token;
          accounts = account wsol_ata false ∷ account signer false ∷ readonly signer true ∷ [];
          ix_data = 9 ∷ [];
        }
          ∷ []
        else []
  ]

module _ (sdk : SolanaSdk) (borsh : ArbV2Params → Option Bytes) where
  -- The instructions around the swaps.
  abbrev pub assembled : Pubkey → ArbRoute → Atas → List Instruction → List Instruction
  assembled signer route atas swaps =
      compute_budget_ixs
      ++ (map (create_ata_ix sdk signer) atas
          ++ (wrap_ixs sdk signer route ++ (swaps ++ unwrap_ixs sdk signer route)))

  -- After the token accounts: the one instruction, built with the cache as it is by then.
  abbrev pub guarded_rest :
      BundleBuilder
      → ArbRoute
      → ℕ
      → StateCache × Outcome Atas
      → StateCache × Outcome (List Instruction)
  guarded_rest b route min_final_output (c, atas) = (
    c,
    atas >>= λ l.
        build_execute_arb_v2_ix sdk borsh (record b { state_cache = c }) route min_final_output
        >>= λ ix. ret (assembled b.signer route l (ix ∷ [])),
  )

  unfoldable pub build_guarded :
      BundleBuilder → ArbRoute → ℕ → StateCache × Outcome (List Instruction)
  build_guarded b route min_final_output =
      guarded_rest b route min_final_output
        (guarded_mints route.hops (route_mints route.hops) [] b.state_cache)

  abbrev pub ix_of : RouteHop × Instruction → Instruction
  ix_of (hop, ix) = ix

  unfoldable pub build_raw : BundleBuilder → ArbRoute → ℕ → Outcome (List Instruction)
  build_raw b route min_final_output = do
    let atas = raw_mints b.state_cache (route_mints route.hops) []
    panic_if (is_empty route.hops)
    swaps ← build_hop_ixs sdk b route.input_amount min_final_output route.hops
    ret (assembled b.signer route atas (map ix_of swaps))

  unfoldable pub build_arb_instructions :
      BundleBuilder → ArbRoute → ℕ → StateCache × Outcome (List Instruction)
  build_arb_instructions b route min_final_output = elim b.arb_guard_program_id [
    | some guard ↦ build_guarded b route min_final_output
    | none ↦ (b.state_cache, build_raw b route min_final_output)
  ]

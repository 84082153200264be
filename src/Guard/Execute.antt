-- ===== src/Guard/Execute.antt =====
-- `execute_arb_v2` of programs/arb-guard/src/lib.rs: a chain of swaps by cross-program invocation,
-- each swap's output rewritten into the data of the next. Account data lives in a store by key, so
-- that two accounts of the list with one key share their data; a byte is a number. `invoke`, the
-- runtime, is a parameter: it may change the data of any account in any way, or fail.
use engine_mev.Base.{
  ℕ, zero, suc, ◌+◌, ◌-◌, ◌*◌, ◌/◌, ◌%◌, Bool, true, false, Option, none, some, List, [], ◌∷◌, ◌++◌,
  length, get_elem?, take, drop, ◌==◌, ltb, leb, ◌&&◌, if◌then◌else◌,
}
use engine_mev.Base.Bytes.{Bytes, to_le_bytes, from_le_bytes}
use engine_mev.Guard.{
  Result, ok, err, failed, ◌>>=◌, ◌>>◌, require, checked_add_u64, signer_required,
  invalid_hop_params, invalid_token_account, swap_output_zero, no_profit_detected,
}
use engine_mev.Pool.{Pubkey}
pub mod Rewrite
pub mod Gain

abbrev pub Store : Type 0
Store = Pubkey → Bytes

pub record AccountInfo : Type 0 where
  pub key : Pubkey
  pub is_signer : Bool
  pub is_writable : Bool

pub record Instruction : Type 0 where
  pub program_id : Pubkey
  pub accounts : List AccountInfo
  pub ix_data : Bytes

pub record HopV2Params : Type 0 where
  pub program_id_index : ℕ
  pub accounts_start : ℕ
  pub accounts_len : ℕ
  pub output_token_index : ℕ
  pub amount_in_offset : ℕ
  pub ix_data : Bytes

pub record ArbV2Params : Type 0 where
  pub min_amount_out : ℕ
  pub hops : List HopV2Params

unfoldable pub get_token_balance : Store → Pubkey → Result ℕ
get_token_balance st k =
    if ltb (length (st k)) 72
    then err invalid_token_account
    else ok (from_le_bytes (take 8 (drop 64 (st k))))

-- `remaining[i]`, behind the check of its index.
abbrev pub account_at : List AccountInfo → ℕ → Result AccountInfo
account_at remaining i = elim (get_elem? remaining i) [
  | none ↦ err invalid_hop_params
  | some a ↦ ok a
]

-- `ix_data[offset..offset + 8]` becomes the amount, where it fits.
unfoldable pub rewrite_amount : ℕ → ℕ → Bytes → Bytes
rewrite_amount offset amount bytes =
    if leb (offset + 8) (length bytes)
    then take offset bytes ++ (to_le_bytes 8 amount ++ drop (offset + 8) bytes)
    else bytes

-- The data of a hop: the first one's is left as the client built it.
unfoldable pub hop_data : Bool → ℕ → HopV2Params → Bytes
hop_data first amount hop =
    if first then hop.ix_data else rewrite_amount hop.amount_in_offset amount hop.ix_data

unfoldable pub last_hop : HopV2Params → List HopV2Params → HopV2Params
last_hop h [] = h
last_hop h (h' ∷ rest) = last_hop h' rest

module _ (invoke : Instruction → Store → Result Store) where
  -- The body of the loop: the amount received, and the store after it.
  unfoldable pub run_hop : List AccountInfo → Bool → HopV2Params → ℕ → Store → Result (ℕ × Store)
  run_hop remaining first hop amount st = do
    program ← account_at remaining hop.program_id_index
    require (leb (hop.accounts_start + hop.accounts_len) (length remaining)) invalid_hop_params
    output ← account_at remaining hop.output_token_index
    pre_balance ← get_token_balance st output.key
    after ←
        invoke
          (record {
            program_id = program.key;
            accounts = take hop.accounts_len (drop hop.accounts_start remaining);
            ix_data = hop_data first amount hop;
          })
          st
    post_balance ← get_token_balance after output.key
    require (ltb pre_balance post_balance) swap_output_zero
    ok (post_balance - pre_balance, after)

  unfoldable pub run_hops : List AccountInfo → Bool → List HopV2Params → ℕ → Store → Result Store
  run_hops remaining first [] amount st = ok st
  run_hops remaining first (hop ∷ hops) amount st = do
    (received, after) ← run_hop remaining first hop amount st
    run_hops remaining false hops received after

  -- Behind the checks of the signer and of the list of hops.
  unfoldable pub execute_hops :
      List AccountInfo → HopV2Params → List HopV2Params → ℕ → Store → Result Store
  execute_hops remaining hop hops min_amount_out st = do
    profit_token ← account_at remaining (last_hop hop hops).output_token_index
    start_balance ← get_token_balance st profit_token.key
    after ← run_hops remaining true (hop ∷ hops) 0 st
    end_balance ← get_token_balance after profit_token.key
    target ← checked_add_u64 start_balance min_amount_out
    require (leb target end_balance) no_profit_detected
    ok after

  -- The hops must not be empty.
  unfoldable pub some_hops : List AccountInfo → List HopV2Params → ℕ → Store → Result Store
  some_hops remaining [] min_amount_out st = err invalid_hop_params
  some_hops remaining (hop ∷ hops) min_amount_out st =
      execute_hops remaining hop hops min_amount_out st

  unfoldable pub execute_arb_v2 : List AccountInfo → ArbV2Params → Store → Result Store
  execute_arb_v2 [] params st = err signer_required
  execute_arb_v2 (signer ∷ others) params st = do
    require signer.is_signer signer_required
    some_hops (signer ∷ others) params.hops params.min_amount_out st

-- ===== src/Tests/OnChain.antt =====
-- A session of the on-chain guard, and a swap executed by it.
use engine_mev.Base.{
  ℕ, zero, suc, ◌+◌, ◌≤◌, ◌≡◌, refl, arith, true, false, none, List, [], ◌∷◌, length, take, drop,
}
use engine_mev.Base.Bytes.{Bytes, to_le_bytes, from_le_bytes}
use engine_mev.Guard.{
  Result, ok, err, guard_already_active, guard_not_active, GuardState, TokenAccount, Guards,
  set_guard, loaded, start_check, profit_check, checked_add_u64,
}
use engine_mev.Guard.Execute.{
  Store, AccountInfo, Instruction, HopV2Params, ArbV2Params, get_token_balance, rewrite_amount,
  hop_data, last_hop, run_hop, run_hops, execute_hops, some_hops, execute_arb_v2,
}
use engine_mev.Guard.Execute.Rewrite.{rewrite_amount-read}
use engine_mev.Guard.Execute.Gain.{Succeeded, executed-Succeeded}
use engine_mev.Guard.Session.{
  Steps, done, next, started, guarded_profit, start_refused, guard_refuses,
}

program : Unit {0}
unfolding set_guard loaded start_check profit_check checked_add_u64 to_le_bytes from_le_bytes
    get_token_balance rewrite_amount hop_data last_hop run_hop run_hops execute_hops some_hops
    execute_arb_v2
program = tt

abbrev before : TokenAccount
before = record { key = 90; owner = 7; amount = 1_000 }

abbrev after : TokenAccount
after = record { key = 90; owner = 7; amount = 1_050 }

abbrev stranger : TokenAccount
stranger = record { key = 91; owner = 8; amount = 3 }

abbrev no_guards : Guards
no_guards a = none

abbrev locked : TokenAccount → GuardState
locked t = record {
  start_balance = t.amount;
  authority = t.owner;
  token_account = t.key;
  locked = true;
}

abbrev one_guard : Guards
one_guard a = set_guard 7 (locked before) no_guards a

abbrev two_guards : Guards
two_guards a = set_guard 8 (locked stranger) one_guard a

abbrev opened : Guards
opened a = set_guard 7 (record (locked before) { locked = false }) two_guards a

session_starts : start_check 7 before no_guards ≡ ok one_guard
unfolding program
session_starts = refl

other_starts : start_check 8 stranger one_guard ≡ ok two_guards
unfolding program
other_starts = refl

session_ends : profit_check 7 after 50 two_guards ≡ ok opened
unfolding program
session_ends = refl

between : Steps 7 one_guard two_guards
between = next (started 8 stranger other_starts) done

guarded_profit_example :
    (after.key ≡ before.key)
    × (before.owner ≡ 7)
    × (after.owner ≡ 7)
    × (before.amount + 50 ≤ after.amount)
    × ((loaded (opened 7)).locked ≡ false)
guarded_profit_example =
    guarded_profit 7 before after 50 no_guards one_guard two_guards opened session_starts between
      session_ends

-- The same account when its balance has fallen.
abbrev fallen : TokenAccount
fallen = record { key = 90; owner = 7; amount = 400 }

start_refused_example : start_check 7 fallen two_guards ≡ err guard_already_active
start_refused_example =
    start_refused 7 before fallen no_guards one_guard two_guards session_starts between refl

-- The guards after another authority has started again.
abbrev restarted : Guards
restarted a = set_guard 8 (locked stranger) opened a

kept_open : restarted 7 ≡ opened 7
unfolding program
kept_open = refl

guard_refuses_example : profit_check 7 fallen 0 restarted ≡ err guard_not_active
guard_refuses_example =
    guard_refuses 7 before after fallen 50 0 no_guards one_guard two_guards opened restarted
      session_starts between session_ends kept_open refl refl

-- The data of a token account: 64 bytes that are not read here, the amount, and no more.
abbrev padded : ℕ → Bytes → Bytes
padded zero rest = rest
padded (suc n) rest = 0 ∷ padded n rest

abbrev account_data : ℕ → Bytes
account_data amount = padded 64 (to_le_bytes 8 amount)

abbrev store : ℕ → Store
store amount k = account_data amount

-- A program that leaves a balance of 5100 in every account, whatever it is asked.
abbrev swap : Instruction → Store → Result Store
swap ix st = ok (store 5_100)

abbrev accounts : List AccountInfo
accounts =
    record { key = 7; is_signer = true; is_writable = true }
    ∷ record { key = 30; is_signer = false; is_writable = false }
    ∷ record { key = 90; is_signer = false; is_writable = true }
    ∷ []

abbrev one_hop : HopV2Params
one_hop = record {
  program_id_index = 1;
  accounts_start = 0;
  accounts_len = 3;
  output_token_index = 2;
  amount_in_offset = 8;
  ix_data = padded 16 [];
}

abbrev params : ArbV2Params
params = record { min_amount_out = 100; hops = one_hop ∷ [] }

executed : execute_arb_v2 swap accounts params (store 5_000) ≡ ok (store 5_100)
unfolding program
executed = refl

executed-Succeeded_example : Succeeded swap accounts params (store 5_000) (store 5_100)
executed-Succeeded_example =
    executed-Succeeded swap accounts params (store 5_000) (store 5_100) executed

rewrite_amount-read_example :
    (length (rewrite_amount 8 258 (padded 16 [])) ≡ length (padded 16 []))
    × (from_le_bytes (take 8 (drop 8 (rewrite_amount 8 258 (padded 16 [])))) ≡ 258)
rewrite_amount-read_example = rewrite_amount-read 8 258 (padded 16 []) (omega arith) (omega arith)

-- ===== src/Tests/Relays.antt =====
-- A transaction whose tip account comes out of a lookup table, and a burst of submissions.
use engine_mev.Base.{ℕ, ◌<◌, ◌≤◌, ◌≡◌, refl, arith, some, List, [], ◌∷◌, length}
use engine_mev.Base.Bytes.{Bytes}
use engine_mev.Relay.{
  Message, TableLookup, LookupTable, v0, VersionedTransaction, TxSdk, done, scan, static_locked,
  find_table, names_tip, lookups_lock, verify_tip_write_locked, bundle_instructions,
  build_legacy_tx, signed_tx, checked_bytes, build_signed_bundle_tx, check, RateLimiter,
}
use engine_mev.Relay.Build.{build_signed_bundle_tx-IsWriteLocked}
use engine_mev.Relay.Locked.{Decides, HasSigners, IsWriteLocked, verify_tip_write_locked-Decides}
use engine_mev.Relay.Spaced.{AreSpaced, run, run-AreSpaced}
use engine_mev.Swap.{Instruction}
use engine_mev.Tests.Trades.{sdk}

program : Unit {0}
unfolding scan static_locked find_table names_tip lookups_lock verify_tip_write_locked
    bundle_instructions build_legacy_tx signed_tx checked_bytes build_signed_bundle_tx check
program = tt

-- The signer's key alone; the tip account, 9, is the second address of table 77.
abbrev message : Message
message = record {
  num_required_signatures = 1;
  num_readonly_signed_accounts = 0;
  num_readonly_unsigned_accounts = 0;
  account_keys = 4 ∷ [];
}

abbrev lookups : List TableLookup
lookups = record { account_key = 77; writable_indexes = 3 ∷ 1 ∷ [] } ∷ []

abbrev tables : List LookupTable
tables = record { table_key = 77; addresses = 8 ∷ 9 ∷ [] } ∷ []

abbrev serialized : Bytes
serialized = 1 ∷ 2 ∷ []

abbrev tip_transfer : Instruction
tip_transfer = record { program_id = 1; accounts = []; ix_data = [] }

abbrev tx_sdk : TxSdk
tx_sdk = record {
  advance_nonce_account = λ nonce authority. tip_transfer;
  try_compile = λ signer ixs alts hash. some (message, lookups);
  try_new = λ m signer. some (record { signatures = []; message = m });
  new_signed_with_payer = λ ixs signer hash. ([], message);
  serialize = λ tx. some serialized;
}

abbrev signed : VersionedTransaction
signed = record { signatures = []; message = v0 message lookups }

verify_tip_write_locked-Decides_example :
    Decides
      (IsWriteLocked tables 9 (v0 message lookups))
      (verify_tip_write_locked (v0 message lookups) 9 tables)
verify_tip_write_locked-Decides_example =
    verify_tip_write_locked-Decides (v0 message lookups) 9 tables (omega arith)

has_signers :
    (ixs : List Instruction) (tx : VersionedTransaction)
    → signed_tx sdk tx_sdk ixs 4 500 tables ≡ done tx
    → HasSigners tx.message
unfolding signed_tx
has_signers ixs tx h = let same : signed ≡ tx = ground arith in rw (← same) (omega arith)

built : build_signed_bundle_tx sdk tx_sdk [] 1_000 9 4 500 tables (some (6, 4)) ≡ done serialized
unfolding program
built = refl

build_signed_bundle_tx-IsWriteLocked_example :
    (0 < 1_000)
    × (length serialized ≤ 1_232)
    × ((tx : VersionedTransaction) × (signed_tx sdk tx_sdk
            (bundle_instructions sdk tx_sdk (some (6, 4)) [] 4 9 1_000)
            4
            500
            tables
          ≡ done tx)
        × (tx_sdk.serialize tx ≡ some serialized)
        × IsWriteLocked tables 9 tx.message)
build_signed_bundle_tx-IsWriteLocked_example =
    build_signed_bundle_tx-IsWriteLocked sdk tx_sdk [] 1_000 9 4 500 tables (some (6, 4)) serialized
      has_signers built

abbrev limiter : RateLimiter
limiter = record { last_submit = 1_000; min_interval = 100 }

-- The second call comes too early.
abbrev calls : List (ℕ × ℕ)
calls = (1_100, 1_101) ∷ (1_150, 1_150) ∷ (1_201, 1_202) ∷ []

run-AreSpaced_example : AreSpaced 100 1_000 (run calls limiter)
run-AreSpaced_example =
    run-AreSpaced calls limiter 1_000 (omega arith)
      (omega arith, omega arith, (omega arith, omega arith, (omega arith, omega arith, tt)))

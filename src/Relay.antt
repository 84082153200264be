-- ===== src/Relay.antt =====
-- The transactions and the rate limit of the relays, src/executor/relays/common.rs. What the Solana
-- SDK and bincode do is a parameter, `TxSdk`: compiling, signing, serializing, and the instruction
-- that advances a nonce. A failure's text is a constructor; the assertion that only debug builds
-- make, and logging, are not modelled. `Instant::now()` is an argument.
use engine_mev.Base.{
  ℕ, zero, suc, ◌+◌, ◌-◌, ◌<◌, ◌≤◌, ◌≡◌, Bool, true, false, Option, none, some, List, [], ◌∷◌, ◌++◌,
  ◌⊎◌, length, get_elem?, ◌==◌, ltb, if◌then◌else◌, Occurs,
}
use engine_mev.Base.Bytes.{Bytes}
use engine_mev.Pool.{Pubkey}
use engine_mev.Swap.{Instruction, SolanaSdk}
pub mod Locked
pub mod Spaced
pub mod Build

-- What the compiled messages of both versions hold, and the lookups of version 0.
pub record Message : Type 0 where
  pub num_required_signatures : ℕ
  pub num_readonly_signed_accounts : ℕ
  pub num_readonly_unsigned_accounts : ℕ
  pub account_keys : List Pubkey

pub record TableLookup : Type 0 where
  pub account_key : Pubkey
  pub writable_indexes : List ℕ

pub record LookupTable : Type 0 where
  pub table_key : Pubkey
  pub addresses : List Pubkey

pub data VersionedMessage : Type 0 where
  legacy : Message → VersionedMessage
  v0 : Message → List TableLookup → VersionedMessage

pub record VersionedTransaction : Type 0 where
  pub signatures : Bytes
  pub message : VersionedMessage

pub record TxSdk : Type 0 where
  pub advance_nonce_account : Pubkey → Pubkey → Instruction
  pub try_compile :
      Pubkey → List Instruction → List LookupTable → ℕ → Option (Message × List TableLookup)
  pub try_new : VersionedMessage → Pubkey → Option VersionedTransaction
  -- `Transaction::new_signed_with_payer`, as a versioned transaction.
  pub new_signed_with_payer : List Instruction → Pubkey → ℕ → Bytes × Message
  pub serialize : VersionedTransaction → Option Bytes

-- `for i in start..start + n`: whether one of the keys is the tip account; `none` is the panic of an
-- index that is out of range.
unfoldable pub scan : List Pubkey → Pubkey → ℕ → ℕ → Option Bool
scan keys tip i zero = some false
scan keys tip i (suc n) =
    let later = scan keys tip (suc i) n in
    elim (get_elem? keys i) [ none ↦ none | some key ↦ if key == tip then some true else later ]

-- `return true`, or what comes after it.
abbrev pub or_else_check : Option Bool → Option Bool → Option Bool
or_else_check none after = none
or_else_check (some true) after = some true
or_else_check (some false) after = after

-- The two loops over the writable keys of the message.
unfoldable pub static_locked : Message → Pubkey → Option Bool
static_locked m tip =
    let writable_signed_end = m.num_required_signatures - m.num_readonly_signed_accounts in
    let writable_unsigned_end = length m.account_keys - m.num_readonly_unsigned_accounts in
    let unsigned =
      scan m.account_keys tip m.num_required_signatures
        (writable_unsigned_end - m.num_required_signatures) in
    or_else_check (scan m.account_keys tip 0 writable_signed_end) unsigned

-- `alts.iter().find(|a| a.key == key)`.
unfoldable pub find_table : List LookupTable → Pubkey → Option LookupTable
find_table [] key = none
find_table (t ∷ rest) key =
    let later = find_table rest key in if t.table_key == key then some t else later

abbrev pub is_tip : Option Pubkey → Pubkey → Bool
is_tip none tip = false
is_tip (some address) tip = address == tip

-- Whether one of the indexes, where it is in range, names the tip account.
unfoldable pub names_tip : List Pubkey → Pubkey → List ℕ → Bool
names_tip addresses tip [] = false
names_tip addresses tip (idx ∷ rest) =
    let later = names_tip addresses tip rest in
    if is_tip (get_elem? addresses idx) tip then true else later

abbrev pub table_names_tip : Option LookupTable → Pubkey → List ℕ → Bool
table_names_tip none tip indexes = false
table_names_tip (some t) tip indexes = names_tip t.addresses tip indexes

unfoldable pub lookups_lock : List LookupTable → Pubkey → List TableLookup → Bool
lookups_lock alts tip [] = false
lookups_lock alts tip (l ∷ rest) =
    let later = lookups_lock alts tip rest in
    if table_names_tip (find_table alts l.account_key) tip l.writable_indexes then true else later

unfoldable pub verify_tip_write_locked : VersionedMessage → Pubkey → List LookupTable → Option Bool
verify_tip_write_locked (legacy m) tip alts = static_locked m tip
verify_tip_write_locked (v0 m lookups) tip alts =
    or_else_check (static_locked m tip) (some (lookups_lock alts tip lookups))

pub data BuildError : Type 0 where
  zero_tip v0_sign_error not_write_locked serialize_error too_large : BuildError

-- `Result<Vec<u8>, RelayResult>`, or a panic.
pub data Built {ℓ} (A : Type ℓ) : Type ℓ where
  done : A → Built A
  failed : BuildError → Built A
  panicked : Built A

module _ (sdk : SolanaSdk) (tx_sdk : TxSdk) where
  -- The nonce is the account and its authority.
  unfoldable pub bundle_instructions :
      Option (Pubkey × Pubkey) → List Instruction → Pubkey → Pubkey → ℕ → List Instruction
  bundle_instructions none base signer tip_account tip_lamports =
      base ++ (sdk.transfer signer tip_account tip_lamports ∷ [])
  bundle_instructions (some (account, authority)) base signer tip_account tip_lamports =
      tx_sdk.advance_nonce_account account authority ∷ base
      ++ (sdk.transfer signer tip_account tip_lamports ∷ [])

  unfoldable pub build_legacy_tx : List Instruction → Pubkey → ℕ → VersionedTransaction
  build_legacy_tx instructions signer recent_blockhash =
      let (signatures, m) = tx_sdk.new_signed_with_payer instructions signer recent_blockhash in
      record { signatures = signatures; message = legacy m }

  -- Version 0 with the lookup tables, or the legacy version where it does not compile.
  unfoldable pub signed_tx :
      List Instruction → Pubkey → ℕ → List LookupTable → Built VersionedTransaction
  signed_tx instructions signer recent_blockhash [] =
      done (build_legacy_tx instructions signer recent_blockhash)
  signed_tx instructions signer recent_blockhash (t ∷ ts) =
      elim (tx_sdk.try_compile signer instructions (t ∷ ts) recent_blockhash) [
        | none ↦ done (build_legacy_tx instructions signer recent_blockhash)
        | some (m, lookups) ↦ elim (tx_sdk.try_new (v0 m lookups) signer) [
          | none ↦ failed v0_sign_error
          | some tx ↦ done tx
        ]
      ]

  -- The checks after the signing.
  unfoldable pub checked_bytes : VersionedTransaction → Pubkey → List LookupTable → Built Bytes
  checked_bytes tx tip_account alts = elim (verify_tip_write_locked tx.message tip_account alts) [
    | none ↦ panicked
    | some false ↦ failed not_write_locked
    | some true ↦ elim (tx_sdk.serialize tx) [
      | none ↦ failed serialize_error
      | some bytes ↦ if ltb 1_232 (length bytes) then failed too_large else done bytes
    ]
  ]

  unfoldable pub build_signed_bundle_tx :
      List Instruction
      → ℕ
      → Pubkey
      → Pubkey
      → ℕ
      → List LookupTable
      → Option (Pubkey × Pubkey)
      → Built Bytes
  build_signed_bundle_tx base tip_lamports tip_account signer recent_blockhash alts nonce =
      if tip_lamports == 0
      then failed zero_tip
      else elim (signed_tx (bundle_instructions nonce base signer tip_account tip_lamports) signer
          recent_blockhash alts) [
            | done tx ↦ checked_bytes tx tip_account alts
            | failed e ↦ failed e
            | panicked ↦ panicked
          ]

-- `RateLimiter`, in milliseconds.
pub record RateLimiter : Type 0 where
  pub last_submit : ℕ
  pub min_interval : ℕ

-- `check`: whether it lets the call pass, and the limiter after it. The clock is read twice.
unfoldable pub check : ℕ → ℕ → RateLimiter → Bool × RateLimiter
check now later r =
    if ltb (now - r.last_submit) r.min_interval
    then (false, r)
    else (true, record r { last_submit = later })

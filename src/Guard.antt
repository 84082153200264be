-- ===== src/Guard.antt =====
-- The on-chain guard program, programs/arb-guard/src/lib.rs: its errors, the guard that
-- `start_check` locks and `profit_check` opens, and the constraints on their accounts. The guard
-- of an authority lives at the address that its key derives, so guards are a function of the
-- authority; `none` is an account that is not yet initialised.
use engine_mev.Base.{ℕ, ◌+◌, Bool, true, false, Option, none, some, ◌==◌, leb, ltb, if◌then◌else◌}
use engine_mev.Base.Word.{u64_mod}
use engine_mev.Pool.{Pubkey}
pub mod Session
pub mod Execute

pub data ArbGuardError : Type 0 where
  no_profit_detected guard_already_active guard_not_active token_account_owner_mismatch :
      ArbGuardError
  token_account_mismatch overflow_error signer_required invalid_token_program : ArbGuardError
  invalid_dex_program unsupported_dex swap_output_zero insufficient_output : ArbGuardError
  invalid_token_account invalid_hop_params : ArbGuardError

-- `failed` is an error that the runtime or the framework raises: a failed invocation, or a
-- constraint with no error of the program's own.
pub data Result {ℓ} (A : Type ℓ) : Type ℓ where
  ok : A → Result A
  err : ArbGuardError → Result A
  failed : Result A

infixl 5 ◌>>=◌ ◌>>◌
abbrev pub ◌>>=◌ {ℓ κ} : {A : Type ℓ} {B : Type κ} → Result A → (A → Result B) → Result B
ok a >>= f = f a
err e >>= f = err e
failed >>= f = failed

abbrev pub ◌>>◌ {ℓ} : {B : Type ℓ} → Result (Unit {0}) → Result B → Result B
m >> k = m >>= λ _. k

-- `require!(b, e)`.
abbrev pub require : Bool → ArbGuardError → Result (Unit {0})
require true e = ok tt
require false e = err e

-- `checked_add` on `u64`, with `ok_or(OverflowError)`.
unfoldable pub checked_add_u64 : ℕ → ℕ → Result ℕ
checked_add_u64 a b = if ltb (a + b) u64_mod then ok (a + b) else err overflow_error

pub record GuardState : Type 0 where
  pub start_balance : ℕ
  pub authority : Pubkey
  pub token_account : Pubkey
  pub locked : Bool

-- What the program reads of a token account.
pub record TokenAccount : Type 0 where
  pub key : Pubkey
  pub owner : Pubkey
  pub amount : ℕ

abbrev pub Guards : Type 0
Guards = Pubkey → Option GuardState

unfoldable pub set_guard : Pubkey → GuardState → Guards → Guards
set_guard authority g guards a = if a == authority then some g else guards a

-- `init_if_needed`: a new account is zeroed.
unfoldable pub loaded : Option GuardState → GuardState
loaded (some g) = g
loaded none = record { start_balance = 0; authority = 0; token_account = 0; locked = false }

abbrev not_locked : Bool → Bool
not_locked true = false
not_locked false = true

-- The constraints of `StartCheck`, then the body.
unfoldable pub start_check : Pubkey → TokenAccount → Guards → Result Guards
start_check authority account guards = do
  require (account.owner == authority) token_account_owner_mismatch
  require (not_locked (loaded (guards authority)).locked) guard_already_active
  ok (
      set_guard authority
        (record {
          start_balance = account.amount;
          authority = authority;
          token_account = account.key;
          locked = true;
        })
        guards)

-- An account that must exist.
abbrev pub existing : Option GuardState → Result GuardState
existing (some g) = ok g
existing none = failed

-- `has_one`.
abbrev pub require_same : Pubkey → Pubkey → Result (Unit {0})
require_same a b = if a == b then ok tt else failed

unfoldable pub profit_check : Pubkey → TokenAccount → ℕ → Guards → Result Guards
profit_check authority account min_profit guards = do
  guard ← existing (guards authority)
  require_same guard.authority authority
  require (account.key == guard.token_account) token_account_mismatch
  require (account.owner == authority) token_account_owner_mismatch
  require guard.locked guard_not_active
  threshold ← checked_add_u64 guard.start_balance min_profit
  require (leb threshold account.amount) no_profit_detected
  ok (set_guard authority (record guard { locked = false }) guards)

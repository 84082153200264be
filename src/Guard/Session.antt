-- ===== src/Guard/Session.antt =====
-- A session of the guard: `start_check`, what other instructions do, `profit_check`.
use engine_mev.Base.{
  ℕ, ◌+◌, ◌≤◌, ◌≡◌, ◌≢◌, inl, inr, refl, ◌∙◌, arith, true, false, Option, some, ◌==◌, Bool-cases,
}
use engine_mev.Guard.{
  ok, err, guard_already_active, guard_not_active, GuardState, TokenAccount, Guards, set_guard,
  loaded, start_check, profit_check, checked_add_u64,
}
use engine_mev.Pool.{Pubkey}

-- What a start leaves.
abbrev started_guard : Pubkey → TokenAccount → GuardState
started_guard a t = record {
  start_balance = t.amount;
  authority = a;
  token_account = t.key;
  locked = true;
}

-- What a start that succeeds leaves.
start_check-eq_ok :
    (a : Pubkey) (t : TokenAccount) (gs : Guards) {gs' : Guards}
    → start_check a t gs ≡ ok gs'
    → (gs' a ≡ some (started_guard a t)) × (t.owner ≡ a)
unfolding start_check set_guard
start_check-eq_ok a t gs h = ground arith

set_guard-other : (a b : Pubkey) (g : GuardState) (gs : Guards) → b ≢ a → set_guard a g gs b ≡ gs b
unfolding set_guard
set_guard-other a b g gs h = ground arith

profit_check-eq_ok :
    (a : Pubkey) (t : TokenAccount) (m : ℕ) (gs : Guards) (g : GuardState) {gs' : Guards}
    → gs a ≡ some g
    → profit_check a t m gs ≡ ok gs'
    → (t.key ≡ g.token_account)
      × (g.start_balance + m ≤ t.amount)
      × (gs' a ≡ some (record g { locked = false }))
unfolding profit_check checked_add_u64 set_guard
profit_check-eq_ok a t m gs g e h = ground arith

-- The instructions of other transactions and of the same one: a `start_check` by anyone, a
-- `profit_check` by another authority, each of which succeeded.
pub data Step (a : Pubkey) (gs gs' : Guards) : Type 0 where
  started : (b : Pubkey) (t : TokenAccount) → start_check b t gs ≡ ok gs' → Step a gs gs'
  checked :
      (b : Pubkey) (t : TokenAccount) (m : ℕ)
      → b ≢ a
      → profit_check b t m gs ≡ ok gs'
      → Step a gs gs'

pub data Steps (a : Pubkey) : Guards → Guards → Type 0 where
  done : {gs : Guards} → Steps a gs gs
  next : {gs gs' gs'' : Guards} → Step a gs gs' → Steps a gs' gs'' → Steps a gs gs''

locked_refuses :
    (a : Pubkey) (t : TokenAccount) (gs : Guards) (g : GuardState) {gs' : Guards}
    → gs a ≡ some g
    → g.locked ≡ true
    → start_check a t gs ≢ ok gs'
unfolding start_check loaded
locked_refuses a t gs g e l h = ground arith

start_elsewhere :
    (a b : Pubkey) (t : TokenAccount) (gs : Guards) {gs' : Guards}
    → a ≢ b
    → start_check b t gs ≡ ok gs'
    → gs' a ≡ gs a
unfolding start_check set_guard
start_elsewhere a b t gs other h = ground arith

check_elsewhere :
    (a b : Pubkey) (t : TokenAccount) (m : ℕ) (gs : Guards) {gs' : Guards}
    → a ≢ b
    → profit_check b t m gs ≡ ok gs'
    → gs' a ≡ gs a
unfolding profit_check set_guard
check_elsewhere a b t m gs other h = ground arith

Step-keeps :
    (a : Pubkey) (g : GuardState) {gs gs' : Guards}
    → g.locked ≡ true
    → gs a ≡ some g
    → Step a gs gs'
    → gs' a ≡ some g
Step-keeps a g {gs} {gs'} l e (started b t h) = elim (Bool-cases (a == b)) [
  | inl same ↦
      let same' : a ≡ b = ground arith in
      absurd (locked_refuses a t gs g {gs' = gs'} e l (rw (same') h))
  | inr other ↦ let kept : gs' a ≡ gs a = start_elsewhere a b t gs (ground arith) h in rw (kept) e
]
Step-keeps a g {gs} {gs'} l e (checked b t m other h) =
    let kept : gs' a ≡ gs a = check_elsewhere a b t m gs (ground arith) h in rw (kept) e

Steps-keep :
    (a : Pubkey) (g : GuardState) {gs gs' : Guards}
    → g.locked ≡ true
    → gs a ≡ some g
    → Steps a gs gs'
    → gs' a ≡ some g
Steps-keep a g l e done = e
Steps-keep a g l e (next s rest) = Steps-keep a g l (Step-keeps a g l e s) rest

opened :
    (g : GuardState) {x : Option GuardState}
    → x ≡ some (record g { locked = false })
    → (loaded x).locked ≡ false
unfolding loaded
opened g h = rw (h) refl

refused :
    (a : Pubkey) (t : TokenAccount) (gs : Guards) (g : GuardState)
    → gs a ≡ some g
    → t.owner ≡ a
    → g.locked ≡ true
    → start_check a t gs ≡ err guard_already_active
unfolding start_check loaded
refused a t gs g e own l = ground arith

-- A guard that is open refuses the check of an account that it would check otherwise.
open_refuses :
    (a : Pubkey) (t : TokenAccount) (m : ℕ) (gs : Guards) (g : GuardState)
    → gs a ≡ some g
    → g.authority ≡ a
    → t.key ≡ g.token_account
    → t.owner ≡ a
    → g.locked ≡ false
    → profit_check a t m gs ≡ err guard_not_active
unfolding profit_check
open_refuses a t m gs g e auth key own l = ground arith

checked_owner :
    (a : Pubkey) (t : TokenAccount) (m : ℕ) (gs : Guards) {gs' : Guards}
    → profit_check a t m gs ≡ ok gs'
    → t.owner ≡ a
unfolding profit_check
checked_owner a t m gs h = ground arith

-- Whatever starts and checks run in between, those of the same authority included as far as they
-- are starts: a `profit_check` that succeeds after a `start_check` is about the same token account,
-- which the authority owned at the start and still owns, and whose balance has grown by at least the
-- minimum profit since the start; and it opens the guard.
pub guarded_profit :
    (a : Pubkey) (t t' : TokenAccount) (m : ℕ) (gs0 gs1 gs2 gs3 : Guards)
    → start_check a t gs0 ≡ ok gs1
    → Steps a gs1 gs2
    → profit_check a t' m gs2 ≡ ok gs3
    → (t'.key ≡ t.key)
      × (t.owner ≡ a)
      × (t'.owner ≡ a)
      × (t.amount + m ≤ t'.amount)
      × ((loaded (gs3 a)).locked ≡ false)
guarded_profit a t t' m gs0 gs1 gs2 gs3 h steps k =
    let g = started_guard a t in
    let (e, owner) = start_check-eq_ok a t gs0 h in
    let (key, more, after) = profit_check-eq_ok a t' m gs2 g (Steps-keep a g refl e steps) k in
    (key, owner, checked_owner a t' m gs2 k, more, opened g after)

-- While a session of an authority is open, whatever starts and whatever checks of others run, each
-- further `start_check` of the authority is refused with `guard_already_active`, on any token
-- account that it owns, at any balance.
pub start_refused :
    (a : Pubkey) (t t' : TokenAccount) (gs0 gs1 gs2 : Guards)
    → start_check a t gs0 ≡ ok gs1
    → Steps a gs1 gs2
    → t'.owner ≡ a
    → start_check a t' gs2 ≡ err guard_already_active
start_refused a t t' gs0 gs1 gs2 h steps own =
    let g = started_guard a t in
    refused a t' gs2 g (Steps-keep a g refl (start_check-eq_ok a t gs0 h).0 steps) own refl

-- After the `profit_check` that ends a session, and as long as the guard stays as that left it, each
-- further `profit_check` of the session's token account, while the authority owns it, is refused
-- with `guard_not_active`, at any balance and for any minimum profit.
pub guard_refuses :
    (a : Pubkey) (t t' t'' : TokenAccount) (m n : ℕ) (gs0 gs1 gs2 gs3 gs4 : Guards)
    → start_check a t gs0 ≡ ok gs1
    → Steps a gs1 gs2
    → profit_check a t' m gs2 ≡ ok gs3
    → gs4 a ≡ gs3 a
    → t''.key ≡ t.key
    → t''.owner ≡ a
    → profit_check a t'' n gs4 ≡ err guard_not_active
guard_refuses a t t' t'' m n gs0 gs1 gs2 gs3 gs4 h steps k kept key own =
    let g = started_guard a t in
    let e = Steps-keep a g refl (start_check-eq_ok a t gs0 h).0 steps in
    let (_, _, after) = profit_check-eq_ok a t' m gs2 g e k in
    open_refuses a t'' n gs4 (record g { locked = false }) (kept ∙ after) refl key own refl

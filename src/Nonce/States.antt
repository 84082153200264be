-- ===== src/Nonce/States.antt =====
-- The states of the nonces: the accounts of the configuration keep theirs under every operation.
use engine_mev.Base.{
  ℕ, ◌+◌, ◌≡◌, ◌⊎◌, inl, inr, refl, arith, Option, none, some, List, [], ◌∷◌, ◌==◌, if◌then◌else◌,
  Bool-cases, Option-cases,
}
use engine_mev.Base.Outcome.{nothing, ret}
use engine_mev.Nonce.{
  NonceState, new_state, States, NoncePool, state_of, put_state, modify, insert_all, new_pool,
  Candidate, select, mark_used, checkout, settle, mark_settled, refresh, update_cached_hash,
}
use engine_mev.Nonce.Choice.{Tracked, select-total}
use engine_mev.Pool.{Pubkey}

abbrev pub on_some : (NonceState → NonceState) → Option NonceState → Option NonceState
on_some f none = none
on_some f (some s) = some (f s)

pub state_of-modify :
    (k q : Pubkey) (f : NonceState → NonceState) (m : States)
    → state_of q (modify k f m) ≡ (if k == q then on_some f (state_of q m) else state_of q m)
unfolding state_of modify
state_of-modify k q f [] = ground arith
state_of-modify k q f ((j, t) ∷ m) = ground (arith, state_of-modify k q f m)

state_of-put_state :
    (k q : Pubkey) (s : NonceState) (m : States)
    → state_of q (put_state k s m) ≡ (if k == q then some s else state_of q m)
unfolding state_of put_state
state_of-put_state k q s [] = refl
state_of-put_state k q s ((j, t) ∷ m) = ground (arith, state_of-put_state k q s m)

modify-kept :
    (k q : Pubkey) (f : NonceState → NonceState) (m : States) (s : NonceState)
    → state_of q m ≡ some s
    → (t : NonceState) × (state_of q (modify k f m) ≡ some t)
modify-kept k q f m s h = elim (Bool-cases (k == q)) [
  | inl e ↦ (f s, ground (arith, state_of-modify k q f m))
  | inr e ↦ (s, ground (arith, state_of-modify k q f m))
]

pub modify-Tracked :
    (k : Pubkey) (f : NonceState → NonceState) (m : States) (pks : List Pubkey)
    → Tracked m pks
    → Tracked (modify k f m) pks
modify-Tracked k f m [] h = tt
modify-Tracked k f m (pk ∷ pks) ((s, e), h) = (modify-kept k pk f m s e, modify-Tracked k f m pks h)

put_state-Tracked :
    (k : Pubkey) (s : NonceState) (m : States) (pks : List Pubkey)
    → Tracked m pks
    → Tracked (put_state k s m) pks
put_state-Tracked k s m [] h = tt
put_state-Tracked k s m (pk ∷ pks) ((t, e), h) = (
  elim (Bool-cases (k == pk)) [
    | inl same ↦ (s, ground (arith, state_of-put_state k pk s m))
    | inr other ↦ (t, ground (arith, state_of-put_state k pk s m))
  ],
  put_state-Tracked k s m pks h,
)

insert_all-kept :
    (epoch : ℕ) (pks : List Pubkey) (m : States) (q : Pubkey)
    → (s : NonceState) × (state_of q m ≡ some s)
    → (s : NonceState) × (state_of q (insert_all epoch pks m) ≡ some s)
unfolding insert_all
insert_all-kept epoch [] m q h = h
insert_all-kept epoch (pk ∷ pks) m q h =
    insert_all-kept epoch pks (put_state pk (new_state epoch) m) q
      (put_state-Tracked pk (new_state epoch) m (q ∷ []) (h, tt)).0

insert_all-Tracked :
    (epoch : ℕ) (pks : List Pubkey) (m : States) → Tracked (insert_all epoch pks m) pks
unfolding insert_all
insert_all-Tracked epoch [] m = tt
insert_all-Tracked epoch (pk ∷ pks) m = (
  insert_all-kept epoch pks (put_state pk (new_state epoch) m) pk
      (new_state epoch, ground (arith, state_of-put_state pk pk (new_state epoch) m)),
  insert_all-Tracked epoch pks (put_state pk (new_state epoch) m),
)

-- Every account of the configuration has a state, as the `expect`s of `checkout` need.
abbrev pub IsTracked : NoncePool → Type 0
IsTracked p = Tracked p.state p.nonces

-- A new pool tracks every configured account, and settling an account and refreshing a hash keep
-- that, for any account, whether it is configured or not.
pub nonce_pool-IsTracked :
    (now : ℕ) (pks : List Pubkey) (p : NoncePool) (k : Pubkey) (hash : ℕ)
    → IsTracked p
    → IsTracked (new_pool now pks)
      × IsTracked (mark_settled k p)
      × IsTracked (update_cached_hash now k hash p)
unfolding new_pool mark_settled update_cached_hash
nonce_pool-IsTracked now pks p k hash h = (
  insert_all-Tracked now pks [],
  modify-Tracked k settle p.state p.nonces h,
  modify-Tracked k (refresh now hash) p.state p.nonces h,
)

-- What `checkout` returns for its winner.
abbrev used_pool : ℕ → NoncePool → Candidate → ℕ → (Pubkey × ℕ) × NoncePool
used_pool now p w hash = (
  (w.key, hash),
  record p {
    state = modify w.key (mark_used now) p.state;
    collisions = if w.state.in_flight then p.collisions + 1 else p.collisions;
  },
)

-- A pool after the state of one account has changed.
used-IsTracked :
    (now : ℕ) (p : NoncePool) (best : Option Candidate)
    → IsTracked p
    → select p.state 0 p.nonces none ≡ ret best
    → (checkout now p ≡ nothing)
      ⊎ ((out : (Pubkey × ℕ) × NoncePool) × (checkout now p ≡ ret out) × IsTracked out.1)
unfolding checkout
used-IsTracked now p none h e = inl (ground arith)
used-IsTracked now p (some w) h e = elim (Option-cases w.state.cached_hash) [
  | inl f ↦ inl (ground arith)
  | inr (x, f) ↦
      inr
        (used_pool now p w x, ground arith, modify-Tracked w.key (mark_used now) p.state p.nonces h)
]

-- `checkout` on a pool that tracks its accounts never panics: it returns nothing, or a nonce and a
-- pool that tracks them too.
pub checkout-IsTracked :
    (now : ℕ) (p : NoncePool)
    → IsTracked p
    → (checkout now p ≡ nothing)
      ⊎ ((out : (Pubkey × ℕ) × NoncePool) × (checkout now p ≡ ret out) × IsTracked out.1)
checkout-IsTracked now p h =
    let (best, e) = select-total p.state 0 p.nonces none h in used-IsTracked now p best h e

-- ===== src/Nonce.antt =====
-- The pool of durable nonces, src/cexdex/nonce.rs: the accounts in the order of the configuration,
-- the state of each (an association list for the concurrent map), and the counter of collisions.
-- `now` stands for the reading of the monotonic clock in nanoseconds, and a hash for the number that its
-- bytes spell. The gauges that only count are not modelled.
use engine_mev.Base.{
  ℕ, ◌+◌, Bool, true, false, Option, none, some, List, [], ◌∷◌, length, ◌==◌, ltb, ◌&&◌, ◌||◌,
  if◌then◌else◌,
}
use engine_mev.Base.Outcome.{Outcome, ret, nothing, panic, of_option, ◌>>=◌}
use engine_mev.Pool.{Pubkey}
pub mod Checkout
pub mod Choice
pub mod States

pub record NonceState : Type 0 where
  pub last_used : ℕ
  pub in_flight : Bool
  pub cached_hash : Option ℕ
  pub hash_observed_at : Option ℕ

unfoldable pub new_state : ℕ → NonceState
new_state epoch = record {
  last_used = epoch;
  in_flight = false;
  cached_hash = none;
  hash_observed_at = none;
}

abbrev pub States : Type 0
States = List (Pubkey × NonceState)

pub record NoncePool : Type 0 where
  pub nonces : List Pubkey
  pub state : States
  pub collisions : ℕ
  pub hash_refreshes : ℕ

-- `DashMap::get`, `insert` and the write through `get_mut`.
unfoldable pub state_of : Pubkey → States → Option NonceState
state_of k [] = none
state_of k ((j, s) ∷ m) = let rest = state_of k m in if j == k then some s else rest

unfoldable pub put_state : Pubkey → NonceState → States → States
put_state k s [] = (k, s) ∷ []
put_state k s ((j, t) ∷ m) =
    let rest = put_state k s m in if j == k then (j, s) ∷ m else (j, t) ∷ rest

unfoldable pub modify : Pubkey → (NonceState → NonceState) → States → States
modify k f [] = []
modify k f ((j, t) ∷ m) = let rest = modify k f m in if j == k then (j, f t) ∷ m else (j, t) ∷ rest

unfoldable pub insert_all : ℕ → List Pubkey → States → States
insert_all epoch [] m = m
insert_all epoch (pk ∷ pks) m = insert_all epoch pks (put_state pk (new_state epoch) m)

unfoldable pub new_pool : ℕ → List Pubkey → NoncePool
new_pool epoch nonces = record {
  nonces = nonces;
  state = insert_all epoch nonces [];
  collisions = 0;
  hash_refreshes = 0;
}

-- A candidate: its place in the configuration, its key and its state.
pub record Candidate : Type 0 where
  pub idx : ℕ
  pub key : Pubkey
  pub state : NonceState

-- The candidate is older, or as old and earlier in the configuration.
unfoldable pub is_older : Candidate → Candidate → Bool
is_older candidate cur =
    ltb candidate.state.last_used cur.state.last_used
    || (candidate.state.last_used == cur.state.last_used && ltb candidate.idx cur.idx)

unfoldable pub choose_by : Bool → Bool → Candidate → Candidate → Candidate
choose_by true false cur candidate = candidate
choose_by false true cur candidate = cur
choose_by true true cur candidate = if is_older candidate cur then candidate else cur
choose_by false false cur candidate = if is_older candidate cur then candidate else cur

unfoldable pub choose : Option Candidate → Candidate → Candidate
choose none candidate = candidate
choose (some cur) candidate = choose_by cur.state.in_flight candidate.state.in_flight cur candidate

-- `Option::is_none`.
abbrev pub is_none : Option ℕ → Bool
is_none none = true
is_none (some h) = false

-- The loop of `checkout` over the keys from the given place on: `expect` panics on a key that has no state.
unfoldable pub select : States → ℕ → List Pubkey → Option Candidate → Outcome (Option Candidate)
select m idx [] best = ret best
select m idx (pk ∷ pks) best = elim (state_of pk m) [
  | none ↦ panic
  | some entry ↦
      if is_none entry.cached_hash
      then select m (idx + 1) pks best
      else select m (idx + 1) pks
          (some (choose best (record { idx = idx; key = pk; state = entry })))
]

unfoldable pub mark_used : ℕ → NonceState → NonceState
mark_used now s = record s { last_used = now; in_flight = true }

-- `checkout`: the key and its hash, and the pool afterwards.
unfoldable pub checkout : ℕ → NoncePool → Outcome ((Pubkey × ℕ) × NoncePool)
checkout now p = do
  best ← select p.state 0 p.nonces none
  winner ← of_option best
  hash ← of_option winner.state.cached_hash
  ret (
    (winner.key, hash),
    record p {
      state = modify winner.key (mark_used now) p.state;
      collisions = if winner.state.in_flight then p.collisions + 1 else p.collisions;
    },
  )

unfoldable pub settle : NonceState → NonceState
settle s = record s { in_flight = false }

unfoldable pub mark_settled : Pubkey → NoncePool → NoncePool
mark_settled k p = record p { state = modify k settle p.state }

unfoldable pub refresh : ℕ → ℕ → NonceState → NonceState
refresh now hash s = record s { cached_hash = some hash; hash_observed_at = some now }

unfoldable pub contains : Pubkey → NoncePool → Bool
contains k p = elim (state_of k p.state) [ none ↦ false | some s ↦ true ]

unfoldable pub update_cached_hash : ℕ → Pubkey → ℕ → NoncePool → NoncePool
update_cached_hash now k hash p = record p {
  state = modify k (refresh now hash) p.state;
  hash_refreshes = if contains k p then p.hash_refreshes + 1 else p.hash_refreshes;
}

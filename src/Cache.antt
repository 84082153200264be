-- ===== src/Cache.antt =====
-- The pool cache, src/state/cache.rs: the table of pools with the time of their last update, the
-- two indices from tokens and from token pairs to pools, and the side tables. The shared maps are
-- explicit values; an operation returns the new cache. `Instant::now()` is an argument, in
-- nanoseconds. A set and the vector of a pair are lists without repetition; the order in which a
-- `HashSet` is iterated is an argument.
use engine_mev.Base.{
  ℕ, ◌-◌, ◌*◌, Bool, true, false, Option, none, some, List, [], ◌∷◌, length, ◌==◌, ltb, leb, not,
  if◌then◌else◌,
}
use engine_mev.Cache.Index.{add, discard, pubkey_key, pair_key}
use engine_mev.Pool.{Pubkey, PoolState, DlmmBinArray, ClmmTickArray}
pub mod Index
pub mod Table
pub mod Indexed
pub mod Sound
pub mod Reached

pub record CacheEntry : Type 0 where
  pub state : PoolState
  pub last_updated : ℕ

unfoldable pub normalize_pair : Pubkey → Pubkey → Pubkey × Pubkey
normalize_pair a b = if leb a b then (a, b) else (b, a)

pub record StateCache : Type 0 where
  pub pools : List (Pubkey × CacheEntry)
  pub token_to_pools : Pubkey → Option (List Pubkey)
  pub pair_to_pools : Pubkey × Pubkey → Option (List Pubkey)
  pub mint_programs : Pubkey → Option Pubkey
  pub lst_indices : Pubkey → Option ℕ
  pub bin_arrays : Pubkey → Option (List DlmmBinArray)
  pub tick_arrays : Pubkey → Option (List ClmmTickArray)
  pub ttl : ℕ

unfoldable pub new : ℕ → StateCache
new ttl = record {
  pools = [];
  token_to_pools = λ _. none;
  pair_to_pools = λ _. none;
  mint_programs = λ _. none;
  lst_indices = λ _. none;
  bin_arrays = λ _. none;
  tick_arrays = λ _. none;
  ttl = ttl;
}

-- The `DashMap` of pools.
unfoldable pub lookup {ℓ} : {V : Type ℓ} → Pubkey → List (Pubkey × V) → Option V
lookup k [] = none
lookup k ((j, v) ∷ m) = if j == k then some v else lookup k m

unfoldable pub insert {ℓ} : {V : Type ℓ} → Pubkey → V → List (Pubkey × V) → List (Pubkey × V)
insert k v [] = (k, v) ∷ []
insert k v ((j, w) ∷ m) = if j == k then (k, v) ∷ m else (j, w) ∷ insert k v m

unfoldable pub upsert : ℕ → Pubkey → PoolState → StateCache → StateCache
upsert now pool_address state c = record c {
  token_to_pools =
      add pool_address state.token_b_mint (add pool_address state.token_a_mint c.token_to_pools);
  pair_to_pools =
      add pool_address (normalize_pair state.token_a_mint state.token_b_mint) c.pair_to_pools;
  pools = insert pool_address (record { state = state; last_updated = now }) c.pools;
}

-- `entry.last_updated.elapsed() < limit`.
unfoldable pub is_within : ℕ → ℕ → CacheEntry → Bool
is_within now limit entry = ltb (now - entry.last_updated) limit

unfoldable pub get : ℕ → StateCache → Pubkey → Option PoolState
get now c pool_address = elim (lookup pool_address c.pools) [
  | none ↦ none
  | some entry ↦ if is_within now c.ttl entry then some entry.state else none
]

unfoldable pub get_any : StateCache → Pubkey → Option PoolState
get_any c pool_address = elim (lookup pool_address c.pools) [
  | none ↦ none
  | some entry ↦ some entry.state
]

unfoldable pub pools_for_token : (List Pubkey → List Pubkey) → StateCache → Pubkey → List Pubkey
pools_for_token order c mint = elim (c.token_to_pools mint) [ none ↦ [] | some s ↦ order s ]

unfoldable pub pools_for_pair : StateCache → Pubkey → Pubkey → List Pubkey
pools_for_pair c mint_a mint_b = elim (c.pair_to_pools (normalize_pair mint_a mint_b)) [
  | none ↦ []
  | some v ↦ v
]

unfoldable pub len : StateCache → ℕ
len c = length c.pools

unfoldable pub is_empty : StateCache → Bool
is_empty c = elim c.pools [ [] ↦ true | _ ∷ _ ↦ false ]

unfoldable pub get_mint_program : StateCache → Pubkey → Option Pubkey
get_mint_program c mint = c.mint_programs mint

-- A write to a side table.
unfoldable pub put {ℓ} : {V : Type ℓ} → (Pubkey → Option V) → Pubkey → V → Pubkey → Option V
put f k v j = if k == j then some v else f j

unfoldable pub set_mint_program : Pubkey → Pubkey → StateCache → StateCache
set_mint_program mint program c = record c { mint_programs = put c.mint_programs mint program }

unfoldable pub get_lst_index : StateCache → Pubkey → Option ℕ
get_lst_index c mint = c.lst_indices mint

unfoldable pub set_lst_index : Pubkey → ℕ → StateCache → StateCache
set_lst_index mint index c = record c { lst_indices = put c.lst_indices mint index }

unfoldable pub set_bin_arrays : Pubkey → List DlmmBinArray → StateCache → StateCache
set_bin_arrays pool arrays c = record c { bin_arrays = put c.bin_arrays pool arrays }

unfoldable pub get_bin_arrays : StateCache → Pubkey → Option (List DlmmBinArray)
get_bin_arrays c pool = c.bin_arrays pool

unfoldable pub set_tick_arrays : Pubkey → List ClmmTickArray → StateCache → StateCache
set_tick_arrays pool arrays c = record c { tick_arrays = put c.tick_arrays pool arrays }

unfoldable pub get_tick_arrays : StateCache → Pubkey → Option (List ClmmTickArray)
get_tick_arrays c pool = c.tick_arrays pool

-- `EVICTION_AGE`, 600 seconds.
abbrev pub eviction_age : ℕ
eviction_age = 600_000_000_000

-- `retain`: the entries that stay, and those that go.
unfoldable pub keep_fresh : ℕ → List (Pubkey × CacheEntry) → List (Pubkey × CacheEntry)
keep_fresh now [] = []
keep_fresh now (e ∷ m) =
    let rest = keep_fresh now m in if is_within now eviction_age e.1 then e ∷ rest else rest

unfoldable pub stale_pools : ℕ → List (Pubkey × CacheEntry) → List (Pubkey × CacheEntry)
stale_pools now [] = []
stale_pools now (e ∷ m) =
    let rest = stale_pools now m in if is_within now eviction_age e.1 then rest else e ∷ rest

-- The clean-up of the two indices for one evicted pool.
unfoldable pub unindex : Pubkey × CacheEntry → StateCache → StateCache
unindex e c =
    let s = e.1.state in
    record c {
      token_to_pools = discard e.0 s.token_b_mint (discard e.0 s.token_a_mint c.token_to_pools);
      pair_to_pools = discard e.0 (normalize_pair s.token_a_mint s.token_b_mint) c.pair_to_pools;
    }

unfoldable pub unindex_all : List (Pubkey × CacheEntry) → StateCache → StateCache
unindex_all [] c = c
unindex_all (e ∷ rest) c = unindex_all rest (unindex e c)

unfoldable pub evict_stale : ℕ → StateCache → StateCache
evict_stale now c =
    unindex_all (stale_pools now c.pools) (record c { pools = keep_fresh now c.pools })

-- ===== src/Cache/Table.antt =====
-- The table of pools: lookups after an insertion and after the eviction of what is stale.
use engine_mev.Base.{
  ℕ, ◌≡◌, ◌≢◌, refl, arith, Option, none, some, List, [], ◌∷◌, ◌==◌, All, if◌then◌else◌,
}
use engine_mev.Cache.{CacheEntry, lookup, insert, is_within, eviction_age, keep_fresh, stale_pools}
use engine_mev.Pool.{Pubkey}

abbrev pub Pools : Type 0
Pools = List (Pubkey × CacheEntry)

-- No address has two entries.
abbrev pub IsUnique : Pools → Type 0
IsUnique [] = Unit
IsUnique ((k, v) ∷ m) = (lookup k m ≡ none) × IsUnique m

pub lookup-insert :
    (p q : Pubkey) (v : CacheEntry) (m : Pools)
    → lookup q (insert p v m) ≡ (if p == q then some v else lookup q m)
unfolding lookup insert
lookup-insert p q v [] = refl
lookup-insert p q v ((j, w) ∷ m) = ground (arith, lookup-insert p q v m)

pub insert-IsUnique :
    (p : Pubkey) (v : CacheEntry) (m : Pools) → IsUnique m → IsUnique (insert p v m)
unfolding lookup insert
insert-IsUnique p v [] h = (refl, tt)
insert-IsUnique p v ((j, w) ∷ m) h =
    ground (arith, insert-IsUnique p v m h.1, lookup-insert p j v m)

-- An entry, unless it is older than the eviction age.
unfoldable pub if_fresh : ℕ → Option CacheEntry → Option CacheEntry
if_fresh now none = none
if_fresh now (some e) = if is_within now eviction_age e then some e else none

pub lookup-keep_fresh :
    (now : ℕ) (q : Pubkey) (m : Pools)
    → IsUnique m
    → lookup q (keep_fresh now m) ≡ if_fresh now (lookup q m)
unfolding lookup keep_fresh if_fresh
lookup-keep_fresh now q [] h = refl
lookup-keep_fresh now q ((j, w) ∷ m) h = ground (arith, lookup-keep_fresh now q m h.1)

pub keep_fresh-IsUnique : (now : ℕ) (m : Pools) → IsUnique m → IsUnique (keep_fresh now m)
unfolding keep_fresh if_fresh
keep_fresh-IsUnique now [] h = tt
keep_fresh-IsUnique now ((j, w) ∷ m) h =
    ground (arith, keep_fresh-IsUnique now m h.1, lookup-keep_fresh now j m h.1)

-- What stays is not among what goes.
pub stale_ne :
    (now : ℕ) (q : Pubkey) (m : Pools)
    → lookup q (stale_pools now m) ≡ none
    → All (λ (e : Pubkey × CacheEntry). e.0 ≢ q) (stale_pools now m)
unfolding lookup stale_pools
stale_ne now q [] h = tt
stale_ne now q ((j, w) ∷ m) h = ground (arith, stale_ne now q m)

pub lookup-stale_pools :
    (now : ℕ) (q : Pubkey) (m : Pools)
    → IsUnique m
    → lookup q (stale_pools now m) ≡ elim (lookup q m) [
      | none ↦ none
      | some e ↦ if is_within now eviction_age e then none else some e
    ]
unfolding lookup stale_pools
lookup-stale_pools now q [] h = refl
lookup-stale_pools now q ((j, w) ∷ m) h = ground (arith, lookup-stale_pools now q m h.1)

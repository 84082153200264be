-- ===== src/Tests/Caches.antt =====
-- A cache of two pools, updated and evicted.
use engine_mev.Base.{ℕ, ◌-◌, ◌≡◌, refl, arith, none, some, ltb, if◌then◌else◌}
use engine_mev.Cache.{
  StateCache, normalize_pair, new, lookup, insert, upsert, is_within, get_any, pools_for_token,
  pools_for_pair, keep_fresh, stale_pools, unindex, unindex_all, evict_stale,
}
use engine_mev.Cache.Index.{contains, listed, insert_new, with_pool, without_pool, add, discard}
use engine_mev.Cache.Indexed.{
  Listed, IsIndexed, upsert-IsIndexed, evict_stale-IsIndexed, get_any-evict_stale,
}
use engine_mev.Cache.Reached.{Reached, updated, evicted, Reached-IsSound}
use engine_mev.Cache.Sound.{IsSound, SameMints}
use engine_mev.Pool.{PoolState}
use engine_mev.Tests.Data.{amm}

abbrev pool : PoolState
pool = amm 10 1 2 1_000_000 2_000_000

abbrev other : PoolState
other = amm 11 2 3 1_000_000 2_000_000

program : Unit {0}
unfolding normalize_pair new lookup insert upsert is_within get_any pools_for_token pools_for_pair
    keep_fresh stale_pools unindex unindex_all evict_stale contains listed insert_new with_pool
    without_pool add discard
program = tt

abbrev empty : StateCache
empty = new 2_000_000_000

-- One pool at time 5, another one a thousand seconds later.
abbrev one : StateCache
one = upsert 5 10 pool empty

abbrev two : StateCache
two = upsert 1_000_000_000_005 11 other one

abbrev later : ℕ
later = 1_000_000_000_006

empty-IsIndexed : IsIndexed empty
unfolding program
empty-IsIndexed = record { unique = tt; listing = λ p e h. absurd (ground arith) }

one-IsIndexed : IsIndexed one
one-IsIndexed = (upsert-IsIndexed 5 10 pool empty empty-IsIndexed).0

two-IsIndexed : IsIndexed two
two-IsIndexed = (upsert-IsIndexed 1_000_000_000_005 11 other one one-IsIndexed).0

-- The first pool is gone, the second one stays.
evicted_pool :
    (get_any (evict_stale later two) 10 ≡ none) × (get_any (evict_stale later two) 11 ≡ some other)
unfolding program
evicted_pool = (refl, refl)

same_one : SameMints empty 10 pool
unfolding program
same_one e h = absurd (ground arith)

same_two : SameMints one 11 other
unfolding program
same_two e h = absurd (ground arith)

upsert-IsIndexed_example : IsIndexed two × Listed two 11 other
upsert-IsIndexed_example = upsert-IsIndexed 1_000_000_000_005 11 other one one-IsIndexed

evict_stale-IsIndexed_example : IsIndexed (evict_stale later two)
evict_stale-IsIndexed_example = evict_stale-IsIndexed later two two-IsIndexed

get_any-evict_stale_example : get_any (evict_stale later two) 10 ≡ elim (lookup 10 two.pools) [
  | none ↦ none
  | some e ↦ if ltb (later - e.last_updated) 600_000_000_000 then some e.state else none
]
get_any-evict_stale_example = get_any-evict_stale later two 10 two-IsIndexed.unique

Reached-IsSound_example : IsIndexed (evict_stale later two) × IsSound (evict_stale later two)
Reached-IsSound_example = Reached-IsSound (evict_stale later two) (
    evicted later (
      updated 1_000_000_000_005 11 other same_two
        (updated 5 10 pool same_one (Reached.empty 2_000_000_000))))

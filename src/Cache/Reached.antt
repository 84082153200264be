-- ===== src/Cache/Reached.antt =====
-- The caches of src/state/cache.rs that a run of updates and clean-ups reaches from an empty one.
use engine_mev.Base.{ℕ, arith}
use engine_mev.Cache.{StateCache, new, lookup, upsert, evict_stale}
use engine_mev.Cache.Index.{listed}
use engine_mev.Cache.Indexed.{IsIndexed, upsert-IsIndexed, evict_stale-IsIndexed}
use engine_mev.Cache.Sound.{IsSound, SameMints, upsert-IsSound, evict_stale-IsSound}
use engine_mev.Pool.{Pubkey, PoolState}

-- A run, in which an update of a pool that is cached keeps its mints.
pub data Reached : StateCache → Type 0 where
  empty : (ttl : ℕ) → Reached (new ttl)
  updated :
      (now : ℕ) (p : Pubkey) (s : PoolState) {c : StateCache}
      → SameMints c p s
      → Reached c
      → Reached (upsert now p s c)
  evicted : (now : ℕ) {c : StateCache} → Reached c → Reached (evict_stale now c)

new-IsIndexed : (ttl : ℕ) → IsIndexed (new ttl)
unfolding new lookup
new-IsIndexed ttl = record { unique = tt; listing = λ p e h. absurd (ground arith) }

new-IsSound : (ttl : ℕ) → IsSound (new ttl)
unfolding new listed
new-IsSound ttl p m h = absurd (ground arith)

-- In every cache that updates and clean-ups reach from an empty one, where each update of a cached
-- pool keeps the pool's mints: a cached pool is listed under its mints and their pair, no address
-- is cached twice, and a pool that is listed under a mint is cached with that mint.
pub Reached-IsSound : (c : StateCache) → Reached c → IsIndexed c × IsSound c
Reached-IsSound _ (empty ttl) = (new-IsIndexed ttl, new-IsSound ttl)
Reached-IsSound _ (updated now p s {c} same run) =
    let (indexed, sound) = Reached-IsSound c run in
    ((upsert-IsIndexed now p s c indexed).0, upsert-IsSound now p s c same sound)
Reached-IsSound _ (evicted now {c} run) =
    let (indexed, sound) = Reached-IsSound c run in
    (evict_stale-IsIndexed now c indexed, evict_stale-IsSound now c indexed.unique sound)

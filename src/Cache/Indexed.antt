-- ===== src/Cache/Indexed.antt =====
-- The two indices and the table of pools agree: what `upsert` and `evict_stale` keep.
use engine_mev.Base.{
  ℕ, ◌-◌, ltb, ◌≡◌, ◌≢◌, inl, inr, refl, ap, arith, true, false, Option, none, some, List, [], ◌∷◌,
  ◌==◌, ==_refl, ==_iff, All, Bool-cases, if◌then◌else◌,
}
use engine_mev.Cache.{
  CacheEntry, StateCache, normalize_pair, lookup, upsert, keep_fresh, stale_pools, unindex,
  unindex_all, evict_stale, get_any, pools_for_pair, is_within,
}
use engine_mev.Cache.Index.{
  Key, listed, add, discard, pubkey_key, pair_key, listed-add, listed-discard, contains,
}
use engine_mev.Cache.Table.{
  IsUnique, lookup-insert, insert-IsUnique, if_fresh, lookup-keep_fresh, keep_fresh-IsUnique,
  stale_ne, lookup-stale_pools,
}
use engine_mev.Pool.{Pubkey, PoolState}

-- The pool is listed under both of its mints and under their pair.
pub record Listed (c : StateCache) (p : Pubkey) (s : PoolState) : Type 0 where
  pub token_a : listed p (c.token_to_pools s.token_a_mint) ≡ true
  pub token_b : listed p (c.token_to_pools s.token_b_mint) ≡ true
  pub pair : listed p (c.pair_to_pools (normalize_pair s.token_a_mint s.token_b_mint)) ≡ true

-- Every cached pool is listed, and no address is cached twice.
pub record IsIndexed (c : StateCache) : Type 0 where
  pub unique : IsUnique c.pools
  pub listing : (p : Pubkey) (e : CacheEntry) → lookup p c.pools ≡ some e → Listed c p e.state

module _ {K : Type 0} ⦃key : Key K⦄ (q p : Pubkey) (k j : K) (f : K → Option (List Pubkey)) where
  -- An addition takes no listing away, and a removal of another pool neither.
  add-keeps : listed q (f j) ≡ true → listed q (add p k f j) ≡ true
  add-keeps h = ground (arith, listed-add q p k j f)

  discard-keeps : p ≢ q → listed q (f j) ≡ true → listed q (discard p k f j) ≡ true
  discard-keeps ne h = ground (arith, listed-discard q p k j f)

  -- A removal adds none.
  discard-less : listed q (f j) ≡ false → listed q (discard p k f j) ≡ false
  discard-less h = ground (arith, listed-discard q p k j f)

module _ {K : Type 0} ⦃key : Key K⦄ (p : Pubkey) (k : K) (f : K → Option (List Pubkey)) where
  add-lists : listed p (add p k f k) ≡ true
  add-lists = rw (listed-add, (key.same_iff k k).1 refl, ==_refl p)

  discard-unlists : listed p (discard p k f k) ≡ false
  discard-unlists = rw (listed-discard, (key.same_iff k k).1 refl, ==_refl p)

normalize_pair_comm : (a b : Pubkey) → normalize_pair a b ≡ normalize_pair b a
unfolding normalize_pair
normalize_pair_comm a b = ground arith

contains-entry :
    (p : Pubkey) (o : Option (List Pubkey))
    → listed p o ≡ true
    → contains p (elim o [ none ↦ [] | some v ↦ v ]) ≡ true
unfolding listed
contains-entry p none h = cc
contains-entry p (some s) h = h

pools_for_pair_comm : (c : StateCache) (a b : Pubkey) → pools_for_pair c a b ≡ pools_for_pair c b a
unfolding pools_for_pair
pools_for_pair_comm c a b =
    ap (λ k. elim (c.pair_to_pools k) [ none ↦ [] | some v ↦ v ]) (normalize_pair_comm a b)

pair_found :
    {c : StateCache} {p : Pubkey} {s : PoolState}
    → Listed c p s
    → contains p (pools_for_pair c s.token_a_mint s.token_b_mint) ≡ true
unfolding pools_for_pair
pair_found h = contains-entry _ _ h.pair

module _ (now : ℕ) (p : Pubkey) (s : PoolState) (c : StateCache) where
  upsert-lists : Listed (upsert now p s c) p s
  unfolding upsert
  upsert-lists = record {
    token_a = add-keeps p p _ _ _ (add-lists p s.token_a_mint c.token_to_pools);
    token_b = add-lists p s.token_b_mint _;
    pair = add-lists p _ c.pair_to_pools;
  }

  upsert-keeps : (q : Pubkey) (t : PoolState) → Listed c q t → Listed (upsert now p s c) q t
  unfolding upsert
  upsert-keeps q t h = record {
    token_a = add-keeps q p _ _ _ (add-keeps q p _ _ _ h.token_a);
    token_b = add-keeps q p _ _ _ (add-keeps q p _ _ _ h.token_b);
    pair = add-keeps q p _ _ _ h.pair;
  }

  lookup-upsert :
      (q : Pubkey)
      → lookup q (upsert now p s c).pools
        ≡ (if p == q then some (record { state = s; last_updated = now }) else lookup q c.pools)
  unfolding upsert
  lookup-upsert q = lookup-insert p q _ c.pools

  upsert_listing :
      (q : Pubkey) (e : CacheEntry)
      → IsIndexed c
      → lookup q (upsert now p s c).pools ≡ some e
      → Listed (upsert now p s c) q e.state
  upsert_listing q e h found = elim (Bool-cases (p == q)) [
    | inl hit ↦
        let same_pool : p ≡ q = (==_iff p q).0 hit in
        let same_state : s ≡ e.state = ground (arith, lookup-upsert q) in
        rw (← same_pool, ← same_state) upsert-lists
    | inr miss ↦ upsert-keeps q e.state (h.listing q e (ground (arith, lookup-upsert q)))
  ]

  -- Inserting or updating a pool keeps every cached pool listed under its mints and under their
  -- pair, and keeps addresses unique; it also lists the new state.
  pub upsert-IsIndexed : IsIndexed c → IsIndexed (upsert now p s c) × Listed (upsert now p s c) p s
  unfolding upsert
  upsert-IsIndexed h = (
    record {
      unique = insert-IsUnique p _ c.pools h.unique;
      listing = λ q e found. upsert_listing q e h found;
    },
    upsert-lists,
  )

  -- After an update `get_any` gives the new state of that pool and what it gave before of any other.
  pub get_any-upsert :
      (q : Pubkey) → get_any (upsert now p s c) q ≡ (if p == q then some s else get_any c q)
  unfolding get_any
  get_any-upsert q = ground (arith, lookup-upsert q)

  -- After an update the pool is found under its pair of mints, in either order.
  pub pools_for_pair-upsert :
      (contains p (pools_for_pair (upsert now p s c) s.token_a_mint s.token_b_mint) ≡ true)
      × (contains p (pools_for_pair (upsert now p s c) s.token_b_mint s.token_a_mint) ≡ true)
  pools_for_pair-upsert =
      let found = pair_found upsert-lists in
      (found, rw (pools_for_pair_comm _ s.token_b_mint s.token_a_mint) found)

module _ (q : Pubkey) where
  -- A clean-up for another pool keeps the listings of `q`, and none adds a listing.
  unindex-keeps :
      (e : Pubkey × CacheEntry) (c : StateCache) (s : PoolState)
      → e.0 ≢ q
      → Listed c q s
      → Listed (unindex e c) q s
  unfolding unindex
  unindex-keeps e c s ne h = record {
    token_a = discard-keeps q e.0 _ _ _ ne (discard-keeps q e.0 _ _ _ ne h.token_a);
    token_b = discard-keeps q e.0 _ _ _ ne (discard-keeps q e.0 _ _ _ ne h.token_b);
    pair = discard-keeps q e.0 _ _ _ ne h.pair;
  }

  unindex_all-keeps :
      (st : List (Pubkey × CacheEntry)) (c : StateCache) (s : PoolState)
      → All (λ (e : Pubkey × CacheEntry). e.0 ≢ q) st
      → Listed c q s
      → Listed (unindex_all st c) q s
  unfolding unindex_all
  unindex_all-keeps [] c s ne h = h
  unindex_all-keeps (e ∷ st) c s ne h =
      unindex_all-keeps st (unindex e c) s ne.1 (unindex-keeps e c s ne.0 h)

unindex_all-pools :
    (st : List (Pubkey × CacheEntry)) (c : StateCache) → (unindex_all st c).pools ≡ c.pools
unfolding unindex_all unindex
unindex_all-pools [] c = refl
unindex_all-pools (e ∷ st) c = unindex_all-pools st (unindex e c)

module _ (now : ℕ) (c : StateCache) where
  evict-pools : (evict_stale now c).pools ≡ keep_fresh now c.pools
  unfolding evict_stale
  evict-pools = unindex_all-pools _ _

  fresh_entry :
      (q : Pubkey) (e : CacheEntry)
      → IsUnique c.pools
      → lookup q (keep_fresh now c.pools) ≡ some e
      → (lookup q c.pools ≡ some e) × (lookup q (stale_pools now c.pools) ≡ none)
  unfolding if_fresh
  fresh_entry q e u found =
      ground (arith, lookup-keep_fresh now q c.pools u, lookup-stale_pools now q c.pools u)

  -- Evicting stale pools keeps every pool that stays listed under its mints and their pair, and
  -- keeps addresses unique.
  pub evict_stale-IsIndexed : IsIndexed c → IsIndexed (evict_stale now c)
  unfolding evict_stale
  evict_stale-IsIndexed h = record {
    unique = rw (unindex_all-pools) (keep_fresh-IsUnique now c.pools h.unique);
    listing = λ q e found.
        let kept = fresh_entry q e h.unique (rw unindex_all-pools at found) in
        let old = h.listing q e kept.0 in
        unindex_all-keeps q (stale_pools now c.pools) _ e.state (stale_ne now q c.pools kept.1)
          (record { token_a = old.token_a; token_b = old.token_b; pair = old.pair });
  }

  -- After an eviction `get_any` gives the states that were updated less than ten minutes ago, and
  -- no other.
  pub get_any-evict_stale :
      (q : Pubkey)
      → IsUnique c.pools
      → get_any (evict_stale now c) q ≡ elim (lookup q c.pools) [
        | none ↦ none
        | some e ↦ if ltb (now - e.last_updated) 600_000_000_000 then some e.state else none
      ]
  unfolding get_any if_fresh is_within
  get_any-evict_stale q u = ground (arith, lookup-keep_fresh now q c.pools u, evict-pools)

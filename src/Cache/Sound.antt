-- ===== src/Cache/Sound.antt =====
-- The two indices list nothing but cached pools, as long as a pool keeps its mints.
use engine_mev.Base.{
  ℕ, ◌≡◌, ◌⊎◌, inl, inr, refl, arith, true, false, Option, some, List, [], ◌∷◌, ◌==◌, ==_iff,
  Bool-cases,
}
use engine_mev.Cache.{
  CacheEntry, StateCache, lookup, upsert, keep_fresh, stale_pools, unindex, unindex_all,
  evict_stale, is_within, eviction_age,
}
use engine_mev.Cache.Index.{listed, add, discard, pubkey_key, pair_key, listed-add, listed-discard}
use engine_mev.Cache.Table.{
  IsUnique, lookup-insert, lookup-keep_fresh, lookup-stale_pools, if_fresh,
}
use engine_mev.Pool.{Pubkey, PoolState}

-- A pool that is listed under a mint is cached, and trades that mint.
abbrev pub IsSound : StateCache → Type 0
IsSound c =
    (p m : Pubkey)
    → listed p (c.token_to_pools m) ≡ true
    → (e : CacheEntry) × (lookup p c.pools ≡ some e)
      × ((e.state.token_a_mint ≡ m) ⊎ (e.state.token_b_mint ≡ m))

-- The cache holds no other state of the pool with other mints.
abbrev pub SameMints : StateCache → Pubkey → PoolState → Type 0
SameMints c p s =
    (e : CacheEntry)
    → lookup p c.pools ≡ some e
    → (e.state.token_a_mint ≡ s.token_a_mint) × (e.state.token_b_mint ≡ s.token_b_mint)

-- What is listed after the two additions of an update.
listed_after :
    (p a b q m : Pubkey) (f : Pubkey → Option (List Pubkey))
    → listed q (add p b (add p a f) m) ≡ true
    → ((p ≡ q) × ((a ≡ m) ⊎ (b ≡ m))) ⊎ (listed q (f m) ≡ true)
listed_after p a b q m f h = ground (arith, listed-add q p b m (add p a f), listed-add q p a m f)

module _ (now : ℕ) (p : Pubkey) (s : PoolState) (c : StateCache) (same : SameMints c p s) where
  abbrev entry : CacheEntry
  entry = record { state = s; last_updated = now }

  -- The entry behind a listing that was there before.
  old_listing :
      (q m : Pubkey)
      → IsSound c
      → listed q (c.token_to_pools m) ≡ true
      → (e : CacheEntry) × (lookup q (upsert now p s c).pools ≡ some e)
        × ((e.state.token_a_mint ≡ m) ⊎ (e.state.token_b_mint ≡ m))
  unfolding upsert
  old_listing q m h l =
      let (e, found, trades) = h q m l in
      elim (Bool-cases (p == q)) [
        | inl hit ↦
            let here : p ≡ q = (==_iff p q).0 hit in
            let kept = same e (rw here found) in (entry, rw (lookup-insert, hit), ground arith)
        | inr miss ↦ (e, rw (lookup-insert, miss) found, trades)
      ]

  -- An update of a pool with the mints that it had keeps the token index sound.
  pub upsert-IsSound : IsSound c → IsSound (upsert now p s c)
  unfolding upsert
  upsert-IsSound h q m l =
      elim (listed_after p s.token_a_mint s.token_b_mint q m c.token_to_pools l) [
        | inl (here, trades) ↦ (entry, rw (lookup-insert, (==_iff p q).1 here), trades)
        | inr before ↦ old_listing q m h before
      ]

-- Clean-ups only take listings away.
unindex_all-less :
    (st : List (Pubkey × CacheEntry)) (c : StateCache) (q m : Pubkey)
    → listed q (c.token_to_pools m) ≡ false
    → listed q ((unindex_all st c).token_to_pools m) ≡ false
unfolding unindex_all unindex
unindex_all-less [] c q m h = h
unindex_all-less (e ∷ st) c q m h =
    let s = e.1.state in
    unindex_all-less st (unindex e c) q m (
      ground (
        arith,
        listed-discard q e.0 s.token_b_mint m (discard e.0 s.token_a_mint c.token_to_pools),
        listed-discard q e.0 s.token_a_mint m c.token_to_pools,
      ))

-- A pool that is cleaned up is listed under neither of its mints.
unindex_all-unlists :
    (st : List (Pubkey × CacheEntry)) (c : StateCache) (q m : Pubkey) (e : CacheEntry)
    → lookup q st ≡ some e
    → (e.state.token_a_mint ≡ m) ⊎ (e.state.token_b_mint ≡ m)
    → listed q ((unindex_all st c).token_to_pools m) ≡ false
unfolding unindex_all unindex lookup
unindex_all-unlists [] c q m e found trades = cc
unindex_all-unlists ((j, w) ∷ st) c q m e found trades = elim (Bool-cases (j == q)) [
  | inl hit ↦ unindex_all-less st (unindex (j, w) c) q m (
      ground (
        arith,
        listed-discard q j w.state.token_b_mint m (discard j w.state.token_a_mint c.token_to_pools),
        listed-discard q j w.state.token_a_mint m c.token_to_pools,
      ))
  | inr miss ↦ unindex_all-unlists st (unindex (j, w) c) q m e (ground arith) trades
]

unindex_all-pools :
    (st : List (Pubkey × CacheEntry)) (c : StateCache) → (unindex_all st c).pools ≡ c.pools
unfolding unindex_all unindex
unindex_all-pools [] c = refl
unindex_all-pools (e ∷ st) c = unindex_all-pools st (unindex e c)

-- Eviction keeps a token index sound that was sound before it.
pub evict_stale-IsSound :
    (now : ℕ) (c : StateCache) → IsUnique c.pools → IsSound c → IsSound (evict_stale now c)
unfolding evict_stale if_fresh
evict_stale-IsSound now c u h q m l =
    let start = record c { pools = keep_fresh now c.pools } in
    let st = stale_pools now c.pools in
    elim (Bool-cases (listed q (c.token_to_pools m))) [
      | inr absent ↦ absurd (ground (arith, unindex_all-less st start q m))
      | inl present ↦
          let (e, found, trades) = h q m present in
          elim (Bool-cases (is_within now eviction_age e)) [
            | inl fresh ↦ (
              e,
              rw (unindex_all-pools st start) (ground (arith, lookup-keep_fresh now q c.pools u)),
              trades,
            )
            | inr old ↦ absurd (
                ground
                  (arith, unindex_all-unlists st start q m e, lookup-stale_pools now q c.pools u))
          ]
    ]

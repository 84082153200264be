-- ===== src/Cache/Index.antt =====
-- The two indices of src/state/cache.rs, from a key to the pools that are listed under it: what
-- `upsert` adds under a key and what `evict_stale` takes out, and the law of each.
use engine_mev.Base.{
  ◌≡◌, ◌↔◌, refl, ◌∙◌, arith, Bool, true, false, Option, none, some, List, [], ◌∷◌, ◌++◌, ◌==◌,
  ==_iff, not, ◌||◌, ◌&&◌, Bool-cases, inl, inr, if◌then◌else◌,
}
use engine_mev.Base.Sort.{retain}
use engine_mev.Pool.{Pubkey}

-- The equality of the keys.
pub record Key (K : Type 0) : Type 0 where
  pub same : K → K → Bool
  pub same_iff : (a b : K) → (same a b ≡ true) ↔ (a ≡ b)

instance abbrev pub pubkey_key : Key Pubkey
pubkey_key = record { same = ◌==◌; same_iff = ==_iff }

pub pair_iff : (a b : Pubkey × Pubkey) → ((a.0 == b.0 && a.1 == b.1) ≡ true) ↔ (a ≡ b)
pair_iff a b = ground arith

instance abbrev pub pair_key : Key (Pubkey × Pubkey)
pair_key = record { same = λ a b. a.0 == b.0 && a.1 == b.1; same_iff = pair_iff }

unfoldable pub contains : Pubkey → List Pubkey → Bool
contains p [] = false
contains p (q ∷ s) = q == p || contains p s

-- Whether a pool is listed under a key whose entry is given.
unfoldable pub listed : Pubkey → Option (List Pubkey) → Bool
listed p none = false
listed p (some s) = contains p s

-- `insert` of a set, and `push` of what is not there yet.
unfoldable pub insert_new : Pubkey → List Pubkey → List Pubkey
insert_new p s = if contains p s then s else s ++ p ∷ []

-- `entry(k).and_modify(insert).or_insert_with(..)`.
unfoldable pub with_pool : Pubkey → Option (List Pubkey) → List Pubkey
with_pool p none = p ∷ []
with_pool p (some s) = insert_new p s

-- What is left of an entry without the pool; an empty entry goes.
unfoldable pub without_pool : Pubkey → Option (List Pubkey) → Option (List Pubkey)
unfolding retain
without_pool p none = none
without_pool p (some s) = elim (retain (λ q. not (q == p)) s) [ [] ↦ none | q ∷ t ↦ some (q ∷ t) ]

module _ {K : Type 0} ⦃key : Key K⦄ where
  unfoldable pub add : Pubkey → K → (K → Option (List Pubkey)) → K → Option (List Pubkey)
  add p k f j = if key.same k j then some (with_pool p (f k)) else f j

  unfoldable pub discard : Pubkey → K → (K → Option (List Pubkey)) → K → Option (List Pubkey)
  discard p k f j = if key.same k j then without_pool p (f k) else f j

contains-append :
    (q : Pubkey) (s : List Pubkey) (p : Pubkey)
    → contains q (s ++ p ∷ []) ≡ (contains q s || p == q)
unfolding contains
contains-append q [] p = ground arith
contains-append q (r ∷ s) p = ground (arith, contains-append q s p)

contains-retain :
    (q p : Pubkey) (s : List Pubkey)
    → contains q (retain (λ r. not (r == p)) s) ≡ (not (p == q) && contains q s)
unfolding contains retain
contains-retain q p [] = ground arith
contains-retain q p (r ∷ s) = ground (arith, contains-retain q p s)

listed-with_pool :
    (q p : Pubkey) (o : Option (List Pubkey))
    → listed q (some (with_pool p o)) ≡ (p == q || listed q o)
unfolding listed with_pool insert_new contains
listed-with_pool q p none = ground arith
listed-with_pool q p (some s) = ground (arith, contains-append q s p)

-- The entry that is left is listed like the filtered one, also where it is empty and goes.
listed-shrunk :
    (q : Pubkey) (s : List Pubkey)
    → listed q (elim s [ [] ↦ none | r ∷ t ↦ some (r ∷ t) ]) ≡ contains q s
unfolding listed contains
listed-shrunk q [] = refl
listed-shrunk q (r ∷ t) = refl

listed-without_pool :
    (q p : Pubkey) (o : Option (List Pubkey))
    → listed q (without_pool p o) ≡ (not (p == q) && listed q o)
unfolding without_pool listed
listed-without_pool q p none = ground arith
listed-without_pool q p (some s) =
    listed-shrunk q (retain (λ r. not (r == p)) s) ∙ contains-retain q p s

module _ {K : Type 0} ⦃key : Key K⦄ (q p : Pubkey) (k j : K) (f : K → Option (List Pubkey)) where
  -- After an addition the pool is listed under its key, and nothing else has changed.
  pub listed-add : listed q (add p k f j) ≡ (key.same k j && p == q || listed q (f j))
  unfolding add
  listed-add = elim (Bool-cases (key.same k j)) [
    | inl hit ↦ let e : k ≡ j = (key.same_iff k j).0 hit in rw (hit, e) (listed-with_pool q p (f j))
    | inr miss ↦ rw miss
  ]

  -- After a removal the pool is no longer listed under its key, and nothing else has changed.
  pub listed-discard : listed q (discard p k f j) ≡ (not (key.same k j && p == q) && listed q (f j))
  unfolding discard
  listed-discard = elim (Bool-cases (key.same k j)) [
    | inl hit ↦
        let e : k ≡ j = (key.same_iff k j).0 hit in rw (hit, e) (listed-without_pool q p (f j))
    | inr miss ↦ rw miss
  ]

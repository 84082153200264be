-- ===== src/Calculator/Search.antt =====
-- What the search of src/router/calculator.rs finds from one base mint.
use engine_mev.Base.{
  ℕ, ◌≤◌, ◌≡◌, refl, arith, Bool, true, false, some, List, [], length, take, ◌==◌, ltb, leb, ◌&&◌,
  ◌||◌, if◌then◌else◌, All,
}
use engine_mev.Base.Float.{F64}
use engine_mev.Base.Int.{ltb_ℤ}
use engine_mev.Base.Outcome.{ret, >>=-use}
use engine_mev.Base.Sort.{sort_by, length-sort_by, All-sort_by, Ordered, sort_by-Ordered}
use engine_mev.Cache.{StateCache, get_any, pools_for_token, pools_for_pair}
use engine_mev.Calculator.{
  Routes, max_pools_per_token, early_exit_routes, visit_return, visit_first, find_2_hop_routes,
  visit_last, visit_mid, visit_outer, find_3_hop_routes, find_routes_for_base,
}
use engine_mev.Calculator.Loop.{
  ended, Found, Keeps, for_each-Keeps, offer-Keeps, if-Keeps, Option-Keeps,
}
use engine_mev.Calculator.Routes.{
  IsGain, Fits64, input-bound, simulate_2_hop-IsGain, simulate_3_hop-IsGain,
}
use engine_mev.Pool.{Pubkey, PoolState, ArbRoute, other_token}

-- The order of the sort: descending in the profit.
abbrev pub by_profit : ArbRoute → ArbRoute → Bool
by_profit b a = ltb_ℤ a.estimated_profit b.estimated_profit

at_most : (stop : Bool) (n : ℕ) → n ≤ (if stop then 5 else 4) → n ≤ 5
at_most true n h = h
at_most false n h = omega (arith, h)

module _ (fl : F64) (order : List Pubkey → List Pubkey) (c : StateCache)
    (fits : (k : Pubkey) (p : PoolState) → get_any c k ≡ some p → Fits64 p) (base : Pubkey) where
  visit_return-Keeps :
      (other ka : Pubkey) (p : PoolState) (kb : Pubkey)
      → Fits64 p
      → Keeps (IsGain base) (visit_return fl order c base other ka p kb)
  unfolding visit_return
  visit_return-Keeps other ka p kb fit rs rs' stop h e =
      if-Keeps (IsGain base) (kb == ka) false _ rs rs' stop h
        (λ e1.
          Option-Keeps (IsGain base) (get_any c kb) _ rs rs' stop h
            (λ q hq e2.
              offer-Keeps (IsGain base) _
                (λ r found gain.
                  simulate_2_hop-IsGain fl order c base other p q _ (input-bound p q base fit)
                    (fits kb q hq) found gain)
                rs rs' stop h e2)
            e1)
        e

  visit_first-Keeps : (ka : Pubkey) → Keeps (IsGain base) (visit_first fl order c base ka)
  unfolding visit_first
  visit_first-Keeps ka rs rs' stop h e =
      if-Keeps (IsGain base) (leb early_exit_routes (length rs)) true _ rs rs' stop h
        (λ e1.
          Option-Keeps (IsGain base) (get_any c ka) _ rs rs' stop h
            (λ p hp e2.
              Option-Keeps (IsGain base) (other_token p base) _ rs rs' stop h
                (λ other _ e3.
                  for_each-Keeps (IsGain base) _
                    (λ kb. visit_return-Keeps other ka p kb (fits ka p hp))
                    (pools_for_pair c base other) rs rs' stop h e3)
                e2)
            e1)
        e

  visit_last-Keeps :
      (m1 m2 ka kb : Pubkey) (p q : PoolState) (kc : Pubkey)
      → Keeps (IsGain base) (visit_last fl order c base m1 m2 ka kb p q kc)
  unfolding visit_last
  visit_last-Keeps m1 m2 ka kb p q kc rs rs' stop h e =
      if-Keeps (IsGain base) (kc == ka || kc == kb) false _ rs rs' stop h
        (λ e1.
          Option-Keeps (IsGain base) (get_any c kc) _ rs rs' stop h
            (λ s hs e2.
              offer-Keeps (IsGain base) _
                (λ r found gain.
                  simulate_3_hop-IsGain fl order c base m1 m2 p q s 1_000_000 (omega arith)
                    (fits kc s hs) found gain)
                rs rs' stop h e2)
            e1)
        e

  visit_mid-Keeps :
      (m1 ka : Pubkey) (p : PoolState) (kb : Pubkey)
      → Keeps (IsGain base) (visit_mid fl order c base m1 ka p kb)
  unfolding visit_mid
  visit_mid-Keeps m1 ka p kb rs rs' stop h e =
      if-Keeps (IsGain base) (kb == ka) false _ rs rs' stop h
        (λ e1.
          if-Keeps (IsGain base) (leb early_exit_routes (length rs)) true _ rs rs' stop h
            (λ e2.
              Option-Keeps (IsGain base) (get_any c kb) _ rs rs' stop h
                (λ q _ e3.
                  Option-Keeps (IsGain base) (other_token q m1) _ rs rs' stop h
                    (λ m2 _ e4.
                      if-Keeps (IsGain base) (m2 == base) false _ rs rs' stop h
                        (λ e5.
                          for_each-Keeps (IsGain base) _ (λ kc. visit_last-Keeps m1 m2 ka kb p q kc)
                            (pools_for_pair c m2 base) rs rs' stop h e5)
                        e4)
                    e3)
                e2)
            e1)
        e

  visit_outer-Keeps : (ka : Pubkey) → Keeps (IsGain base) (visit_outer fl order c base ka)
  unfolding visit_outer
  visit_outer-Keeps ka rs rs' stop h e =
      if-Keeps (IsGain base) (leb early_exit_routes (length rs)) true _ rs rs' stop h
        (λ e1.
          Option-Keeps (IsGain base) (get_any c ka) _ rs rs' stop h
            (λ p _ e2.
              Option-Keeps (IsGain base) (other_token p base) _ rs rs' stop h
                (λ m1 _ e3.
                  for_each-Keeps (IsGain base) _ (λ kb. visit_mid-Keeps m1 ka p kb)
                    (take max_pools_per_token (pools_for_token order c m1)) rs rs' stop h e3)
                e2)
            e1)
        e

  two-Keeps : Keeps (IsGain base) (find_2_hop_routes fl order c base)
  unfolding find_2_hop_routes
  two-Keeps rs rs' stop h e =
      for_each-Keeps (IsGain base) _ visit_first-Keeps
        (take max_pools_per_token (pools_for_token order c base)) rs rs' stop h e

  three-Keeps : Keeps (IsGain base) (find_3_hop_routes fl order c base)
  unfolding find_3_hop_routes
  three-Keeps rs rs' stop h e =
      for_each-Keeps (IsGain base) _ visit_outer-Keeps
        (take max_pools_per_token (pools_for_token order c base)) rs rs' stop h e

  -- The second search runs only when the first one has found too few.
  second-Keeps :
      (b stop : Bool) (two rs' : Routes)
      → Found (IsGain base) true two
      → (b ≡ true → ltb (length two) early_exit_routes ≡ true)
      → (if b then find_3_hop_routes fl order c base two else ended two false) ≡ ended rs' stop
      → Found (IsGain base) true rs'
  second-Keeps true stop two rs' h few e =
      let few' : ltb (length two) early_exit_routes ≡ true = few refl in
      let (gains, short) = three-Keeps two rs' stop (h.0, ground arith) e in
      (gains, at_most stop (length rs') short)
  second-Keeps false stop two rs' h few e = let same : two ≡ rs' = ground arith in rw (← same) h

  search-Keeps :
      (max_hops : ℕ) {rs : Routes}
      → find_routes_for_base fl order c max_hops base ≡ ret rs
      → All (IsGain base) rs × (length rs ≤ 5)
  unfolding find_routes_for_base
  search-Keeps max_hops {rs} h = >>=-use (find_2_hop_routes fl order c base []) _ h λ two e1 h1.
      let found = two-Keeps [] two.0 two.1 (tt, omega arith) e1 in
      let short : length two.0 ≤ 5 = at_most two.1 (length two.0) found.1 in
      >>=-use
        (if leb 3 max_hops && ltb (length two.0) early_exit_routes
          then find_3_hop_routes fl order c base two.0
          else ended two.0 false)
        _ h1
        λ all e2 h2.
          let found =
            second-Keeps (leb 3 max_hops && ltb (length two.0) early_exit_routes) all.1 two.0 all.0
              (found.0, short) (λ b. ground arith) e2 in
          let same : sort_by by_profit all.0 ≡ rs = ground arith in
          rw (← same) (
            All-sort_by (IsGain base) by_profit all.0 found.0,
            omega (arith, length-sort_by by_profit all.0, found.1),
          )

module _ (fl : F64) (order : List Pubkey → List Pubkey) (c : StateCache) (max_hops : ℕ)
    (base : Pubkey) where
  -- When the reserves of every cached pool are 64-bit, the search from a base mint returns at most
  -- five routes; each starts at that mint and is circular, its last hop leaves exactly its input plus
  -- its stated profit, and that profit is positive in both of its two fields.
  pub found_routes-IsGain :
      {rs : Routes}
      → ((k : Pubkey) (p : PoolState) → get_any c k ≡ some p → Fits64 p)
      → find_routes_for_base fl order c max_hops base ≡ ret rs
      → All (IsGain base) rs × (length rs ≤ 5)
  found_routes-IsGain fits h = search-Keeps fl order c fits base max_hops h

  -- The routes come back sorted by profit: no route has a higher estimated profit than one before it.
  pub found_routes-Ordered :
      {rs : Routes} → find_routes_for_base fl order c max_hops base ≡ ret rs → Ordered by_profit rs
  unfolding find_routes_for_base
  found_routes-Ordered {rs} h = >>=-use (find_2_hop_routes fl order c base []) _ h λ two e1 h1.
      >>=-use
        (if leb 3 max_hops && ltb (length two.0) early_exit_routes
          then find_3_hop_routes fl order c base two.0
          else ended two.0 false)
        _ h1
        λ all e2 h2.
          let same : sort_by by_profit all.0 ≡ rs = ground arith in
          rw (← same)
            (sort_by-Ordered by_profit (λ a b h. ground arith) (λ a b d h k. ground arith) all.0)

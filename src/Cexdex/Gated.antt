-- ===== src/Cexdex/Gated.antt =====
-- What a route of src/cexdex/detector.rs has passed.
use engine_mev.Base.{
  ℕ, ◌≡◌, refl, ap, ◌∙◌, true, false, Option, none, some, List, [], ◌∷◌, ◌⊎◌, inl, inr, Bool-cases,
  arith, Occurs,
}
use engine_mev.Base.Float.{F64}
use engine_mev.Base.Outcome.{
  Outcome, ret, nothing, of_option, >>=-use, of_option-eq_ret, Outcome-cases,
}
use engine_mev.Cache.{get_any}
use engine_mev.Inventory.{ArbDirection}
use engine_mev.Pool.{Pubkey, PoolState}
use engine_mev.Cexdex.{
  F64More, CexDexRoute, PriceSnapshot, is_stale, allows_direction, profit_multiplier,
}
use engine_mev.Cexdex.Detector.{
  Detector, within_window, candidate, better, pick, rounds, check_all, try_route,
}

abbrev ret_of {ℓ} : {A : Type ℓ} → Option A → Outcome A
ret_of none = nothing
ret_of (some a) = ret a

module _ (fl : F64) (more : F64More fl) (now : ℕ) (d : Detector fl) where
  -- Of two routes one is kept.
  better_of :
      (best : Option (CexDexRoute fl)) (route : CexDexRoute fl)
      → (best ≡ some (better fl more best route)) ⊎ (some route ≡ some (better fl more best route))
  unfolding better
  better_of none route = inr refl
  better_of (some b) route =
      elim (Bool-cases (fl.lt b.expected_profit_usd route.expected_profit_usd)) [
        | inl e ↦ inr (rw (e, better) refl)
        | inr e ↦ inl (rw (e, better) refl)
      ]

  -- The best route is one that a round has found.
  pick_found :
      (cex : PriceSnapshot fl) (xs : List (Pubkey × ArbDirection)) (best : Option (CexDexRoute fl))
      (r : CexDexRoute fl)
      → pick fl more now d cex xs best ≡ ret (some r)
      → (best ≡ some r)
        ⊎ ((x : Pubkey × ArbDirection) × Occurs x xs × (candidate fl more now d cex x ≡ ret r))
  unfolding pick
  pick_found cex [] best r h = inl (ground arith)
  pick_found cex (x ∷ xs) best r h = elim (Outcome-cases (candidate fl more now d cex x)) [
    | inl (route, e) ↦
        elim (pick_found cex xs (some (better fl more best route)) r (rw (e, pick) at h)) [
          | inr (y, o, c) ↦ inr (y, inr o, c)
          | inl same ↦ elim (better_of best route) [
            | inl kept ↦ inl (kept ∙ same)
            | inr new ↦ inr (x, inl refl, e ∙ ap ret_of (new ∙ same))
          ]
        ]
    | inr (inl e) ↦ elim (pick_found cex xs best r (rw (e, pick) at h)) [
      | inl same ↦ inl same
      | inr (y, o, c) ↦ inr (y, inr o, c)
    ]
    | inr (inr e) ↦ absurd (ground (arith, rw (e, pick) at h))
  ]

  -- A route that the detector returns has passed every gate: no dispatch of any route lies within
  -- the global cooldown, the price is not stale, and the route is the one that `try_route` makes at
  -- the stored price for one of the pools it watches, that is in the cache, and one direction: no
  -- dispatch lies within the window of the pair, the wallet's ratio allows the direction, and the
  -- profit is not below the minimum that the ratio calls for.
  pub check_all-gates :
      (r : CexDexRoute fl)
      → check_all fl more now d ≡ ret r
      → (within_window now d.config.global_submit_cooldown_ms d.last_global_emit ≡ false)
        × (is_stale fl now d.config.cex_staleness_ms d.store ≡ false)
        × ((cex : PriceSnapshot fl) × (k : Pubkey) × (dir : ArbDirection) × (pool : PoolState)
            × (d.store.cex ≡ some cex)
            × (try_route fl more d pool dir cex ≡ ret r)
            × Occurs (k, dir) (rounds fl more d.pools)
            × (get_any d.store.pools k ≡ some pool)
            × (within_window now d.config.dedup_window_ms (d.last_emit k dir) ≡ false)
            × (allows_direction fl d.wallet dir ≡ true)
            × (fl.lt r.expected_profit_usd
                  (fl.mul d.config.min_profit_usd (profit_multiplier fl d.wallet dir))
                ≡ false))
  unfolding check_all candidate
  check_all-gates r h =
      let early : within_window now d.config.global_submit_cooldown_ms d.last_global_emit ≡ false =
        ground arith in
      let fresh : is_stale fl now d.config.cex_staleness_ms d.store ≡ false = ground arith in
      let h' = rw (early, fresh, check_all) at h in
      >>=-use (of_option d.store.cex) _ h' λ cex given h1.
        >>=-use (pick fl more now d cex (rounds fl more d.pools) none) _ h1 λ best picked h2.
          let best_is : best ≡ some r = of_option-eq_ret best h2 in
          elim (pick_found cex (rounds fl more d.pools) none r (picked ∙ ap ret best_is)) [
            | inl e ↦ cc
            | inr ((k, dir), o, c) ↦
                >>=-use (of_option (get_any d.store.pools k)) _ c λ pool found c1.
                  let window : within_window now d.config.dedup_window_ms (d.last_emit k dir)
                      ≡ false =
                    ground arith in
                  let allowed : allows_direction fl d.wallet dir ≡ true = ground arith in
                  let c2 = rw (window, allowed) at c1 in
                  >>=-use (try_route fl more d pool dir cex) _ c2 λ route tried c3.
                    let same : route ≡ r = ground arith in
                    (
                      early,
                      fresh,
                      (
                        cex,
                        k,
                        dir,
                        pool,
                        of_option-eq_ret _ given,
                        rw (← same) tried,
                        o,
                        of_option-eq_ret _ found,
                        window,
                        allowed,
                        rw (← same) (ground arith),
                      ),
                    )
          ]

-- ===== src/Cexdex/Dispatched.antt =====
-- The detector after a dispatch, src/cexdex/detector.rs: mark_dispatched, then check_all.
use engine_mev.Base.{
  ℕ, ◌+◌, ◌≤◌, ◌≡◌, ◌≢◌, ◌⊎◌, inl, inr, refl, true, false, some, ◌==◌, Bool-cases, Occurs, arith,
}
use engine_mev.Base.Float.{F64}
use engine_mev.Base.Outcome.{ret}
use engine_mev.Cache.{get_any}
use engine_mev.Inventory.{ArbDirection, buy_on_dex, sell_on_dex}
use engine_mev.Pool.{Pubkey, PoolState}
use engine_mev.Cexdex.{F64More, CexDexRoute, PriceSnapshot}
use engine_mev.Cexdex.Detector.{
  Detector, same_direction, within_window, mark_dispatched, rounds, check_all, try_route,
}
use engine_mev.Cexdex.Gated.{check_all-gates}

same_direction_refl : (dir : ArbDirection) → same_direction dir dir ≡ true
same_direction_refl buy_on_dex = refl
same_direction_refl sell_on_dex = refl

-- A window that a dispatch has opened is over.
over : (now window t : ℕ) → t ≤ now → within_window now window (some t) ≡ false → t + window ≤ now
unfolding within_window
over now window t h e = ground arith

-- A direction is the dispatched one, or another.
ArbDirection-cases : (a b : ArbDirection) → (a ≡ b) ⊎ (a ≢ b)
ArbDirection-cases buy_on_dex buy_on_dex = inl refl
ArbDirection-cases buy_on_dex sell_on_dex = inr λ e. cc
ArbDirection-cases sell_on_dex buy_on_dex = inr λ e. cc
ArbDirection-cases sell_on_dex sell_on_dex = inl refl

-- After a dispatch, a route is returned only when the global cooldown has passed; and the route is
-- one that `try_route` makes for a watched pool that is cached, and a direction: for another pool or
-- the other direction, unless the window of the dispatched pair has passed.
pub check_all-mark_dispatched :
    (fl : F64) (more : F64More fl) (d : Detector fl) (t now : ℕ) (key : Pubkey)
    (direction : ArbDirection) (r : CexDexRoute fl)
    → t ≤ now
    → check_all fl more now (mark_dispatched fl t key direction d) ≡ ret r
    → (t + d.config.global_submit_cooldown_ms ≤ now)
      × ((cex : PriceSnapshot fl) × (k : Pubkey) × (dir : ArbDirection) × (pool : PoolState)
          × Occurs (k, dir) (rounds fl more d.pools)
          × (get_any d.store.pools k ≡ some pool)
          × (try_route fl more (mark_dispatched fl t key direction d) pool dir cex ≡ ret r)
          × ((k ≢ key) ⊎ ((dir ≢ direction) ⊎ (t + d.config.dedup_window_ms ≤ now))))
unfolding mark_dispatched
check_all-mark_dispatched fl more d t now key direction r h found =
    let marked = mark_dispatched fl t key direction d in
    let (early, fresh, (cex, k, dir, pool, given, tried, o, cached, quiet, allowed, enough)) =
      check_all-gates fl more now marked r found in
    (
      over now d.config.global_submit_cooldown_ms t h early,
      (
        cex,
        k,
        dir,
        pool,
        o,
        cached,
        tried,
        elim (Bool-cases (k == key)) [
          | inr e ↦ inl λ same. absurd (ground arith)
          | inl e ↦ elim (ArbDirection-cases dir direction) [
            | inr differs ↦ inr (inl differs)
            | inl same ↦
                let emitted : marked.last_emit k dir ≡ some t =
                  rw (e, same, same_direction_refl direction) refl in
                inr (inr (over now d.config.dedup_window_ms t h (rw (emitted) at quiet)))
          ]
        ],
      ),
    )

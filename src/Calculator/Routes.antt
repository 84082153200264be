-- ===== src/Calculator/Routes.antt =====
-- What the two simulations of the route search return: a circular route from the base mint whose
-- profit is the true gain of its last amount.
use engine_mev.Base.{ℕ, ◌+◌, ◌-◌, ◌<◌, ◌^◌, ◌≡◌, refl, arith, Bool, true, List, [], ◌∷◌, ◌==◌}
use engine_mev.Base.Float.{F64}
use engine_mev.Base.Int.{ℤ, pos, sub_ℕ, as_i64, ltb_ℤ}
use engine_mev.Base.Outcome.{ret, >>=-use, of_option, reject_if}
use engine_mev.Base.Word.{u64_mod}
use engine_mev.Cache.{StateCache}
use engine_mev.Calculator.{
  base_reserve, calculate_optimal_input, hop_of, route_of, cached_quote, simulate_2_hop,
  simulate_3_hop,
}
use engine_mev.Pool.{
  Pubkey, PoolState, RouteHop, ArbRoute, is_a_to_b, is_profitable, is_circular, hops_circular,
  last_output,
}
use engine_mev.Quote.Dispatch.Bounds.{quote_fits_u64}

-- The amount that the last hop leaves.
abbrev pub last_amount : List RouteHop → ℕ → ℕ
last_amount [] x = x
last_amount (h ∷ hops) x = last_amount hops h.estimated_output

-- A circular route from the base mint that ends with more than it started with, the profit being the
-- difference.
pub record IsGain (base : Pubkey) (r : ArbRoute) : Type 0 where
  pub starts : r.base_mint ≡ base
  pub circular : is_circular r ≡ true
  pub gain : last_amount r.hops r.input_amount ≡ r.input_amount + r.estimated_profit_lamports
  pub positive : 0 < r.estimated_profit_lamports
  pub signed : r.estimated_profit ≡ pos r.estimated_profit_lamports

-- The reserves of a pool are 64-bit.
abbrev pub Fits64 : PoolState → Type 0
Fits64 p = (p.token_a_reserve < u64_mod) × (p.token_b_reserve < u64_mod)

-- The cast of the profit to 64 bits is positive only when the profit is.
profit_signed :
    (x y : ℕ) (z : ℤ)
    → x < 2 ^ 63
    → y < 2 ^ 64
    → z ≡ as_i64 (sub_ℕ y x)
    → ltb_ℤ (pos 0) z ≡ true
    → (x < y) × (z ≡ pos (y - x))
unfolding as_i64
profit_signed x y z hx hy e h = ground arith

module _ (base : Pubkey) (hops : List RouteHop) (x y : ℕ) where
  route_of-IsGain :
      x < 2 ^ 63
      → y < 2 ^ 64
      → last_amount hops x ≡ y
      → hops_circular hops base ≡ true
      → is_profitable (route_of hops base x y) ≡ true
      → IsGain base (route_of hops base x y)
  unfolding route_of is_profitable is_circular
  route_of-IsGain hx hy last circ h =
      let (more, signed) = profit_signed x y _ hx hy refl h in
      record {
        starts = refl;
        circular = circ;
        gain = ground arith;
        positive = ground arith;
        signed = ground arith;
      }

pub input-bound :
    (p q : PoolState) (base : Pubkey) → Fits64 p → calculate_optimal_input p q base < 2 ^ 63
unfolding calculate_optimal_input base_reserve
input-bound p q base fit = ground arith

module _ (p q : PoolState) (base mid : Pubkey) (x y : ℕ) where
  two-last : (z : ℕ) → last_amount (hop_of p base mid x ∷ hop_of q mid base y ∷ []) z ≡ y
  unfolding hop_of
  two-last z = refl

  two-circular : hops_circular (hop_of p base mid x ∷ hop_of q mid base y ∷ []) base ≡ true
  unfolding hop_of hops_circular last_output
  two-circular = ground arith

module _ (p q r : PoolState) (base m1 m2 : Pubkey) (x y z : ℕ) where
  abbrev three : List RouteHop
  three = hop_of p base m1 x ∷ hop_of q m1 m2 y ∷ hop_of r m2 base z ∷ []

  three-last : (u : ℕ) → last_amount three u ≡ z
  unfolding hop_of
  three-last u = refl

  three-circular : hops_circular three base ≡ true
  unfolding hop_of hops_circular last_output
  three-circular = ground arith

module _ (fl : F64) (order : List Pubkey → List Pubkey) (c : StateCache) where
  quote-Fits :
      (p : PoolState) (x : ℕ) (d : Bool) {y : ℕ}
      → Fits64 p
      → cached_quote fl order c p x d ≡ ret y
      → y < 2 ^ 64
  unfolding cached_quote
  quote-Fits p x d fit h = quote_fits_u64 fl p x d _ _ fit.0 fit.1 h

  -- A profitable result of the two-hop simulation.
  pub simulate_2_hop-IsGain :
      (base other : Pubkey) (p q : PoolState) (x : ℕ) {r : ArbRoute}
      → x < 2 ^ 63
      → Fits64 q
      → simulate_2_hop fl order c base other p q x ≡ ret r
      → is_profitable r ≡ true
      → IsGain base r
  unfolding simulate_2_hop
  simulate_2_hop-IsGain base other p q x {r} hx fit h gain =
      >>=-use (of_option (is_a_to_b p base)) _ h λ d _ h1.
        >>=-use (cached_quote fl order c p x d) _ h1 λ mid _ h2.
          >>=-use (reject_if (mid == 0)) _ h2 λ _ _ h3.
            >>=-use (of_option (is_a_to_b q other)) _ h3 λ d2 _ h4.
              >>=-use (cached_quote fl order c q mid d2) _ h4 λ out hq h5.
                let hops = hop_of p base other mid ∷ hop_of q other base out ∷ [] in
                let same : route_of hops base x out ≡ r = ground arith in
                rw (← same) (
                  route_of-IsGain base hops x out hx (quote-Fits q mid d2 fit hq)
                    (two-last p q base other mid out x) (two-circular p q base other mid out)
                    (rw (same) gain))

  -- A profitable result of the three-hop simulation.
  pub simulate_3_hop-IsGain :
      (base m1 m2 : Pubkey) (p q s : PoolState) (x : ℕ) {r : ArbRoute}
      → x < 2 ^ 63
      → Fits64 s
      → simulate_3_hop fl order c base m1 m2 p q s x ≡ ret r
      → is_profitable r ≡ true
      → IsGain base r
  unfolding simulate_3_hop
  simulate_3_hop-IsGain base m1 m2 p q s x {r} hx fit h gain =
      >>=-use (of_option (is_a_to_b p base)) _ h λ d _ h1.
        >>=-use (cached_quote fl order c p x d) _ h1 λ a1 _ h2.
          >>=-use (reject_if (a1 == 0)) _ h2 λ _ _ h3.
            >>=-use (of_option (is_a_to_b q m1)) _ h3 λ d2 _ h4.
              >>=-use (cached_quote fl order c q a1 d2) _ h4 λ a2 _ h5.
                >>=-use (reject_if (a2 == 0)) _ h5 λ _ _ h6.
                  >>=-use (of_option (is_a_to_b s m2)) _ h6 λ d3 _ h7.
                    >>=-use (cached_quote fl order c s a2 d3) _ h7 λ out hq h8.
                      let hops = three p q s base m1 m2 a1 a2 out in
                      let same : route_of hops base x out ≡ r = ground arith in
                      rw (← same) (
                        route_of-IsGain base hops x out hx (quote-Fits s a2 d3 fit hq)
                          (three-last p q s base m1 m2 a1 a2 out x)
                          (three-circular p q s base m1 m2 a1 a2 out) (rw (same) gain))

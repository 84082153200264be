-- ===== src/Nonce/Choice.antt =====
-- Which nonce `checkout` picks: the order on candidates, and the loop that finds the least.
use engine_mev.Base.{
  ℕ, ◌+◌, ◌<◌, ◌≤◌, ◌≡◌, ◌⊎◌, inl, inr, refl, arith, Bool, true, false, Option, none, some, List,
  [], ◌∷◌, if◌then◌else◌, Bool-cases, Option-cases,
}
use engine_mev.Base.Outcome.{ret}
use engine_mev.Nonce.{
  NonceState, States, state_of, Candidate, is_older, choose_by, choose, is_none, select,
}
use engine_mev.Pool.{Pubkey}

abbrev pub flight : Bool → ℕ
flight true = 1
flight false = 0

-- Free before in flight, then the longest unused, then the order of the configuration.
abbrev pub NoWorse : Candidate → Candidate → Type 0
NoWorse a b =
    (flight a.state.in_flight < flight b.state.in_flight)
    ⊎ ((flight a.state.in_flight ≡ flight b.state.in_flight)
        × ((a.state.last_used < b.state.last_used)
            ⊎ ((a.state.last_used ≡ b.state.last_used) × (a.idx ≤ b.idx))))

NoWorse-trans : (a b c : Candidate) → NoWorse a b → NoWorse b c → NoWorse a c
NoWorse-trans a b c h k = ground arith

self : (a : Candidate) → NoWorse a a
self a = ground arith

by_flight :
    (a b : Candidate) (fa fb : Bool)
    → a.state.in_flight ≡ fa
    → b.state.in_flight ≡ fb
    → NoWorse (choose_by fa fb a b) a × NoWorse (choose_by fa fb a b) b
unfolding choose_by is_older
by_flight a b true true ha hb = ground arith
by_flight a b true false ha hb = ground arith
by_flight a b false true ha hb = ground arith
by_flight a b false false ha hb = ground arith

-- A candidate that the configuration offers: its state is the current one and holds a hash.
abbrev pub IsOffered : States → Candidate → Type 0
IsOffered m c = (state_of c.key m ≡ some c.state) × (is_none c.state.cached_hash ≡ false)

-- No worse than every key, from the given place on, that has a hash.
abbrev pub Beats : States → Candidate → ℕ → List Pubkey → Type 0
Beats m w idx [] = Unit
Beats m w idx (pk ∷ pks) =
    ((s : NonceState)
      → state_of pk m ≡ some s
      → is_none s.cached_hash ≡ false
      → NoWorse w (record { idx = idx; key = pk; state = s }))
    × Beats m w (idx + 1) pks

abbrev NoWorseThan : Candidate → Option Candidate → Type 0
NoWorseThan w none = Unit
NoWorseThan w (some c) = NoWorse w c

choose-first :
    (best : Option Candidate) (c w : Candidate)
    → NoWorse w (choose best c)
    → NoWorseThan w best × NoWorse w c
unfolding choose
choose-first none c w h = (tt, h)
choose-first (some b) c w h =
    let (hb, hc) = by_flight b c b.state.in_flight c.state.in_flight refl refl in
    (NoWorse-trans w (choose (some b) c) b h hb, NoWorse-trans w (choose (some b) c) c h hc)

choose-IsOffered :
    (m : States) (best : Option Candidate) (c : Candidate)
    → ((b : Candidate) → best ≡ some b → IsOffered m b)
    → IsOffered m c
    → IsOffered m (choose best c)
unfolding choose choose_by
choose-IsOffered m none c hb hc = hc
choose-IsOffered m (some b) c hb hc =
    elim b.state.in_flight as (λ x. IsOffered m (choose_by x c.state.in_flight b c)) [
      | true ↦ elim c.state.in_flight as (λ y. IsOffered m (choose_by true y b c)) [
        | true ↦ elim (is_older c b) as (λ z. IsOffered m (if z then c else b)) [
          | true ↦ hc
          | false ↦ hb b refl
        ]
        | false ↦ hc
      ]
      | false ↦ elim c.state.in_flight as (λ y. IsOffered m (choose_by false y b c)) [
        | true ↦ hb b refl
        | false ↦ elim (is_older c b) as (λ z. IsOffered m (if z then c else b)) [
          | true ↦ hc
          | false ↦ hb b refl
        ]
      ]
    ]

-- What the loop returns.
pub record IsBest (m : States) (best : Option Candidate) (idx : ℕ) (pks : List Pubkey)
    (w : Candidate) : Type 0 where
  pub offered : IsOffered m w
  pub beats_best : NoWorseThan w best
  pub beats : Beats m w idx pks

select-step :
    (m : States) (idx : ℕ) (pk : Pubkey) (pks : List Pubkey) (best : Option Candidate)
    (s : NonceState) {w : Candidate}
    → state_of pk m ≡ some s
    → IsBest m (some (choose best (record { idx = idx; key = pk; state = s }))) (idx + 1) pks w
    → IsBest m best idx (pk ∷ pks) w
select-step m idx pk pks best s {w} hs h =
    let c : Candidate = record { idx = idx; key = pk; state = s } in
    let (hb, hc) = choose-first best c w h.beats_best in
    record {
      offered = h.offered;
      beats_best = hb;
      beats = (λ t ht some_hash. let same : s ≡ t = ground arith in rw (← same) hc, h.beats);
    }

pub select-IsBest :
    (m : States) (idx : ℕ) (pks : List Pubkey) (best : Option Candidate) {w : Candidate}
    → ((b : Candidate) → best ≡ some b → IsOffered m b)
    → select m idx pks best ≡ ret (some w)
    → IsBest m best idx pks w
unfolding select
select-IsBest m idx [] best {w} good h =
    let same : best ≡ some w = ground arith in
    record { offered = good w same; beats_best = rw (same) (self w); beats = tt }
select-IsBest m idx (pk ∷ pks) best {w} good h = elim (Option-cases (state_of pk m)) [
  | inl e ↦ absurd (ground arith)
  | inr (s, e) ↦ elim (Bool-cases (is_none s.cached_hash)) [
    | inl f ↦
        let rest = select-IsBest m (idx + 1) pks best good (rw (e, f, select) at h) in
        record {
          offered = rest.offered;
          beats_best = rest.beats_best;
          beats = (λ t ht some_hash. absurd (ground arith), rest.beats);
        }
    | inr f ↦
        let c : Candidate = record { idx = idx; key = pk; state = s } in
        select-step m idx pk pks best s e (
          select-IsBest m (idx + 1) pks (some (choose best c))
            (λ b same.
              let same' : choose best c ≡ b = ground arith in
              rw (← same') (choose-IsOffered m best c good (e, f)))
            (rw (e, f, select) at h))
  ]
]

-- Every key of the configuration has a state.
abbrev pub Tracked : States → List Pubkey → Type 0
Tracked m [] = Unit
Tracked m (pk ∷ pks) = ((s : NonceState) × (state_of pk m ≡ some s)) × Tracked m pks

pub select-total :
    (m : States) (idx : ℕ) (pks : List Pubkey) (best : Option Candidate)
    → Tracked m pks
    → (b : Option Candidate) × (select m idx pks best ≡ ret b)
unfolding select
select-total m idx [] best h = (best, refl)
select-total m idx (pk ∷ pks) best ((s, e), h) = elim (Bool-cases (is_none s.cached_hash)) [
  | inl f ↦ rw (e, f, select) (select-total m (idx + 1) pks best h)
  | inr f ↦ rw (e, f, select) (select-total m (idx + 1) pks _ h)
]

-- ===== src/Bundle/Atas.antt =====
-- The token accounts that `build_arb_instructions` creates, against those that the guard reads.
use engine_mev.Base.{
  ◌≡◌, refl, sym, ap, ◌∙◌, false, Option, none, some, List, [], ◌∷◌, ◌++◌, ◌==◌, if◌then◌else◌, All,
  Option-cases, Bool-cases, ==_refl, inl, inr, arith,
}
use engine_mev.Base.Outcome.{ret}
use engine_mev.Cache.{StateCache, lookup, get_mint_program, set_mint_program, put}
use engine_mev.Pool.{Pubkey, RouteHop}
use engine_mev.Addresses
use engine_mev.Bundle.Execute.{output_token_program}
use engine_mev.Bundle.Arb.{Atas, route_mints, guarded_program, guarded_mints, pool_program}

-- Each listed program is the one that the cache gives for its mint.
abbrev Agrees : Atas → StateCache → Type 0
Agrees atas c = (m p : Pubkey) → lookup m atas ≡ some p → p ≡ output_token_program c m

-- A mint is listed, with the program that the cache gives.
abbrev pub IsListed : Atas → StateCache → Pubkey → Type 0
IsListed atas c mint = lookup mint atas ≡ some (output_token_program c mint)

lookup-append :
    (m k p : Pubkey) (atas : Atas)
    → lookup m (atas ++ ((k, p) ∷ []))
      ≡ elim (lookup m atas) [ some q ↦ some q | none ↦ if k == m then some p else none ]
unfolding lookup
lookup-append m k p [] = refl
lookup-append m k p ((j, q) ∷ rest) = ground (arith, lookup-append m k p rest)

no_entry : (c : StateCache) → Agrees [] c
unfolding lookup
no_entry c m p h = cc

kept_before :
    (m q k p : Pubkey) (atas : Atas)
    → lookup m atas ≡ some q
    → lookup m (atas ++ ((k, p) ∷ [])) ≡ some q
kept_before m q k p atas g = rw (lookup-append m k p atas, g) refl

now_listed :
    (k p : Pubkey) (atas : Atas) → lookup k atas ≡ none → lookup k (atas ++ ((k, p) ∷ [])) ≡ some p
now_listed k p atas e = rw (lookup-append k k p atas, e, ==_refl k) refl

apart_from :
    (k m : Pubkey) (atas : Atas) (q : Pubkey)
    → lookup k atas ≡ none
    → lookup m atas ≡ some q
    → (k == m) ≡ false
apart_from k m atas q e g = elim (Bool-cases (k == m)) [
  | inl is ↦ let same : k ≡ m = ground arith in absurd (ground (arith, rw (same) at e))
  | inr isnt ↦ isnt
]

abbrev first : Pubkey → Option (Pubkey × StateCache) → Pubkey
first d none = d
first d (some r) = r.0

abbrev second : StateCache → Option (Pubkey × StateCache) → StateCache
second d none = d
second d (some r) = r.1

module _ (hops : List RouteHop) where
  -- What the resolution of one mint gives, and leaves as it was.
  resolved :
      (c c' : StateCache) (mint p : Pubkey)
      → guarded_program hops c mint ≡ some (p, c')
      → (p ≡ output_token_program c' mint)
        × ((m : Pubkey)
            → (mint == m) ≡ false
            → output_token_program c' m ≡ output_token_program c m)
  unfolding guarded_program output_token_program get_mint_program set_mint_program put
  resolved c c' mint p h = elim (Bool-cases (mint == Addresses.wsol)) [
    | inl e ↦
        let h1 : some (Addresses.spl_token, c) ≡ some (p, c') = rw (e, guarded_program) at h in
        let same : c ≡ c' = ap (λ r. second c r) h1 in
        let pe : Addresses.spl_token ≡ p = ap (λ r. first 0 r) h1 in
        rw (← same, ← pe) (rw (e, output_token_program) refl, λ m d. refl)
    | inr e ↦ elim (Option-cases (c.mint_programs mint)) [
      | inr (q, known) ↦
          let h1 : some (q, c) ≡ some (p, c') = rw (e, known, guarded_program) at h in
          let same : c ≡ c' = ap (λ r. second c r) h1 in
          let pe : q ≡ p = ap (λ r. first 0 r) h1 in
          rw (← same, ← pe) (rw (e, known, output_token_program) refl, λ m d. refl)
      | inl unknown ↦ elim (Option-cases (pool_program c mint hops)) [
        | inl nothing_found ↦
            let h1 : ◌≡◌ {A = Option (Pubkey × StateCache)} none (some (p, c')) =
              rw (e, unknown, nothing_found, guarded_program) at h in
            cc
        | inr (q, found) ↦
            let h1 : some (q, set_mint_program mint q c) ≡ some (p, c') =
              rw (e, unknown, found, guarded_program) at h in
            let same : set_mint_program mint q c ≡ c' = ap (λ r. second c r) h1 in
            let pe : q ≡ p = ap (λ r. first 0 r) h1 in
            rw (← same, ← pe)
              (
                rw (e, ==_refl mint, output_token_program) refl,
                λ m d. rw (d, output_token_program) refl,
              )
      ]
    ]
  ]

  extended :
      (c c1 : StateCache) (mint p : Pubkey) (atas : Atas)
      → lookup mint atas ≡ none
      → guarded_program hops c mint ≡ some (p, c1)
      → Agrees atas c
      → Agrees (atas ++ ((mint, p) ∷ [])) c1
  extended c c1 mint p atas e f agree m q g =
      let (agree_p, others) = resolved c c1 mint p f in
      let g' = rw (lookup-append m mint p atas) at g in
      elim (Option-cases (lookup m atas)) [
        | inr (q', old) ↦
            let apart : (mint == m) ≡ false = apart_from mint m atas q' e old in
            let same : some q' ≡ some q = rw (old) at g' in
            let pq : q' ≡ q = ground arith in rw (← pq) (agree m q' old ∙ sym (others m apart))
        | inl new ↦ elim (Bool-cases (mint == m)) [
          | inl is ↦
              let same : some p ≡ some q = rw (new, is) at g' in
              let pq : p ≡ q = ground arith in
              let mm : mint ≡ m = ground arith in rw (← pq, ← mm) agree_p
          | inr isnt ↦ absurd (ground (arith, rw (new, isnt) at g'))
        ]
      ]

  -- The loop: what is listed agrees with the cache at the end, and every mint is listed.
  listed :
      (mints : List Pubkey) (atas atas' : Atas) (c c' : StateCache)
      → guarded_mints hops mints atas c ≡ (c', ret atas')
      → Agrees atas c
      → (Agrees atas' c')
        × ((m p : Pubkey) → lookup m atas ≡ some p → lookup m atas' ≡ some p)
        × All (λ m. (p : Pubkey) × (lookup m atas' ≡ some p)) mints
  unfolding guarded_mints
  listed [] atas atas' c c' h agree =
      let same : c ≡ c' = ground arith in
      let out : atas ≡ atas' = ground arith in rw (← same, ← out) (agree, λ m p e. e, tt)
  listed (mint ∷ rest) atas atas' c c' h agree = elim (Option-cases (lookup mint atas)) [
    | inr (p, e) ↦
        let (agrees, kept, all) = listed rest atas atas' c c' (rw (e, guarded_mints) at h) agree in
        (agrees, kept, ((p, kept mint p e), all))
    | inl e ↦ elim (Option-cases (guarded_program hops c mint)) [
      | inl f ↦ absurd (ground (arith, rw (e, f, guarded_mints) at h))
      | inr ((p, c1), f) ↦
          let agree' = extended c c1 mint p atas e f agree in
          let (agrees, kept, all) =
            listed rest (atas ++ ((mint, p) ∷ [])) atas' c1 c' (rw (e, f, guarded_mints) at h)
              agree' in
          (
            agrees,
            λ m q g. kept m q (kept_before m q mint p atas g),
            ((p, kept mint p (now_listed mint p atas e)), all),
          )
    ]
  ]

  from_agreement :
      (mints : List Pubkey) (atas : Atas) (c : StateCache)
      → Agrees atas c
      → All (λ m. (p : Pubkey) × (lookup m atas ≡ some p)) mints
      → All (IsListed atas c) mints
  from_agreement [] atas c agree all = tt
  from_agreement (m ∷ rest) atas c agree ((p, e), all) =
      (rw (← agree m p e) e, from_agreement rest atas c agree all)

-- Where the guarded path resolves the token program of every mint, the input and the output mint of
-- every hop are in its list of token accounts, each with the program that `output_token_program`
-- gives for the mint on the cache as the path leaves it.
pub guarded_mints-IsListed :
    (hops : List RouteHop) (c c' : StateCache) (atas : Atas)
    → guarded_mints hops (route_mints hops) [] c ≡ (c', ret atas)
    → All (IsListed atas c') (route_mints hops)
guarded_mints-IsListed hops c c' atas h =
    let (agrees, kept, all) = listed hops (route_mints hops) [] atas c c' h (no_entry c) in
    from_agreement hops (route_mints hops) atas c' agrees all

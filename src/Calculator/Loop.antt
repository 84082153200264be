-- ===== src/Calculator/Loop.antt =====
-- The rule for the loops of the route search: what the body keeps of the routes found so far holds
-- at the end, and the loops stop as soon as they have enough routes.
use engine_mev.Base.{
  ◌≤◌, ◌≡◌, refl, arith, Bool, true, false, Option, none, some, List, [], ◌∷◌, ◌++◌, length,
  length-append, leb, if◌then◌else◌, All, All-append,
}
use engine_mev.Base.Outcome.{Outcome, ret, nothing, panic, >>=-use}
use engine_mev.Calculator.{Routes, early_exit_routes, for_each, offer}
use engine_mev.Pool.{Pubkey, ArbRoute, is_profitable}

-- What a body returns.
abbrev pub ended : Routes → Bool → Outcome (Routes × Bool)
ended rs stop = ret (rs, stop)

module _ (Q : ArbRoute → Type 0) where
  -- Every route found has the property, and a search that goes on has fewer than enough routes.
  abbrev pub Found : Bool → Routes → Type 0
  Found stop rs = All Q rs × (length rs ≤ (if stop then 5 else 4))

  -- The body of a loop keeps that.
  abbrev pub Keeps : (Routes → Outcome (Routes × Bool)) → Type 0
  Keeps body =
      (rs rs' : Routes) (stop : Bool) → Found false rs → body rs ≡ ret (rs', stop) → Found stop rs'

  -- A body that returns the given routes.
  pub same-Keeps :
      {rs rs' : Routes} {halt stop : Bool}
      → Found halt rs
      → ended rs halt ≡ ended rs' stop
      → Found stop rs'
  same-Keeps {rs} {rs'} {halt} {stop} h e =
      let same : rs ≡ rs' = ground arith in
      let stopped : halt ≡ stop = ground arith in rw (← same, ← stopped) h

  weaken : (stop : Bool) (rs : Routes) → Found false rs → Found stop rs
  weaken true rs h = (h.0, omega (arith, h.1))
  weaken false rs h = h

  abbrev Tail :
      (Pubkey → Routes → Outcome (Routes × Bool))
      → List Pubkey
      → Routes
      → Bool
      → Outcome (Routes × Bool)
  Tail visit ps found halt = elim halt [
    | true ↦ ret (found, true)
    | false ↦ for_each visit ps found
  ]

  after-Keeps :
      (visit : Pubkey → Routes → Outcome (Routes × Bool)) (ps : List Pubkey)
      → Keeps (for_each visit ps)
      → (found rs' : Routes) (halt stop : Bool) → Found halt found
      → Tail visit ps found halt ≡ ret (rs', stop)
      → Found stop rs'
  after-Keeps visit ps rest found rs' true stop h e = same-Keeps h e
  after-Keeps visit ps rest found rs' false stop h e = rest found rs' stop h e

  pub for_each-Keeps :
      (visit : Pubkey → Routes → Outcome (Routes × Bool))
      → ((p : Pubkey) → Keeps (visit p))
      → (ps : List Pubkey) → Keeps (for_each visit ps)
  unfolding for_each
  for_each-Keeps visit keep [] rs rs' stop h e = same-Keeps h e
  for_each-Keeps visit keep (p ∷ ps) rs rs' stop h e = >>=-use (visit p rs) _ e λ out hv rest.
      after-Keeps visit ps (for_each-Keeps visit keep ps) out.0 rs' out.1 stop
        (keep p rs out.0 out.1 h hv) rest

  push-Keeps :
      (r : ArbRoute) (rs rs' : Routes) (b stop : Bool)
      → (b ≡ true → Q r)
      → Found false rs
      → (if b
          then ended (rs ++ r ∷ []) (leb early_exit_routes (length (rs ++ r ∷ [])))
          else ended rs false)
        ≡ ended rs' stop
      → Found stop rs'
  push-Keeps r rs rs' true stop good h e =
      same-Keeps
        (All-append Q rs (r ∷ []) h.0 (good refl, tt), ground (arith, length-append rs (r ∷ []))) e
  push-Keeps r rs rs' false stop good h e = same-Keeps h e

  -- A candidate is pushed only when it is profitable.
  pub offer-Keeps :
      (m : Outcome ArbRoute)
      → ((r : ArbRoute) → m ≡ ret r → is_profitable r ≡ true → Q r)
      → Keeps (offer m)
  unfolding offer
  offer-Keeps (ret r) good rs rs' stop h e =
      push-Keeps r rs rs' (is_profitable r) stop (good r refl) h e
  offer-Keeps nothing good rs rs' stop h e = same-Keeps h e
  offer-Keeps panic good rs rs' stop h e = absurd (ground arith)

  -- The early exits before a body.
  pub if-Keeps :
      (b halt : Bool) (body : Outcome (Routes × Bool)) (rs rs' : Routes) (stop : Bool)
      → Found false rs
      → (body ≡ ret (rs', stop) → Found stop rs')
      → (if b then ret (rs, halt) else body) ≡ ret (rs', stop)
      → Found stop rs'
  if-Keeps true halt body rs rs' stop h keep e = same-Keeps (weaken halt rs h) e
  if-Keeps false halt body rs rs' stop h keep e = keep e

  abbrev On {ℓ} :
      {A : Type ℓ}
      → Option A
      → Outcome (Routes × Bool)
      → (A → Outcome (Routes × Bool))
      → Outcome (Routes × Bool)
  On o base body = elim o [ none ↦ base | some a ↦ body a ]

  pub Option-Keeps {ℓ} :
      {A : Type ℓ} (o : Option A) (body : A → Outcome (Routes × Bool)) (rs rs' : Routes)
      (stop : Bool)
      → Found false rs
      → ((a : A) → o ≡ some a → body a ≡ ret (rs', stop) → Found stop rs')
      → On o (ended rs false) body ≡ ended rs' stop
      → Found stop rs'
  Option-Keeps none body rs rs' stop h keep e = same-Keeps h e
  Option-Keeps (some a) body rs rs' stop h keep e = keep a refl e

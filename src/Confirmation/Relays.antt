-- ===== src/Confirmation/Relays.antt =====
-- The trackers of one opportunity, one for each relay (src/bin/cexdex.rs): they share the flag that
-- the first settlement raises, and only that one releases the nonce. Meanwhile the pool of nonces
-- goes on: other opportunities check nonces out and release them, and hashes are refreshed.
use engine_mev.Base.{
  ℕ, suc, ◌+◌, ◌<◌, ◌≡◌, refl, ap, sym, ◌∙◌, Bool, true, false, Option, none, some, List, [], ◌∷◌,
  ◌++◌, ◌⊎◌, inl, inr, arith,
}
use engine_mev.Confirmation.{Call, on_settle, ConfirmationStatus, Tracked, Received, track}
use engine_mev.Confirmation.Settled.{settles, count, track-Ended}
use engine_mev.Nonce.{NoncePool, mark_settled}
use engine_mev.Pool.{Pubkey}

-- The callback `on_settle` of an opportunity: the flag is swapped in, and the first call releases.
unfoldable pub settle_callback : Option Pubkey → Bool × NoncePool → Bool × NoncePool
settle_callback pk (true, pool) = (true, pool)
settle_callback none (false, pool) = (true, pool)
settle_callback (some k) (false, pool) = (true, mark_settled k pool)

-- A call of one of the trackers, or any other change of the pool, by its effect.
pub data Event : Type 0 where
  call : Call → Event
  other : (NoncePool → NoncePool) → Event

abbrev pub calls_of : List Call → List Event
calls_of [] = []
calls_of (c ∷ cs) = call c ∷ calls_of cs

-- The events in the order in which they happen, by their effect on the flag and the nonces.
unfoldable pub run_events : Option Pubkey → List Event → Bool × NoncePool → Bool × NoncePool
run_events pk [] s = s
run_events pk (call on_settle ∷ rest) s = run_events pk rest (settle_callback pk s)
run_events pk (call _ ∷ rest) s = run_events pk rest s
run_events pk (other f ∷ rest) (flag, pool) = run_events pk rest (flag, f pool)

-- The other changes alone.
abbrev pub run_others : List Event → NoncePool → NoncePool
run_others [] pool = pool
run_others (call c ∷ rest) pool = run_others rest pool
run_others (other f ∷ rest) pool = run_others rest (f pool)

abbrev pub settles_in : List Event → ℕ
settles_in [] = 0
settles_in (call on_settle ∷ rest) = suc (settles_in rest)
settles_in (call _ ∷ rest) = settles_in rest
settles_in (other f ∷ rest) = settles_in rest

-- Two lists of events, interleaved.
pub data Merge : List Event → List Event → List Event → Type 0 where
  over : Merge [] [] []
  first : (e : Event) {xs ys zs : List Event} → Merge xs ys zs → Merge (e ∷ xs) ys (e ∷ zs)
  second : (e : Event) {xs ys zs : List Event} → Merge xs ys zs → Merge xs (e ∷ ys) (e ∷ zs)

settles_in_cons :
    (e : Event) (xs : List Event) → settles_in (e ∷ xs) ≡ settles_in (e ∷ []) + settles_in xs
settles_in_cons (call c) xs = ground arith
settles_in_cons (other f) xs = omega arith

settles_in-Merge :
    {xs ys zs : List Event} → Merge xs ys zs → settles_in zs ≡ settles_in xs + settles_in ys
settles_in-Merge over = omega arith
settles_in-Merge (first e {xs} {ys} {zs} m) =
    omega (arith, settles_in_cons e xs, settles_in_cons e zs, settles_in-Merge m)
settles_in-Merge (second e {xs} {ys} {zs} m) =
    omega (arith, settles_in_cons e ys, settles_in_cons e zs, settles_in-Merge m)

settles_in-calls_of : (cs : List Call) → settles_in (calls_of cs) ≡ settles cs
settles_in-calls_of [] = refl
settles_in-calls_of (c ∷ cs) = ground (arith, settles_in-calls_of cs)

-- A settlement, or another event.
Event-cases : (e : Event) → (e ≡ call on_settle) ⊎ (settles_in (e ∷ []) ≡ 0)
Event-cases (call on_settle) = inl refl
Event-cases (call _) = inr refl
Event-cases (other f) = inr refl

-- Once the flag is up the trackers change nothing any more.
settled_stays :
    (pk : Option Pubkey) (events : List Event) (pool : NoncePool)
    → run_events pk events (true, pool) ≡ (true, run_others events pool)
unfolding run_events settle_callback
settled_stays pk [] pool = refl
settled_stays pk (call c ∷ rest) pool = ground (arith, settled_stays pk rest pool)
settled_stays pk (other f ∷ rest) pool = settled_stays pk rest (f pool)

-- Before the first settlement they change nothing either.
not_settled :
    (pk : Option Pubkey) (e : Event) (rest : List Event) (pool : NoncePool)
    → settles_in (e ∷ []) ≡ 0
    → run_events pk (e ∷ rest) (false, pool) ≡ run_events pk rest (false, run_others (e ∷ []) pool)
unfolding run_events
not_settled pk (call c) rest pool h = ground arith
not_settled pk (other f) rest pool h = refl

run_others_cons :
    (e : Event) (xs : List Event) (pool : NoncePool)
    → run_others (e ∷ xs) pool ≡ run_others xs (run_others (e ∷ []) pool)
run_others_cons (call c) xs pool = refl
run_others_cons (other f) xs pool = refl

-- The nonce is released at the first settlement, and only there.
abbrev pub IsReleasedOnce : Pubkey → List Event → NoncePool → Type 0
IsReleasedOnce k events pool =
    (before after : List Event) × (events ≡ before ++ (call on_settle ∷ after))
    × (settles_in before ≡ 0)
    × (run_events (some k) events (false, pool)
        ≡ (true, run_others after (mark_settled k (run_others before pool))))

released :
    (k : Pubkey) (events : List Event) (pool : NoncePool)
    → 0 < settles_in events
    → IsReleasedOnce k events pool
unfolding run_events settle_callback
released k [] pool h = absurd (omega (arith, h))
released k (e ∷ rest) pool h = elim (Event-cases e) [
  | inl is ↦ rw (is) ([], rest, refl, refl, settled_stays (some k) rest (mark_settled k pool))
  | inr none_here ↦
      let (before, after, split, none_before, ran) =
        released k rest (run_others (e ∷ []) pool)
          (omega (arith, h, settles_in_cons e rest, none_here)) in
      (
        e ∷ before,
        after,
        ap (λ l. e ∷ l) split,
        omega (arith, settles_in_cons e before, none_here, none_before),
        not_settled (some k) e rest pool none_here
            ∙ ran
            ∙ ap (λ q. (true, run_others after (mark_settled k q)))
                (sym (run_others_cons e before pool)),
      )
]

-- Of the calls of an opportunity's trackers exactly one releases the nonce, the first settlement of
-- them all: whatever calls the other trackers of the opportunity make, whatever else happens to the
-- pool of nonces in between, checkouts of the same nonce by later opportunities included, and in
-- whatever order all of it happens, before that settlement and after it the pool changes by those
-- other events alone. For a tracker that has its callback.
pub track-mark_settled :
    (t : Tracked) (status : ℕ → ConfirmationStatus) (delay : ℕ → ℕ) (received : List Received)
    (nanos : ℕ) (k : Pubkey) (pool : NoncePool) (calls : List Call) (others all : List Event)
    → t.has_on_settle ≡ true
    → track t status delay received nanos ≡ some calls
    → Merge (calls_of calls) others all
    → IsReleasedOnce k all pool
track-mark_settled t status delay received nanos k pool calls others all given run merged =
    let (calls', run', ended) = track-Ended t status delay received nanos in
    let same : calls' ≡ calls = ground arith in
    let counted : count t.has_on_settle ≡ 1 = rw (given) refl in
    let one : settles calls ≡ 1 = rw (← same) (ended.0 ∙ counted) in
    released k all pool (omega (arith, one, settles_in-calls_of calls, settles_in-Merge merged))

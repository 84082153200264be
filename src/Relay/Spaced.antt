-- ===== src/Relay/Spaced.antt =====
-- The rate limit over a sequence of calls.
use engine_mev.Base.{
  ℕ, ◌+◌, ◌-◌, ◌≤◌, List, [], ◌∷◌, ltb, Bool-cases, inl, inr, arith, if◌then◌else◌,
}
use engine_mev.Relay.{RateLimiter, check}

-- The calls, by the two readings that each makes of the clock.
abbrev pub run : List (ℕ × ℕ) → RateLimiter → List (ℕ × ℕ)
run [] r = []
run ((now, later) ∷ rest) r =
    let (passes, r') = check now later r in
    if passes then (now, later) ∷ run rest r' else run rest r'

-- The clock does not run backwards, from a time on.
abbrev pub IsClock : ℕ → List (ℕ × ℕ) → Type 0
IsClock t [] = Unit
IsClock t ((now, later) ∷ rest) = (t ≤ now) × (now ≤ later) × IsClock later rest

-- Each call reads the clock at least an interval after the one before it has been let through.
abbrev pub AreSpaced : ℕ → ℕ → List (ℕ × ℕ) → Type 0
AreSpaced interval last [] = Unit
AreSpaced interval last ((now, later) ∷ rest) =
    (last + interval ≤ now) × AreSpaced interval later rest

-- The calls that the limiter lets through are spaced by its interval, counted from the one before,
-- in whatever sequence of calls, where the clock does not run backwards.
pub run-AreSpaced :
    (calls : List (ℕ × ℕ)) (r : RateLimiter) (t : ℕ)
    → r.last_submit ≤ t
    → IsClock t calls
    → AreSpaced r.min_interval r.last_submit (run calls r)
unfolding check
run-AreSpaced [] r t h clock = tt
run-AreSpaced ((now, later) ∷ rest) r t h (early, late, clock) =
    elim (Bool-cases (ltb (now - r.last_submit) r.min_interval)) [
      | inl e ↦
          rw (e, run, check) (run-AreSpaced rest r later (omega (arith, h, early, late)) clock)
      | inr e ↦
          rw (e, run, check)
            (
              ground arith,
              run-AreSpaced rest (record r { last_submit = later }) later (omega arith) clock,
            )
    ]

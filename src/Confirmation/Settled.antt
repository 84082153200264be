-- ===== src/Confirmation/Settled.antt =====
-- Every run of the tracker ends, and settles once.
use engine_mev.Base.{
  ℕ, zero, suc, ◌+◌, ◌*◌, ◌%◌, ◌≤◌, ◌<◌, ◌≡◌, refl, Bool, true, false, some, List, [], ◌∷◌, leb,
  ◌⊎◌, inl, inr, Bool-cases, arith,
}
use engine_mev.Confirmation.{
  ConfirmationStatus, landed, failed, pending, rpc_error, Call, on_settle, on_landed, Tracked,
  Received, collect_ids, after_timeout, after_landed, after_failed, after_errors, without_ids, poll,
  track, confirmation_timeout, max_rpc_errors,
}

-- How often the callbacks are called.
abbrev pub settles : List Call → ℕ
settles [] = 0
settles (on_settle ∷ rest) = suc (settles rest)
settles (_ ∷ rest) = settles rest

abbrev pub landings : List Call → ℕ
landings [] = 0
landings (on_landed ∷ rest) = suc (landings rest)
landings (_ ∷ rest) = landings rest

abbrev pub count : Bool → ℕ
count true = 1
count false = 0

-- The settlement comes last, if there is one.
abbrev pub EndsSettled : List Call → Type 0
EndsSettled [] = Unit
EndsSettled (on_settle ∷ rest) = rest ≡ []
EndsSettled (_ ∷ rest) = EndsSettled rest

List-cases {ℓ} : {A : Type ℓ} (xs : List A) → (xs ≡ []) ⊎ ((x : A) × (ys : List A) × (xs ≡ x ∷ ys))
List-cases [] = inl refl
List-cases (x ∷ xs) = inr (x, xs, refl)

module _ (t : Tracked) (status : ℕ → ConfirmationStatus) (delay : ℕ → ℕ) where
  -- A run of the tracker: it settles once, at its end, and lands only where one of the first four
  -- answers says so.
  abbrev pub Ended : List Call → Type 0
  Ended calls =
      (settles calls ≡ count t.has_on_settle)
      × EndsSettled calls
      × ((landings calls ≡ 0)
          ⊎ ((k : ℕ) × (k < 4) × (status k ≡ landed) × (landings calls ≡ count t.has_on_landed)))

  timeout_Ended : Ended (after_timeout t)
  unfolding after_timeout
  timeout_Ended = ground arith

  failed_Ended : Ended (after_failed t)
  unfolding after_failed
  failed_Ended = ground arith

  errors_Ended : Ended (after_errors t)
  unfolding after_errors
  errors_Ended = ground arith

  without_ids-Ended : Ended (without_ids t)
  unfolding without_ids
  without_ids-Ended = ground arith

  landed_Ended : (k : ℕ) → k < 4 → status k ≡ landed → Ended (after_landed t)
  unfolding after_landed
  landed_Ended k h e = (ground arith, ground arith, inr (k, h, e, ground arith))

  abbrev Ends : ℕ → ℕ → ℕ → ℕ → Type 0
  Ends fuel i now rpc_errors =
      (calls : List Call) × (poll t status delay fuel i now rpc_errors ≡ some calls) × Ended calls

  -- One round, by its answer.
  round :
      (fuel i now rpc_errors : ℕ) (s : ConfirmationStatus)
      → i < 4
      → leb confirmation_timeout now ≡ false
      → ((n errors : ℕ) → now + 3_000 ≤ n → Ends fuel (suc i) n errors)
      → status i ≡ s
      → Ends (suc fuel) i now rpc_errors
  unfolding poll
  round fuel i now errors landed h early again e =
      (after_landed t, rw (early, e) refl, landed_Ended i h e)
  round fuel i now errors failed h early again e =
      (after_failed t, rw (early, e) refl, failed_Ended)
  round fuel i now errors pending h early again e =
      let (calls, run, ended) = again (now + delay i + 3_000) 0 (omega arith) in
      (calls, rw (early, e) run, ended)
  round fuel i now errors rpc_error h early again e =
      elim (Bool-cases (leb max_rpc_errors (suc errors))) [
        | inl limit ↦ (after_errors t, rw (early, e, limit) refl, errors_Ended)
        | inr below ↦
            let (calls, run, ended) =
              again (now + delay i + 3_000 + 3_000) (suc errors) (omega arith) in
            (calls, rw (early, e, below) run, ended)
      ]

  poll_Ended :
      (fuel i now rpc_errors : ℕ)
      → 0 < fuel
      → 15_000 ≤ now + 3_000 * fuel
      → i + fuel ≤ 5
      → Ends fuel i now rpc_errors
  unfolding poll
  poll_Ended zero i now errors positive h k = absurd (omega (arith, positive))
  poll_Ended (suc fuel) i now errors positive h k =
      elim (Bool-cases (leb confirmation_timeout now)) [
        | inl e ↦ (after_timeout t, rw (e) refl, timeout_Ended)
        | inr e ↦
            let more : 0 < fuel = ground arith in
            round fuel i now errors (status i) (omega (arith, more, k)) e
              (λ n errs late.
                poll_Ended fuel (suc i) n errs more (omega (arith, h, late)) (omega (arith, k)))
              refl
      ]

-- Whatever the relays and the server answer, and however long each round takes, the tracker ends
-- within five rounds. It has then called `on_settle` once if it was given one, after all its
-- other calls; and it has called `on_landed` at most once, and only if one of the first four
-- answers was that the bundle landed.
pub track-Ended :
    (t : Tracked) (status : ℕ → ConfirmationStatus) (delay : ℕ → ℕ) (received : List Received)
    (nanos : ℕ)
    → (calls : List Call) × (track t status delay received nanos ≡ some calls)
      × Ended t status delay calls
unfolding track
track-Ended t status delay received nanos = elim (List-cases (collect_ids received)) [
  | inl e ↦ (without_ids t, rw (e, track) refl, without_ids-Ended t status delay)
  | inr (x, xs, e) ↦
      let (calls, run, ended) =
        poll_Ended t status delay 5 0 (1_000 + nanos % 2_000) 0 (omega arith) (omega arith)
          (omega arith) in
      (calls, rw (e, track) run, ended)
]

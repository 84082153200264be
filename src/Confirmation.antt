-- ===== src/Confirmation.antt =====
-- The confirmation tracker, src/executor/confirmation.rs: it collects the bundle ids that the relays
-- return, then asks for their status until one is decided or the time is over. What the environment
-- answers is an argument: the results of the relays, the status of each request, and how long each
-- round takes besides its sleeps. Times are in milliseconds from the start of the polling. The
-- calls that the tracker makes are its result, in their order; logging is not modelled.
use engine_mev.Base.{
  ℕ, zero, suc, ◌+◌, ◌%◌, Bool, true, false, Option, none, some, List, [], ◌∷◌, ◌++◌, leb,
  if◌then◌else◌,
}
pub mod Statuses
pub mod Settled
pub mod Relays

pub data ConfirmationStatus : Type 0 where
  landed failed pending rpc_error : ConfirmationStatus

abbrev pub confirmation_timeout : ℕ
confirmation_timeout = 12_000

abbrev pub poll_interval : ℕ
poll_interval = 3_000

abbrev pub max_rpc_errors : ℕ
max_rpc_errors = 2

pub record RelayResult : Type 0 where
  -- The id, as the number of its characters: only an empty one is told apart.
  pub bundle_id : Option ℕ
  pub success : Bool

-- One round of `timeout(remaining, relay_rx.recv())`: a result, a closed channel, or no time left.
pub data Received : Type 0 where
  result : RelayResult → Received
  closed elapsed : Received

-- An id that is not empty.
abbrev kept_id : Option ℕ → List ℕ → List ℕ
kept_id none ids = ids
kept_id (some zero) ids = ids
kept_id (some (suc n)) ids = suc n ∷ ids

-- The loop that collects the ids. The list is what the rounds see; an end of it is a closed channel.
unfoldable pub collect_ids : List Received → List ℕ
collect_ids [] = []
collect_ids (closed ∷ rest) = []
collect_ids (elapsed ∷ rest) = []
collect_ids (result r ∷ rest) =
    let later = collect_ids rest in if r.success then kept_id r.bundle_id later else later

-- What the tracker calls: the counters, the analysis of competitors, and the two callbacks.
pub data Call : Type 0 where
  inc_bundles_dropped inc_cexdex_bundles_dropped inc_bundles_confirmed : Call
  add_confirmed_profit add_confirmed_tips check_competitor on_landed on_settle : Call

-- Which of the optional arguments are `Some`.
pub record Tracked : Type 0 where
  pub has_on_landed : Bool
  pub has_on_settle : Bool
  pub has_relay_name : Bool

abbrev pub call_if : Bool → Call → List Call
call_if true c = c ∷ []
call_if false c = []

-- `deadline` has passed.
unfoldable pub after_timeout : Tracked → List Call
after_timeout t =
    (inc_bundles_dropped ∷ call_if t.has_relay_name inc_cexdex_bundles_dropped)
    ++ (check_competitor ∷ call_if t.has_on_settle on_settle)

unfoldable pub after_landed : Tracked → List Call
after_landed t =
    (inc_bundles_confirmed ∷ add_confirmed_profit ∷ add_confirmed_tips ∷ [])
    ++ (call_if t.has_on_landed on_landed ++ call_if t.has_on_settle on_settle)

unfoldable pub after_failed : Tracked → List Call
after_failed t =
    (inc_bundles_dropped ∷ call_if t.has_relay_name inc_cexdex_bundles_dropped)
    ++ (check_competitor ∷ call_if t.has_on_settle on_settle)

unfoldable pub after_errors : Tracked → List Call
after_errors t =
    (inc_bundles_dropped ∷ call_if t.has_relay_name inc_cexdex_bundles_dropped)
    ++ call_if t.has_on_settle on_settle

unfoldable pub without_ids : Tracked → List Call
without_ids t =
    call_if t.has_relay_name inc_cexdex_bundles_dropped ++ call_if t.has_on_settle on_settle

module _ (t : Tracked) (status : ℕ → ConfirmationStatus) (delay : ℕ → ℕ) where
  -- The polling loop from round i on; `none` is fuel that runs out.
  unfoldable pub poll : ℕ → ℕ → ℕ → ℕ → Option (List Call)
  poll zero i now rpc_errors = none
  poll (suc fuel) i now rpc_errors =
      let again = poll fuel (suc i) (now + delay i + poll_interval) 0 in
      let again_after_error =
        poll fuel (suc i) (now + delay i + poll_interval + poll_interval) (suc rpc_errors) in
      if leb confirmation_timeout now then some (after_timeout t) else elim (status i) [
        | landed ↦ some (after_landed t)
        | failed ↦ some (after_failed t)
        | pending ↦ again
        | rpc_error ↦
            if leb max_rpc_errors (suc rpc_errors) then some (after_errors t) else again_after_error
      ]

  -- Five rounds are enough, as the fifth begins after the deadline. `nanos` is the clock's reading
  -- that staggers the first request.
  unfoldable pub track : List Received → ℕ → Option (List Call)
  track received nanos = elim (collect_ids received) [
    | [] ↦ some (without_ids t)
    | _ ∷ _ ↦ poll 5 0 (1_000 + nanos % 2_000) 0
  ]

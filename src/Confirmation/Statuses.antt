-- ===== src/Confirmation/Statuses.antt =====
-- `check_bundle_statuses` of src/executor/confirmation.rs, on the answer of the server as far as the
-- code reads it.
use engine_mev.Base.{Bool, true, false, List, [], ◌∷◌, if◌then◌else◌}
use engine_mev.Confirmation.{ConfirmationStatus, landed, failed, pending, rpc_error}

-- The text of `confirmation_status`.
pub data Confirmation : Type 0 where
  missing processed confirmed finalized unknown : Confirmation

-- The field `err`: absent, `null`, an object that has the key `Ok` or not, or another value.
pub data ErrField : Type 0 where
  absent null other : ErrField
  object : Bool → ErrField

pub record BundleStatus : Type 0 where
  pub confirmation_status : Confirmation
  pub error : ErrField

pub data Response : Type 0 where
  request_failed parse_failed unexpected : Response
  statuses : List BundleStatus → Response

abbrev pub has_error : ErrField → Bool
has_error absent = false
has_error null = false
has_error other = true
has_error (object true) = false
has_error (object false) = true

-- The loop over the statuses.
unfoldable pub first_status : List BundleStatus → ConfirmationStatus
first_status [] = pending
first_status (s ∷ rest) =
    let later = first_status rest in
    let decided = if has_error s.error then failed else landed in
    let undecided = if has_error s.error then failed else later in
    elim s.confirmation_status [ missing ↦ later | unknown ↦ undecided | _ ↦ decided ]

unfoldable pub check_bundle_statuses : Response → ConfirmationStatus
check_bundle_statuses request_failed = rpc_error
check_bundle_statuses parse_failed = rpc_error
check_bundle_statuses unexpected = rpc_error
check_bundle_statuses (statuses l) = first_status l

-- ===== src/Lifecycle/Validate.antt =====
-- `ValidateAssignmentClaimState`: which claims may stand beside which status.
use cairnline.Base.{
  not, Option, none, some, Result, ok, err, invalid, reject, ◌>>◌, ◌==◌, string_eq, nat_eq,
}
use cairnline.Base.Trim.{trim_space, is_blank}
use cairnline.Model.Clock.{is_zero, before}
use cairnline.Model.Assignment.{
  AssignmentStatus, queued, claimed, other, AssignmentClaimLease, Assignment, status_eq,
}

-- The claim's id, its holder and its time of acquisition.
unfoldable pub validate_claim_identity : Assignment → AssignmentClaimLease → Result (Unit {0})
validate_claim_identity assignment claim = do
  reject (is_blank claim.id) (invalid "assignment claim id is required")
  reject (not (claim.id == trim_space claim.id))
      (invalid "assignment claim id must not contain surrounding whitespace")
  reject (is_blank assignment.claimed_by)
      (invalid "assignment claimed_by is required when claim is present")
  reject (not (assignment.claimed_by == trim_space assignment.claimed_by))
      (invalid "assignment claimed_by must not contain surrounding whitespace")
  reject (is_zero claim.acquired_at) (invalid "assignment claim acquired_at is required")

-- A reservation has a deadline; any later status has none.
unfoldable pub validate_claim_expiry : AssignmentStatus → AssignmentClaimLease → Result (Unit {0})
validate_claim_expiry claimed claim = do
  reject (is_zero claim.expires_at) (invalid "claimed assignment claim expires_at is required")
  reject (not (before claim.acquired_at claim.expires_at))
      (invalid "assignment claim expires_at must be after acquired_at")
validate_claim_expiry queued claim = err (invalid "queued assignment cannot retain a claim fence")
validate_claim_expiry (other s) claim =
    err (invalid "assignment claim fence has an unsupported status")
validate_claim_expiry _ claim =
    reject (not (is_zero claim.expires_at))
      (invalid "assignment claim expires_at must be empty after claimed status")

abbrev pub validate_claim : Assignment → Option AssignmentClaimLease → Result (Unit {0})
validate_claim assignment none = ok tt
validate_claim assignment (some claim) = do
  validate_claim_identity assignment claim
  validate_claim_expiry assignment.status claim

unfoldable pub validate_assignment_claim_state : Assignment → Result (Unit {0})
validate_assignment_claim_state assignment = validate_claim assignment assignment.claim

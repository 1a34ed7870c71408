-- ===== src/Lifecycle/Validity.antt =====
-- What `ValidateAssignmentClaimState` accepts, said without its checks.
use cairnline.Base.{◌<◌, ◌≡◌, ◌≢◌, ◌↔◌, refl, String, Option, some, none, ok, arith, eq_iff}
use cairnline.Base.Trim.{trim_space}
use cairnline.Model.Clock.{Time}
use cairnline.Model.Assignment.{
  AssignmentStatus, queued, claimed, other, AssignmentClaimLease, Assignment,
}
use cairnline.Lifecycle.Validate.{
  validate_claim_identity, validate_claim_expiry, validate_assignment_claim_state, validate_claim,
}

-- A text without surrounding space, and not empty.
abbrev pub IsProper : String → Type 0
IsProper s = (s ≢ "") × (s ≡ trim_space s)

abbrev pub FitsStatus : AssignmentStatus → Time → Time → Type 0
FitsStatus claimed acquired expires = acquired < expires
FitsStatus queued acquired expires = ⊥
FitsStatus (other s) acquired expires = ⊥
FitsStatus _ acquired expires = expires ≡ 0

abbrev pub IsWellClaimedBy : Assignment → Option AssignmentClaimLease → Type 0
IsWellClaimedBy a none = Unit
IsWellClaimedBy a (some c) =
    IsProper c.id
    × IsProper a.claimed_by
    × (c.acquired_at ≢ 0)
    × FitsStatus a.status c.acquired_at c.expires_at

-- There is no claim, or it has an id and a holder, both proper, was acquired at some time, and its
-- deadline is one after that time while the work is only claimed and none once it has started.
abbrev pub IsWellClaimed : Assignment → Type 0
IsWellClaimed a = IsWellClaimedBy a a.claim

expiry-Fits :
    (s : AssignmentStatus) (c : AssignmentClaimLease)
    → (validate_claim_expiry s c ≡ ok tt) ↔ FitsStatus s c.acquired_at c.expires_at
unfolding validate_claim_expiry
expiry-Fits claimed c = ground arith
expiry-Fits queued c = ground arith
expiry-Fits s c = ground arith

identity_iff :
    (a : Assignment) (c : AssignmentClaimLease)
    → (validate_claim_identity a c ≡ ok tt)
      ↔ (IsProper c.id × IsProper a.claimed_by × (c.acquired_at ≢ 0))
unfolding validate_claim_identity
identity_iff a c = ground (
  arith,
  eq_iff (trim_space c.id) "",
  eq_iff c.id (trim_space c.id),
  eq_iff (trim_space a.claimed_by) "",
  eq_iff a.claimed_by (trim_space a.claimed_by),
)

validate_claim_iff :
    (a : Assignment) (o : Option AssignmentClaimLease)
    → (validate_claim a o ≡ ok tt) ↔ IsWellClaimedBy a o
validate_claim_iff a none = ((λ _. tt), (λ _. refl))
validate_claim_iff a (some c) = ground (arith, identity_iff a c, expiry-Fits a.status c)

-- `ValidateAssignmentClaimState` accepts exactly the well-claimed assignments.
pub validate_iff : (a : Assignment) → (validate_assignment_claim_state a ≡ ok tt) ↔ IsWellClaimed a
unfolding validate_assignment_claim_state
validate_iff a = validate_claim_iff a a.claim

-- ===== src/Lifecycle/Reservation.antt =====
-- A reservation before and after its deadline, and work after it has started.
use cairnline.Base.{
  ◌≤◌, ◌<◌, ◌≡◌, ◌≢◌, refl, subst, sym, true, false, some, none, ok, err, conflict, arith, eq_iff,
  string_eq,
}
use cairnline.Model.Clock.{Time}
use cairnline.Model.Assignment.{
  AssignmentStatus, queued, claimed, AssignmentClaimLease, Assignment, ExecutionRef,
}
use cairnline.Lifecycle.Status.{is_progress}
use cairnline.Lifecycle.Validity.{IsWellClaimed, IsWellClaimedBy, FitsStatus, validate_iff}
use cairnline.Lifecycle.Validate.{validate_assignment_claim_state}
use cairnline.Lifecycle.Stamp.{
  claim_allows_mutation, requeue, attach_execution, retire_reservation, clear_claim_reservation,
  mark_started, transition_time_at,
}
use cairnline.Lifecycle.Fenced.{recover_claim, update_status_with_claim, advanced}
use cairnline.Lifecycle.Commands.{Fenced, change_fenced}
use cairnline.Lifecycle.Fence.{change_fenced-refused}

shut-expired :
    (a : Assignment) (l : AssignmentClaimLease) (now : Time)
    → a.status ≡ claimed
    → a.claim ≡ some l
    → l.expires_at ≤ now
    → claim_allows_mutation a l.id now ≡ false
unfolding claim_allows_mutation
shut-expired a l now s e late = rw (s, e) (ground arith)

-- From its deadline on, if it has one, the holder of a reservation is refused every fenced command,
-- and a recovery that names the claim succeeds and leaves the work queued without a claim.
pub expired-reservation :
    (a : Assignment) (l : AssignmentClaimLease) (now : Time)
    → a.status ≡ claimed
    → a.claim ≡ some l
    → l.expires_at ≢ 0
    → l.expires_at ≤ now
    → ((m : Fenced) → change_fenced l.id m now a ≡ err conflict)
      × ((b : Assignment) × (recover_claim l.id now a ≡ ok b)
          × (b.status ≡ queued)
          × (b.claim ≡ none))
unfolding recover_claim requeue
expired-reservation a l now s e z late = (
  (λ m. change_fenced-refused l.id m now a (shut-expired a l now s e late)),
  (
    record (requeue a) { updated_at = transition_time_at (requeue a) now },
    rw (s, e) (ground (arith, eq_iff l.id l.id)),
    refl,
    refl,
  ),
)

-- The claim that is left once work has started.
abbrev pub fence_only : AssignmentClaimLease → AssignmentClaimLease
fence_only l = record l { expires_at = 0 }

started-IsWellClaimed :
    (a b : Assignment) (l : AssignmentClaimLease)
    → IsWellClaimed a
    → a.claim ≡ some l
    → b.claim ≡ some (fence_only l)
    → b.claimed_by ≡ a.claimed_by
    → FitsStatus b.status l.acquired_at 0
    → IsWellClaimed b
started-IsWellClaimed a b l v e f g h =
    let known : IsWellClaimedBy a (some l) = subst (IsWellClaimedBy a) e v in
    subst (IsWellClaimedBy b) (sym f) (rw g (known.0, known.1, known.2, h))

module _ (s : AssignmentStatus) (r : ExecutionRef) (now : Time) (a : Assignment) where
  status-advanced : (advanced s r now a).status ≡ s
  unfolding advanced retire_reservation attach_execution mark_started clear_claim_reservation
  status-advanced = ground arith

  claimed_by-advanced : (advanced s r now a).claimed_by ≡ a.claimed_by
  unfolding advanced retire_reservation attach_execution mark_started clear_claim_reservation
  claimed_by-advanced = ground arith

  claim-advanced :
      (l : AssignmentClaimLease)
      → a.status ≡ claimed
      → a.claim ≡ some l
      → (advanced s r now a).claim ≡ some (fence_only l)
  unfolding advanced retire_reservation attach_execution mark_started clear_claim_reservation
  claim-advanced l c e = ground arith

fence_open :
    (a : Assignment) (l : AssignmentClaimLease) (now : Time)
    → IsWellClaimed a
    → a.status ≡ claimed
    → a.claim ≡ some l
    → now < l.expires_at
    → claim_allows_mutation a l.id now ≡ true
unfolding claim_allows_mutation
fence_open a l now v c e live =
    let known : IsWellClaimedBy a (some l) = subst (IsWellClaimedBy a) e v in
    rw (c, e) (ground (arith, eq_iff l.id l.id, eq_iff l.id ""))

-- The holder of a well-claimed reservation can report progress before the deadline: the report
-- succeeds, the status is the reported one, the claim loses its deadline and keeps the rest, and
-- the holder stays.
pub holder_starts :
    (a : Assignment) (l : AssignmentClaimLease) (now : Time) (s : AssignmentStatus)
    (r : ExecutionRef)
    → IsWellClaimed a
    → a.status ≡ claimed
    → a.claim ≡ some l
    → now < l.expires_at
    → is_progress s ≡ true
    → (b : Assignment) × (update_status_with_claim s r l.id now a ≡ ok b)
      × (b.status ≡ s)
      × (b.claim ≡ some (fence_only l))
      × (b.claimed_by ≡ a.claimed_by)
unfolding update_status_with_claim
holder_starts a l now s r v c e live p = (
  advanced s r now a,
  ground (arith, fence_open a l now v c e live, accepted),
  status-advanced s r now a,
  claim-advanced s r now a l c e,
  claimed_by-advanced s r now a,
)
  where
    fits : (t : AssignmentStatus) → is_progress t ≡ true → FitsStatus t l.acquired_at 0
    fits t q = ground arith

    accepted : validate_assignment_claim_state (advanced s r now a) ≡ ok tt
    accepted = (validate_iff (advanced s r now a)).1 (
        started-IsWellClaimed a (advanced s r now a) l v e (claim-advanced s r now a l c e)
          (claimed_by-advanced s r now a) (rw (status-advanced s r now a) (fits s p)))

-- ===== src/Lifecycle/Fenced.antt =====
-- The methods of a portable worker, behind the claim fence (internal/core/memory_store.go): what
-- each does to the assignment that it has found. `now` is the reading of the clock.
use cairnline.Base.{
  String, Bool, false, not, ◌+◌, ◌&&◌, ◌||◌, Option, none, some, Result, ok, conflict, reject, ◌>>◌,
  if◌then◌else◌, ◌==◌, string_eq, nat_eq,
}
use cairnline.Model.Clock.{Time, Duration, is_zero, before}
use cairnline.Model.Assignment.{
  AssignmentStatus, queued, claimed, AssignmentClaimLease, Assignment, ExecutionRef,
  AssignmentPreparation, status_eq,
}
use cairnline.Lifecycle.Status.{is_terminal}
use cairnline.Lifecycle.Validate.{validate_assignment_claim_state}
use cairnline.Lifecycle.Stamp.{
  transition_time_at, claim_allows_mutation, attach_execution, attach_snapshot, requeue,
  retire_reservation, mark_started, mark_started_on_completion, mark_completed,
}

-- `ValidateAssignmentClaimState` as the last step before a write.
abbrev pub checked : Assignment → Result Assignment
checked item = do validate_assignment_claim_state item; ok item

unfoldable pub claim_with_lease :
    String → AssignmentClaimLease → Duration → Time → Assignment → Result Assignment
claim_with_lease claimed_by lease ttl now item = do
  reject (not (item.status == queued)) conflict
  let stamp = transition_time_at item now
  let held : AssignmentClaimLease = record lease { acquired_at = now; expires_at = now + ttl }
  checked (record item {
    status = claimed;
    claimed_by = claimed_by;
    claim = some held;
    updated_at = stamp;
  })

abbrev pub extended : Time → AssignmentClaimLease → AssignmentClaimLease
extended candidate claim = record claim {
  expires_at = if before candidate claim.expires_at then claim.expires_at else candidate;
}

abbrev pub extended_claim : Time → Option AssignmentClaimLease → Option AssignmentClaimLease
extended_claim candidate none = none
extended_claim candidate (some claim) = some (extended candidate claim)

unfoldable pub renew_claim : String → Duration → Time → Assignment → Result Assignment
renew_claim claim_id ttl now item = do
  reject (not (item.status == claimed) || not (claim_allows_mutation item claim_id now)) conflict
  ok (record item { claim = extended_claim (now + ttl) item.claim })

-- Only an expired reservation of the expected generation may be taken back.
abbrev pub is_recoverable : Option AssignmentClaimLease → String → Time → Bool
is_recoverable none expected now = false
is_recoverable (some claim) expected now =
    claim.id == expected && not (is_zero claim.expires_at) && not (before now claim.expires_at)

unfoldable pub recover_claim : String → Time → Assignment → Result Assignment
recover_claim expected now item = do
  reject (not (item.status == claimed) || not (is_recoverable item.claim expected now)) conflict
  let free = requeue item
  ok (record free { updated_at = transition_time_at free now })

unfoldable pub prepare_with_claim : AssignmentPreparation → Time → Assignment → Result Assignment
prepare_with_claim p now item = do
  reject (not (item.status == claimed) || not (claim_allows_mutation item p.claim_id now)) conflict
  let ready = attach_snapshot p.context_snapshot_id (attach_execution p.execution_ref item)
  ok (record ready { updated_at = transition_time_at ready now })

unfoldable pub release_with_claim : String → Time → Assignment → Result Assignment
release_with_claim claim_id now item = do
  reject (not (item.status == claimed) || not (claim_allows_mutation item claim_id now)) conflict
  let free = requeue item
  ok (record free { updated_at = transition_time_at free now })

-- The edits of a progress report. The second stamp is taken of the edited assignment.
unfoldable pub advanced : AssignmentStatus → ExecutionRef → Time → Assignment → Assignment
advanced status ref now item =
    let moved = record item { status = status } in
    let started = mark_started (transition_time_at moved now) moved in
    let retired = retire_reservation item.status (attach_execution ref started) in
    record retired { updated_at = transition_time_at retired now }

unfoldable pub update_status_with_claim :
    AssignmentStatus → ExecutionRef → String → Time → Assignment → Result Assignment
update_status_with_claim status ref claim_id now item = do
  reject
      (item.status == queued
        || is_terminal item.status
        || not (claim_allows_mutation item claim_id now))
      conflict
  checked (advanced status ref now item)

-- The edits of a completion, all with one stamp.
unfoldable pub finished : AssignmentStatus → ExecutionRef → Time → Assignment → Assignment
finished status ref stamp item =
    let moved = record item { status = status } in
    let started = mark_started_on_completion item.status status stamp moved in
    let done = attach_execution ref (mark_completed status stamp started) in
    record (retire_reservation item.status done) { updated_at = stamp }

unfoldable pub complete_with_claim :
    AssignmentStatus → ExecutionRef → String → Time → Assignment → Result Assignment
complete_with_claim status ref claim_id now item = do
  reject (is_terminal item.status) conflict
  reject (item.status == queued || not (claim_allows_mutation item claim_id now)) conflict
  checked (finished status ref (transition_time_at item now) item)

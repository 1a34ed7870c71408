-- ===== src/Lifecycle/Stamp.antt =====
-- The helpers that the assignment methods share: stamps, the fence, and small edits.
use cairnline.Base.{
  String, Bool, true, false, not, ◌&&◌, ◌||◌, Option, none, some, if◌then◌else◌, ◌==◌, nat_eq,
  string_eq, list_beq,
}
use cairnline.Model.Clock.{Time, is_zero, before, tick}
use cairnline.Model.Assignment.{
  AssignmentStatus, queued, claimed, cancelled, AssignmentClaimLease, Assignment, ExecutionRef,
  QueuedAssignmentUpdate, no_execution, is_empty, status_eq,
}
use cairnline.Lifecycle.Status.{is_terminal}

-- `if stamp.Before(floor) { stamp = floor }`
abbrev pub raise_to : Time → Time → Time
raise_to floor stamp = if before stamp floor then floor else stamp

-- `assignmentTransitionTimeAt`: later than the last update, whatever the clock says.
unfoldable pub transition_time_at : Assignment → Time → Time
transition_time_at current stamp =
    let raised = raise_to current.started_at (raise_to current.updated_at stamp) in
    if before current.updated_at raised then raised else tick current.updated_at

abbrev pub claim_allows : AssignmentStatus → Option AssignmentClaimLease → String → Time → Bool
claim_allows status none claim_id now = false
claim_allows status (some claim) claim_id now =
    if claim_id == "" || not (claim.id == claim_id)
    then false
    else if not (status == claimed)
    then true
    else not (is_zero claim.expires_at) && before now claim.expires_at

-- `assignmentClaimAllowsMutation`: the fence in front of every portable worker's write.
unfoldable pub claim_allows_mutation : Assignment → String → Time → Bool
claim_allows_mutation item claim_id now = claim_allows item.status item.claim claim_id now

abbrev pub without_expiry : Option AssignmentClaimLease → Option AssignmentClaimLease
without_expiry none = none
without_expiry (some claim) = some (record claim { expires_at = 0 })

-- `clearAssignmentClaimReservation`
unfoldable pub clear_claim_reservation : Assignment → Assignment
clear_claim_reservation a = record a { claim = without_expiry a.claim }

-- `queuedAssignmentSnapshotMatches`
unfoldable pub queued_snapshot_matches : Assignment → QueuedAssignmentUpdate → Bool
queued_snapshot_matches current update =
    current.work_item_id == update.expected.work_item_id
    && current.role_id == update.expected.role_id
    && current.root_id == update.expected.root_id
    && current.execution_mode == update.expected.execution_mode
    && current.status == queued
    && current.claimed_by == ""
    && current.desired_agent.kind == update.expected.desired_agent.kind
    && list_beq current.desired_agent.skill_ids update.expected.desired_agent.skill_ids
    && is_empty current.execution_ref
    && current.context_snapshot_id == ""
    && current.updated_at == update.expected_updated_at
    && is_zero current.started_at
    && is_zero current.completed_at

-- `if !ref.Empty() { item.ExecutionRef = ref }`
unfoldable pub attach_execution : ExecutionRef → Assignment → Assignment
attach_execution ref item = if is_empty ref then item else record item { execution_ref = ref }

-- `if snapshot != "" { item.ContextSnapshotID = snapshot }`
unfoldable pub attach_snapshot : String → Assignment → Assignment
attach_snapshot snapshot item =
    if snapshot == "" then item else record item { context_snapshot_id = snapshot }

-- The reset that release and recovery make, up to the stamp.
unfoldable pub requeue : Assignment → Assignment
requeue item = record item {
  status = queued;
  claimed_by = "";
  claim = none;
  execution_ref = no_execution;
  context_snapshot_id = "";
  started_at = 0;
  completed_at = 0;
}

-- `if previousStatus == AssignmentClaimed { clearAssignmentClaimReservation(&item) }`
unfoldable pub retire_reservation : AssignmentStatus → Assignment → Assignment
retire_reservation previous item =
    if previous == claimed then clear_claim_reservation item else item

-- `if item.StartedAt.IsZero() { item.StartedAt = stamp }`
unfoldable pub mark_started : Time → Assignment → Assignment
mark_started stamp item =
    if is_zero item.started_at then record item { started_at = stamp } else item

-- The start that completion records, except for queued work that is cancelled.
unfoldable pub mark_started_on_completion :
    AssignmentStatus → AssignmentStatus → Time → Assignment → Assignment
mark_started_on_completion previous status stamp item =
    if is_zero item.started_at && not (previous == queued && status == cancelled)
    then record item { started_at = stamp }
    else item

-- `if isTerminalAssignmentStatus(status) && item.CompletedAt.IsZero() { … }`
unfoldable pub mark_completed : AssignmentStatus → Time → Assignment → Assignment
mark_completed status stamp item =
    if is_terminal status && is_zero item.completed_at
    then record item { completed_at = stamp }
    else item

-- ===== src/Service/Claims.antt =====
-- The lifecycle of an assignment in internal/core/service.go: a worker's requests, which present a
-- claim id, and the embedding host's, which do not.
use cairnline.Base.{
  String, Result, invalid, reject, ◌&&◌, if◌then◌else◌, ◌==◌, string_eq, nat_eq, ◌>>◌,
}
use cairnline.Base.Trim.{trim_space}
use cairnline.Lifecycle.Status.{validate_progress_status, validate_completion_status}
use cairnline.Model.Assignment.{
  AssignmentStatus, completed, other, trimmed_status, status_eq, ExecutionRef, is_empty,
  AssignmentClaimLease, Assignment, AssignmentPreparation,
}
use cairnline.MemoryStore.Assignments
use cairnline.MemoryStore.State.{Store}
use cairnline.Service.Env.{Env}
use cairnline.Service.Normalize.{require_text, normalize_execution_ref}

-- The ids of a lifecycle request, with the name of the assignment's holder or its claim.
abbrev pub require_ids : String → String → Result (Unit {0})
require_ids project_id id = do
  require_text (trim_space project_id) "project_id is required"
  require_text (trim_space id) "assignment_id is required"

-- `if status == "" { status = AssignmentCompleted }` after a trim
abbrev pub completed_or : AssignmentStatus → AssignmentStatus
completed_or status =
    let trimmed = trimmed_status status in if trimmed == other "" then completed else trimmed

-- `AssignmentClaimLease{ID: claimID}`
abbrev pub new_lease : String → AssignmentClaimLease
new_lease id = record { id = id; acquired_at = 0; expires_at = 0 }

-- A preparation with its references trimmed.
unfoldable pub trimmed_preparation : String → String → AssignmentPreparation → AssignmentPreparation
unfolding normalize_execution_ref
trimmed_preparation claim_id claimed_by q = record {
  claim_id = claim_id;
  claimed_by = claimed_by;
  execution_ref = normalize_execution_ref q.execution_ref;
  context_snapshot_id = trim_space q.context_snapshot_id;
}

-- A preparation must bring something.
unfoldable pub require_references : AssignmentPreparation → Result (Unit {0})
unfolding is_empty
require_references q =
    reject (is_empty q.execution_ref && q.context_snapshot_id == "")
      (invalid "execution_ref or context_snapshot_id is required")

module _ (env : Env) where
  unfoldable pub claim_assignment_with_lease :
      Store → String → String → String → Result (Assignment × Store)
  claim_assignment_with_lease s project_id id claimed_by = do
    require_ids project_id id
    require_text (trim_space claimed_by) "claimed_by is required"
    Assignments.claim_assignment_with_lease s (trim_space project_id) (trim_space id)
        (trim_space claimed_by) (new_lease env.claim_id) env.lease_ttl env.now

  unfoldable pub renew_assignment_claim :
      Store → String → String → String → Result (Assignment × Store)
  renew_assignment_claim s project_id id claim_id = do
    require_ids project_id id
    require_text (trim_space claim_id) "claim_id is required"
    Assignments.renew_assignment_claim s (trim_space project_id) (trim_space id)
        (trim_space claim_id) env.lease_ttl env.now

  unfoldable pub recover_assignment_claim :
      Store → String → String → String → Result (Assignment × Store)
  recover_assignment_claim s project_id id expected_claim_id = do
    require_ids project_id id
    require_text (trim_space expected_claim_id) "expected_claim_id is required"
    Assignments.recover_assignment_claim s (trim_space project_id) (trim_space id)
        (trim_space expected_claim_id) env.now

  unfoldable pub prepare_assignment_with_claim :
      Store → String → String → AssignmentPreparation → Result (Assignment × Store)
  unfolding trimmed_preparation require_references
  prepare_assignment_with_claim s project_id id preparation =
      let trimmed = trimmed_preparation (trim_space preparation.claim_id) "" preparation in
      do
        require_ids project_id id
        require_text trimmed.claim_id "claim_id is required"
        require_references trimmed
        Assignments.prepare_assignment_with_claim s (trim_space project_id) (trim_space id) trimmed
            env.now

  unfoldable pub release_assignment_with_claim :
      Store → String → String → String → Result (Assignment × Store)
  release_assignment_with_claim s project_id id claim_id = do
    require_ids project_id id
    require_text (trim_space claim_id) "claim_id is required"
    Assignments.release_assignment_with_claim s (trim_space project_id) (trim_space id)
        (trim_space claim_id) env.now

  unfoldable pub update_assignment_status_with_claim :
      Store
      → String
      → String
      → AssignmentStatus
      → ExecutionRef
      → String
      → Result (Assignment × Store)
  unfolding validate_progress_status trimmed_status normalize_execution_ref
  update_assignment_status_with_claim s project_id id status ref claim_id = do
    require_ids project_id id
    require_text (trim_space claim_id) "claim_id is required"
    validate_progress_status (trimmed_status status)
    Assignments.update_assignment_status_with_claim s (trim_space project_id) (trim_space id)
        (trimmed_status status) (normalize_execution_ref ref) (trim_space claim_id) env.now

  unfoldable pub complete_assignment_with_claim :
      Store
      → String
      → String
      → AssignmentStatus
      → ExecutionRef
      → String
      → Result (Assignment × Store)
  unfolding validate_completion_status trimmed_status normalize_execution_ref
  complete_assignment_with_claim s project_id id status ref claim_id = do
    require_ids project_id id
    require_text (trim_space claim_id) "claim_id is required"
    validate_completion_status (completed_or status)
    Assignments.complete_assignment_with_claim s (trim_space project_id) (trim_space id)
        (completed_or status) (normalize_execution_ref ref) (trim_space claim_id) env.now

  unfoldable pub claim_assignment : Store → String → String → String → Result (Assignment × Store)
  claim_assignment s project_id id claimed_by = do
    require_ids project_id id
    require_text (trim_space claimed_by) "claimed_by is required"
    Assignments.claim_assignment s (trim_space project_id) (trim_space id) (trim_space claimed_by)
        env.now

  unfoldable pub prepare_assignment :
      Store → String → String → AssignmentPreparation → Result (Assignment × Store)
  unfolding trimmed_preparation require_references
  prepare_assignment s project_id id preparation =
      let trimmed = trimmed_preparation "" (trim_space preparation.claimed_by) preparation in
      do
        require_ids project_id id
        require_text trimmed.claimed_by "claimed_by is required"
        require_references trimmed
        Assignments.prepare_assignment s (trim_space project_id) (trim_space id) trimmed env.now

  unfoldable pub release_assignment : Store → String → String → String → Result (Assignment × Store)
  release_assignment s project_id id claimed_by = do
    require_ids project_id id
    require_text (trim_space claimed_by) "claimed_by is required"
    Assignments.release_assignment s (trim_space project_id) (trim_space id) (trim_space claimed_by)
        env.now

  unfoldable pub update_assignment_status :
      Store → String → String → AssignmentStatus → ExecutionRef → Result (Assignment × Store)
  unfolding validate_progress_status trimmed_status normalize_execution_ref
  update_assignment_status s project_id id status ref = do
    require_ids project_id id
    validate_progress_status (trimmed_status status)
    Assignments.update_assignment_status s (trim_space project_id) (trim_space id)
        (trimmed_status status) (normalize_execution_ref ref) env.now

  unfoldable pub complete_assignment :
      Store → String → String → AssignmentStatus → ExecutionRef → Result (Assignment × Store)
  unfolding validate_completion_status trimmed_status normalize_execution_ref
  complete_assignment s project_id id status ref = do
    require_ids project_id id
    validate_completion_status (completed_or status)
    Assignments.complete_assignment s (trim_space project_id) (trim_space id) (completed_or status)
        (normalize_execution_ref ref) env.now

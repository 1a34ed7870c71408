-- ===== src/MemoryStore/Assignments.antt =====
-- Assignments: each method finds the assignment, applies its step of the lifecycle and writes the
-- result back.
use cairnline.Base.{
  String, ◌||◌, Result, ok, require, require_absent, or_fail, not_found, invalid, reject, ◌>>=◌,
  ◌>>◌, ◌==◌, string_eq, nat_eq,
}
use cairnline.Base.Nested
use cairnline.Model.Clock.{Time, Duration}
use cairnline.Model.Assignment.{
  AssignmentStatus, AssignmentClaimLease, Assignment, ExecutionRef, AssignmentPreparation,
  QueuedAssignmentUpdate,
}
use cairnline.Lifecycle.Status.{validate_progress_status, validate_completion_status}
use cairnline.Lifecycle.Validate.{validate_assignment_claim_state}
use cairnline.Lifecycle.Fenced.{
  claim_with_lease, renew_claim, recover_claim, prepare_with_claim, release_with_claim,
  update_status_with_claim, complete_with_claim,
}
use cairnline.Lifecycle.Host.{
  claim_unfenced, prepare_unfenced, release_unfenced, complete_unfenced, update_status_unfenced,
  update_queued,
}
use cairnline.MemoryStore.State.{Store, require_project, require_ref}

-- The two look-ups that open every method on an existing assignment.
unfoldable pub locate : Store → String → String → Result Assignment
locate s p id = do require_project s p; or_fail (Nested.get p id s.assignments) not_found

-- `s.assignments[p][id] = assignment`
abbrev pub store_assignment : String → String → Assignment → Store → Store
store_assignment p id a s = record s { assignments = Nested.put p id a s.assignments }

unfoldable pub on_assignment :
    (Assignment → Result Assignment) → Store → String → String → Result (Assignment × Store)
on_assignment step s p id = do
  item ← locate s p id
  changed ← step item
  ok (changed, store_assignment p id changed s)

unfoldable pub get_assignment : Store → String → String → Result Assignment
get_assignment s p id = locate s p id

unfoldable pub create_assignment : Store → Assignment → Result (Assignment × Store)
create_assignment s a = do
  validate_assignment_claim_state a
  require_project s a.project_id
  require (Nested.get a.project_id a.work_item_id s.work_items)
  require_ref a.role_id (Nested.get a.project_id a.role_id s.roles)
  require_absent (Nested.get a.project_id a.id s.assignments)
  ok (a, store_assignment a.project_id a.id a s)

unfoldable pub restore_assignment_snapshot : Store → Assignment → Result (Assignment × Store)
restore_assignment_snapshot s a = do
  validate_assignment_claim_state a
  require_project s a.project_id
  require (Nested.get a.project_id a.work_item_id s.work_items)
  require (Nested.get a.project_id a.role_id s.roles)
  require (Nested.get a.project_id a.id s.assignments)
  ok (a, store_assignment a.project_id a.id a s)

unfoldable pub update_queued_assignment :
    Store → String → String → QueuedAssignmentUpdate → Time → Result (Assignment × Store)
update_queued_assignment s p id update now = do
  require_project s p
  require (Nested.get p update.replacement.work_item_id s.work_items)
  require (Nested.get p update.replacement.role_id s.roles)
  on_assignment (update_queued update now) s p id

unfoldable pub claim_assignment_with_lease :
    Store
    → String
    → String
    → String
    → AssignmentClaimLease
    → Duration
    → Time
    → Result (Assignment × Store)
claim_assignment_with_lease s p id claimed_by lease ttl now = do
  reject (lease.id == "" || ttl == 0) (invalid "")
  on_assignment (claim_with_lease claimed_by lease ttl now) s p id

unfoldable pub renew_assignment_claim :
    Store → String → String → String → Duration → Time → Result (Assignment × Store)
renew_assignment_claim s p id claim_id ttl now = do
  reject (ttl == 0) (invalid "")
  on_assignment (renew_claim claim_id ttl now) s p id

unfoldable pub recover_assignment_claim :
    Store → String → String → String → Time → Result (Assignment × Store)
recover_assignment_claim s p id expected now = on_assignment (recover_claim expected now) s p id

unfoldable pub prepare_assignment_with_claim :
    Store → String → String → AssignmentPreparation → Time → Result (Assignment × Store)
prepare_assignment_with_claim s p id preparation now =
    on_assignment (prepare_with_claim preparation now) s p id

unfoldable pub release_assignment_with_claim :
    Store → String → String → String → Time → Result (Assignment × Store)
release_assignment_with_claim s p id claim_id now =
    on_assignment (release_with_claim claim_id now) s p id

unfoldable pub update_assignment_status_with_claim :
    Store
    → String
    → String
    → AssignmentStatus
    → ExecutionRef
    → String
    → Time
    → Result (Assignment × Store)
update_assignment_status_with_claim s p id status ref claim_id now = do
  validate_progress_status status
  on_assignment (update_status_with_claim status ref claim_id now) s p id

unfoldable pub complete_assignment_with_claim :
    Store
    → String
    → String
    → AssignmentStatus
    → ExecutionRef
    → String
    → Time
    → Result (Assignment × Store)
complete_assignment_with_claim s p id status ref claim_id now = do
  validate_completion_status status
  on_assignment (complete_with_claim status ref claim_id now) s p id

unfoldable pub claim_assignment :
    Store → String → String → String → Time → Result (Assignment × Store)
claim_assignment s p id claimed_by now = on_assignment (claim_unfenced claimed_by now) s p id

unfoldable pub prepare_assignment :
    Store → String → String → AssignmentPreparation → Time → Result (Assignment × Store)
prepare_assignment s p id preparation now = on_assignment (prepare_unfenced preparation now) s p id

unfoldable pub release_assignment :
    Store → String → String → String → Time → Result (Assignment × Store)
release_assignment s p id claimed_by now = on_assignment (release_unfenced claimed_by now) s p id

unfoldable pub complete_assignment :
    Store → String → String → AssignmentStatus → ExecutionRef → Time → Result (Assignment × Store)
complete_assignment s p id status ref now = do
  validate_completion_status status
  on_assignment (complete_unfenced status ref now) s p id

unfoldable pub update_assignment_status :
    Store → String → String → AssignmentStatus → ExecutionRef → Time → Result (Assignment × Store)
update_assignment_status s p id status ref now = do
  validate_progress_status status
  on_assignment (update_status_unfenced status ref now) s p id

-- The assignment, with its artifacts and its reviews.
unfoldable pub without_assignment : String → String → Store → Store
without_assignment p id s = record s {
  assignments = Nested.delete p id s.assignments;
  artifacts = Nested.delete_where p (λ a. a.assignment_id == id) s.artifacts;
  reviews = Nested.delete_where p (λ r. r.assignment_id == id) s.reviews;
}

unfoldable pub delete_assignment : Store → String → String → Result Store
delete_assignment s p id = do
  require_project s p
  require (Nested.get p id s.assignments)
  ok (without_assignment p id s)

-- ===== src/Lifecycle/Refines.antt =====
-- A portable worker's method against the host's method of the same name.
use cairnline.Base.{
  ◌≡◌, ◌≢◌, String, Bool, true, false, Result, ok, ◌>>◌, arith, sym, ◌∙◌, reject, StoreError,
}
use cairnline.Model.Clock.{Time}
use cairnline.Model.Assignment.{AssignmentStatus, queued, Assignment, ExecutionRef}
use cairnline.Lifecycle.Stamp.{
  transition_time_at, claim_allows_mutation, mark_started, attach_execution, retire_reservation,
  clear_claim_reservation,
}
use cairnline.Lifecycle.Fenced.{advanced, update_status_with_claim, complete_with_claim}
use cairnline.Lifecycle.Host.{advanced_at, complete_unfenced, update_status_unfenced}

-- What stands behind a guard that let the call through.
pub reject-eq-ok :
    {A : Type 0} (test : Bool) (rest : Result A) {b : A} (e : StoreError)
    → (do reject test e; rest) ≡ ok b
    → (test ≡ false) × (rest ≡ ok b)
reject-eq-ok test rest e h = ground arith

-- Where work is not queued and the fence lets a worker's completion through, it gives what the
-- host's method gives.
pub complete-refines :
    (s : AssignmentStatus) (r : ExecutionRef) (c : String) (now : Time) (a : Assignment)
    → a.status ≢ queued
    → claim_allows_mutation a c now ≡ true
    → complete_with_claim s r c now a ≡ complete_unfenced s r now a
unfolding complete_with_claim complete_unfenced
complete-refines s r c now a q h = ground arith

-- A stamp that is taken once more of the edited assignment is the same stamp.
pub advanced-advanced_at :
    (s : AssignmentStatus) (r : ExecutionRef) (now : Time) (a : Assignment)
    → advanced s r now a ≡ advanced_at s r (transition_time_at a now) a
unfolding advanced advanced_at transition_time_at retire_reservation attach_execution mark_started
    clear_claim_reservation
advanced-advanced_at s r now a = ground arith

-- Where the fence lets a worker's progress report through, it gives what the host's method gives.
pub update_status-refines :
    (s : AssignmentStatus) (r : ExecutionRef) (c : String) (now : Time) (a : Assignment)
    → claim_allows_mutation a c now ≡ true
    → update_status_with_claim s r c now a ≡ update_status_unfenced s r now a
unfolding update_status_with_claim update_status_unfenced
update_status-refines s r c now a h = rw (advanced-advanced_at s r now a) (ground arith)

-- So a fenced success is a host success.
pub update_status_unfenced-update_status_with_claim :
    (s : AssignmentStatus) (r : ExecutionRef) (c : String) (now : Time) (a b : Assignment)
    → update_status_with_claim s r c now a ≡ ok b
    → update_status_unfenced s r now a ≡ ok b
unfolding update_status_with_claim
update_status_unfenced-update_status_with_claim s r c now a b h =
    let passed : claim_allows_mutation a c now ≡ true = ground arith in
    sym (update_status-refines s r c now a passed) ∙ h

pub complete_unfenced-complete_with_claim :
    (s : AssignmentStatus) (r : ExecutionRef) (c : String) (now : Time) (a b : Assignment)
    → complete_with_claim s r c now a ≡ ok b
    → complete_unfenced s r now a ≡ ok b
unfolding complete_with_claim
complete_unfenced-complete_with_claim s r c now a b h =
    let passed : claim_allows_mutation a c now ≡ true = ground arith in
    let begun : a.status ≢ queued = ground arith in
    sym (complete-refines s r c now a begun passed) ∙ h

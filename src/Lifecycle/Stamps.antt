-- ===== src/Lifecycle/Stamps.antt =====
-- Which stamps an assignment has in which status, under the commands.
use cairnline.Base.{◌≤◌, ◌<◌, ◌≡◌, true, ok, arith}
use cairnline.Model.Clock.{Time}
use cairnline.Model.Assignment.{
  AssignmentStatus, queued, claimed, completed, failed, cancelled, other, Assignment, ExecutionRef,
  AssignmentPreparation,
}
use cairnline.Lifecycle.Status.{
  is_progress, is_completion, validate_progress_status, validate_completion_status,
}
use cairnline.Lifecycle.Stamp.{
  transition_time_at, mark_started, mark_started_on_completion, mark_completed, attach_execution,
  attach_snapshot, retire_reservation, requeue, clear_claim_reservation,
}
use cairnline.Lifecycle.Fenced.{
  claim_with_lease, renew_claim, recover_claim, prepare_with_claim, release_with_claim, finished,
}
use cairnline.Lifecycle.Host.{
  claim_unfenced, prepare_unfenced, release_unfenced, complete_unfenced, update_status_unfenced,
  update_queued, edited, advanced_at,
}
use cairnline.Lifecycle.Commands.{
  renew, prepare, release, update_status, complete, Command, claim_lease, fenced, recover,
  host_claim, host_release, host_prepare, host_update_status, host_complete, edit_queued, check,
  change, change_fenced,
}
use cairnline.Lifecycle.Refines.{
  update_status_unfenced-update_status_with_claim, complete_unfenced-complete_with_claim,
}
use cairnline.Lifecycle.Monotone.{transition_time_at-gt}

abbrev pub StampsFit : AssignmentStatus → Time → Time → Type 0
StampsFit queued started ended = (started ≡ 0) × (ended ≡ 0)
StampsFit claimed started ended = (started ≡ 0) × (ended ≡ 0)
StampsFit completed started ended = (0 < started) × (0 < ended)
StampsFit failed started ended = (0 < started) × (0 < ended)
StampsFit cancelled started ended = 0 < ended
StampsFit (other s) started ended = ⊥
StampsFit _ started ended = (0 < started) × (ended ≡ 0)

-- Work that waits has neither start nor end, work under way has a start, finished work has an end
-- and, unless it was cancelled, a start; neither stamp is later than the last update.
pub record IsTimely (a : Assignment) : Type 0 where
  pub fits : StampsFit a.status a.started_at a.completed_at
  pub started : a.started_at ≤ a.updated_at
  pub ended : a.completed_at ≤ a.updated_at

advance-IsTimely :
    (s : AssignmentStatus) (r : ExecutionRef) (now : Time) (a b : Assignment)
    → is_progress s ≡ true
    → update_status_unfenced s r now a ≡ ok b
    → IsTimely a
    → IsTimely b
unfolding update_status_unfenced advanced_at mark_started attach_execution retire_reservation
    clear_claim_reservation
advance-IsTimely s r now a b p h v = ground (arith, transition_time_at-gt a now)

finish-IsTimely :
    (s : AssignmentStatus) (r : ExecutionRef) (now : Time) (a b : Assignment)
    → is_completion s ≡ true
    → complete_unfenced s r now a ≡ ok b
    → IsTimely a
    → IsTimely b
unfolding complete_unfenced finished mark_started_on_completion mark_completed attach_execution
    retire_reservation clear_claim_reservation
finish-IsTimely s r now a b p h v = ground (arith, transition_time_at-gt a now)

edits-IsTimely :
    (p : AssignmentPreparation) (now : Time) (a b : Assignment)
    → (let ready = attach_snapshot p.context_snapshot_id (attach_execution p.execution_ref a) in
        record ready { updated_at = transition_time_at ready now })
      ≡ b
    → IsTimely a
    → IsTimely b
unfolding attach_snapshot attach_execution
edits-IsTimely p now a b e v = ground (
  arith,
  transition_time_at-gt (attach_snapshot p.context_snapshot_id (attach_execution p.execution_ref a))
      now,
)

progress_lem : (s : AssignmentStatus) → validate_progress_status s ≡ ok tt → is_progress s ≡ true
unfolding validate_progress_status
progress_lem s h = ground arith

completion_lem :
    (s : AssignmentStatus) → validate_completion_status s ≡ ok tt → is_completion s ≡ true
unfolding validate_completion_status
completion_lem s h = ground arith

-- Every command that passes its own check and succeeds keeps a timely assignment timely.
pub change-IsTimely :
    (c : Command) (now : Time) (a b : Assignment)
    → check c ≡ ok tt
    → change c now a ≡ ok b
    → IsTimely a
    → IsTimely b
unfolding check change change_fenced claim_with_lease renew_claim recover_claim prepare_with_claim
    release_with_claim claim_unfenced prepare_unfenced release_unfenced update_queued requeue
change-IsTimely (claim_lease by l ttl) now a b k h v = ground (arith, transition_time_at-gt a now)
change-IsTimely (fenced c (renew ttl)) now a b k h v = ground arith
change-IsTimely (fenced c (prepare p)) now a b k h v = ground (arith, edits-IsTimely p now a b)
change-IsTimely (fenced c release) now a b k h v = ground arith
change-IsTimely (fenced c (update_status s r)) now a b k h v =
    advance-IsTimely s r now a b (progress_lem s k)
      (update_status_unfenced-update_status_with_claim s r c now a b h) v
change-IsTimely (fenced c (complete s r)) now a b k h v =
    finish-IsTimely s r now a b (completion_lem s k)
      (complete_unfenced-complete_with_claim s r c now a b h) v
change-IsTimely (recover c) now a b k h v = ground arith
change-IsTimely (host_claim by) now a b k h v = ground (arith, transition_time_at-gt a now)
change-IsTimely (host_release by) now a b k h v = ground arith
change-IsTimely (host_prepare p) now a b k h v = ground (arith, edits-IsTimely p now a b)
change-IsTimely (host_update_status s r) now a b k h v =
    advance-IsTimely s r now a b (progress_lem s k) h v
change-IsTimely (host_complete s r) now a b k h v =
    finish-IsTimely s r now a b (completion_lem s k) h v
change-IsTimely (edit_queued u) now a b k h v =
    ground (arith, transition_time_at-gt (edited u a) now)

-- ===== src/Lifecycle/Identity.antt =====
-- The ids of an assignment under the commands.
use cairnline.Base.{String, ◌≡◌, ok, arith}
use cairnline.Model.Clock.{Time}
use cairnline.Model.Assignment.{Assignment, AssignmentStatus, ExecutionRef}
use cairnline.Lifecycle.Stamp.{
  attach_execution, attach_snapshot, requeue, retire_reservation, clear_claim_reservation,
  mark_started, mark_started_on_completion, mark_completed,
}
use cairnline.Lifecycle.Fenced.{
  claim_with_lease, renew_claim, recover_claim, prepare_with_claim, release_with_claim, finished,
}
use cairnline.Lifecycle.Host.{
  claim_unfenced, prepare_unfenced, release_unfenced, complete_unfenced, update_status_unfenced,
  advanced_at, update_queued,
}
use cairnline.Lifecycle.Commands.{
  renew, update_status, complete, Command, fenced, host_update_status, host_complete, edit_queued,
  change, change_fenced,
}
use cairnline.Lifecycle.Refines.{
  update_status_unfenced-update_status_with_claim, complete_unfenced-complete_with_claim,
}

-- The work item that a command leaves an assignment with.
abbrev pub work_item_after : Command → Assignment → String
work_item_after (edit_queued u) a = u.replacement.work_item_id
work_item_after _ a = a.work_item_id

pub record SameIdentity (a b : Assignment) (work_item : String) : Type 0 where
  pub id : b.id ≡ a.id
  pub project_id : b.project_id ≡ a.project_id
  pub created_at : b.created_at ≡ a.created_at
  pub work_item_id : b.work_item_id ≡ work_item

advance-SameIdentity :
    (s : AssignmentStatus) (r : ExecutionRef) (now : Time) (a b : Assignment)
    → update_status_unfenced s r now a ≡ ok b
    → SameIdentity a b a.work_item_id
unfolding update_status_unfenced advanced_at mark_started attach_execution retire_reservation
    clear_claim_reservation
advance-SameIdentity s r now a b h = ground arith

finish-SameIdentity :
    (s : AssignmentStatus) (r : ExecutionRef) (now : Time) (a b : Assignment)
    → complete_unfenced s r now a ≡ ok b
    → SameIdentity a b a.work_item_id
unfolding complete_unfenced finished mark_started_on_completion mark_completed attach_execution
    retire_reservation clear_claim_reservation
finish-SameIdentity s r now a b h = ground arith

-- A command that succeeds keeps the id, the project and the time of creation, and the work item
-- too unless it is an edit of queued work, which leaves the one that it names.
pub change-SameIdentity :
    (c : Command) (now : Time) (a b : Assignment)
    → change c now a ≡ ok b
    → SameIdentity a b (work_item_after c a)
unfolding change change_fenced claim_with_lease renew_claim recover_claim prepare_with_claim
    release_with_claim claim_unfenced prepare_unfenced release_unfenced update_queued requeue
    attach_execution attach_snapshot
change-SameIdentity (fenced c (renew ttl)) now a b h = ground arith
change-SameIdentity (fenced c (update_status s r)) now a b h =
    advance-SameIdentity s r now a b
      (update_status_unfenced-update_status_with_claim s r c now a b h)
change-SameIdentity (fenced c (complete s r)) now a b h =
    finish-SameIdentity s r now a b (complete_unfenced-complete_with_claim s r c now a b h)
change-SameIdentity (fenced c m) now a b h = ground arith
change-SameIdentity (host_update_status s r) now a b h = advance-SameIdentity s r now a b h
change-SameIdentity (host_complete s r) now a b h = finish-SameIdentity s r now a b h
change-SameIdentity c now a b h = ground arith

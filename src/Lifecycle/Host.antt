-- ===== src/Lifecycle/Host.antt =====
-- The methods of an embedding host, which pass by the fence (internal/core/memory_store.go).
use cairnline.Base.{String, not, ◌||◌, none, Result, ok, conflict, reject, ◌>>◌, ◌==◌, string_eq}
use cairnline.Model.Clock.{Time}
use cairnline.Model.Assignment.{
  AssignmentStatus, queued, claimed, Assignment, ExecutionRef, AssignmentPreparation,
  QueuedAssignmentUpdate, status_eq,
}
use cairnline.Lifecycle.Status.{is_terminal}
use cairnline.Lifecycle.Stamp.{
  transition_time_at, attach_execution, attach_snapshot, requeue, retire_reservation, mark_started,
  queued_snapshot_matches,
}
use cairnline.Lifecycle.Fenced.{checked, finished}

unfoldable pub claim_unfenced : String → Time → Assignment → Result Assignment
claim_unfenced claimed_by now item = do
  reject (not (item.status == queued)) conflict
  let stamp = transition_time_at item now
  ok (record item { status = claimed; claimed_by = claimed_by; claim = none; updated_at = stamp })

unfoldable pub prepare_unfenced : AssignmentPreparation → Time → Assignment → Result Assignment
prepare_unfenced p now item = do
  reject (not (item.status == claimed) || not (item.claimed_by == p.claimed_by)) conflict
  let ready = attach_snapshot p.context_snapshot_id (attach_execution p.execution_ref item)
  ok (record ready { updated_at = transition_time_at ready now })

unfoldable pub release_unfenced : String → Time → Assignment → Result Assignment
release_unfenced claimed_by now item = do
  reject (not (item.status == claimed) || not (item.claimed_by == claimed_by)) conflict
  let stamp = transition_time_at item now
  ok (record (requeue item) { updated_at = stamp })

unfoldable pub complete_unfenced :
    AssignmentStatus → ExecutionRef → Time → Assignment → Result Assignment
complete_unfenced status ref now item = do
  reject (is_terminal item.status) conflict
  checked (finished status ref (transition_time_at item now) item)

-- The edits of a progress report, all with one stamp.
unfoldable pub advanced_at : AssignmentStatus → ExecutionRef → Time → Assignment → Assignment
advanced_at status ref stamp item =
    let started = mark_started stamp (record item { status = status }) in
    let retired = retire_reservation item.status (attach_execution ref started) in
    record retired { updated_at = stamp }

unfoldable pub update_status_unfenced :
    AssignmentStatus → ExecutionRef → Time → Assignment → Result Assignment
update_status_unfenced status ref now item = do
  reject (item.status == queued || is_terminal item.status) conflict
  checked (advanced_at status ref (transition_time_at item now) item)

abbrev pub edited : QueuedAssignmentUpdate → Assignment → Assignment
edited update current = record current {
  work_item_id = update.replacement.work_item_id;
  role_id = update.replacement.role_id;
  root_id = update.replacement.root_id;
  execution_mode = update.replacement.execution_mode;
  desired_agent = update.replacement.desired_agent;
}

-- A compare-and-swap on the coordination fields of queued work.
unfoldable pub update_queued : QueuedAssignmentUpdate → Time → Assignment → Result Assignment
update_queued update now current = do
  reject (not (queued_snapshot_matches current update)) conflict
  ok (record (edited update current) {
    updated_at = transition_time_at (edited update current) now;
  })

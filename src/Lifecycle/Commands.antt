-- ===== src/Lifecycle/Commands.antt =====
-- One type for the assignment methods, so that a history is a list of commands.
use cairnline.Base.{
  String, ◌||◌, List, [], ◌∷◌, Result, ok, err, invalid, reject, ◌>>◌, ◌==◌, string_eq, nat_eq,
}
use cairnline.Model.Clock.{Time, Duration}
use cairnline.Model.Assignment.{
  AssignmentStatus, AssignmentClaimLease, Assignment, ExecutionRef, AssignmentPreparation,
  QueuedAssignmentUpdate,
}
use cairnline.Lifecycle.Status.{validate_progress_status, validate_completion_status}
use cairnline.Lifecycle.Fenced.{
  claim_with_lease, renew_claim, recover_claim, prepare_with_claim, release_with_claim,
  update_status_with_claim, complete_with_claim,
}
use cairnline.Lifecycle.Host.{
  claim_unfenced, prepare_unfenced, release_unfenced, complete_unfenced, update_status_unfenced,
  update_queued,
}

-- A portable worker's commands, each with the claim id that it presents.
pub data Fenced : Type 0 where
  renew : Duration → Fenced
  prepare : AssignmentPreparation → Fenced
  release : Fenced
  update_status complete : AssignmentStatus → ExecutionRef → Fenced

pub data Command : Type 0 where
  claim_lease : String → AssignmentClaimLease → Duration → Command
  fenced : String → Fenced → Command
  recover : String → Command
  host_claim host_release : String → Command
  host_prepare : AssignmentPreparation → Command
  host_update_status host_complete : AssignmentStatus → ExecutionRef → Command
  edit_queued : QueuedAssignmentUpdate → Command

-- What a method checks before it looks for the assignment.
unfoldable pub check : Command → Result (Unit {0})
unfolding validate_progress_status validate_completion_status
check (claim_lease by lease ttl) = reject (lease.id == "" || ttl == 0) (invalid "")
check (fenced c (renew ttl)) = reject (ttl == 0) (invalid "")
check (fenced c (update_status status ref)) = validate_progress_status status
check (fenced c (complete status ref)) = validate_completion_status status
check (host_update_status status ref) = validate_progress_status status
check (host_complete status ref) = validate_completion_status status
check _ = ok tt

unfoldable pub change_fenced : String → Fenced → Time → Assignment → Result Assignment
change_fenced c (renew ttl) = renew_claim c ttl
change_fenced c (prepare p) = prepare_with_claim (record p { claim_id = c })
change_fenced c release = release_with_claim c
change_fenced c (update_status status ref) = update_status_with_claim status ref c
change_fenced c (complete status ref) = complete_with_claim status ref c

unfoldable pub change : Command → Time → Assignment → Result Assignment
change (claim_lease by lease ttl) = claim_with_lease by lease ttl
change (fenced c m) = change_fenced c m
change (recover expected) = recover_claim expected
change (host_claim by) = claim_unfenced by
change (host_release by) = release_unfenced by
change (host_prepare p) = prepare_unfenced p
change (host_update_status status ref) = update_status_unfenced status ref
change (host_complete status ref) = complete_unfenced status ref
change (edit_queued update) = update_queued update

unfoldable pub attempt : Command → Time → Assignment → Result Assignment
attempt c now item = do check c; change c now item

abbrev pub after : Assignment → Result Assignment → Assignment
after item (ok changed) = changed
after item (err e) = item

-- A history of commands, each at a reading of the clock; a refused one changes nothing.
unfoldable pub run : List (Time × Command) → Assignment → Assignment
run [] item = item
run ((now, c) ∷ rest) item = run rest (after item (attempt c now item))

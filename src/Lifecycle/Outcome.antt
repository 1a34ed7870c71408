-- ===== src/Lifecycle/Outcome.antt =====
-- Where the commands lead: the moves of the lifecycle, and its end.
use cairnline.Base.{◌≡◌, ◌≢◌, true, false, List, ok, arith, string_eq}
use cairnline.Model.Clock.{Time}
use cairnline.Model.Assignment.{AssignmentStatus, queued, claimed, Assignment, ExecutionRef}
use cairnline.Lifecycle.Status.{
  is_terminal, is_progress, is_completion, validate_progress_status, validate_completion_status,
}
use cairnline.Lifecycle.Stamp.{
  requeue, attach_execution, attach_snapshot, retire_reservation, clear_claim_reservation,
  mark_started, mark_started_on_completion, mark_completed, queued_snapshot_matches,
}
use cairnline.Lifecycle.Fenced.{
  claim_with_lease, renew_claim, recover_claim, prepare_with_claim, release_with_claim,
  update_status_with_claim, complete_with_claim, finished,
}
use cairnline.Lifecycle.Host.{
  claim_unfenced, prepare_unfenced, release_unfenced, complete_unfenced, update_status_unfenced,
  update_queued, advanced_at,
}
use cairnline.Lifecycle.Commands.{
  renew, prepare, release, update_status, complete, Command, claim_lease, fenced, recover,
  host_claim, host_release, host_prepare, host_update_status, host_complete, edit_queued, check,
  change, change_fenced, run,
}
use cairnline.Lifecycle.History.{Anything, all-Anything, run_refused}
use cairnline.Lifecycle.Refines.{
  update_status_unfenced-update_status_with_claim, complete_unfenced-complete_with_claim,
}

-- The moves of the lifecycle.
pub data Edge : AssignmentStatus → AssignmentStatus → Type 0 where
  stay : {s t : AssignmentStatus} → s ≡ t → is_terminal s ≡ false → Edge s t
  claims : {s t : AssignmentStatus} → s ≡ queued → t ≡ claimed → Edge s t
  requeues : {s t : AssignmentStatus} → s ≡ claimed → t ≡ queued → Edge s t
  advances :
      {s t : AssignmentStatus}
      → s ≢ queued
      → is_terminal s ≡ false
      → is_progress t ≡ true
      → Edge s t
  finishes : {s t : AssignmentStatus} → is_terminal s ≡ false → is_completion t ≡ true → Edge s t

move-Edge :
    (s : AssignmentStatus) (r : ExecutionRef) (now : Time) (a b : Assignment)
    → update_status_unfenced s r now a ≡ ok b
    → is_progress s ≡ true
    → (a.status ≢ queued) × (is_terminal a.status ≡ false) × (is_progress b.status ≡ true)
unfolding update_status_unfenced advanced_at mark_started attach_execution retire_reservation
    clear_claim_reservation
move-Edge s r now a b h p = ground arith

finish-Edge :
    (s : AssignmentStatus) (r : ExecutionRef) (now : Time) (a b : Assignment)
    → complete_unfenced s r now a ≡ ok b
    → is_completion s ≡ true
    → (is_terminal a.status ≡ false) × (is_completion b.status ≡ true)
unfolding complete_unfenced finished mark_started_on_completion mark_completed attach_execution
    retire_reservation clear_claim_reservation
finish-Edge s r now a b h p = ground arith

-- Every command that passes its own check and succeeds makes one of the moves of the lifecycle.
pub change-Edge :
    (c : Command) (now : Time) (a b : Assignment)
    → check c ≡ ok tt
    → change c now a ≡ ok b
    → Edge a.status b.status
unfolding check change change_fenced validate_progress_status validate_completion_status
    claim_with_lease renew_claim recover_claim prepare_with_claim release_with_claim claim_unfenced
    prepare_unfenced release_unfenced update_queued queued_snapshot_matches requeue attach_execution
    attach_snapshot
change-Edge (claim_lease by l ttl) now a b k h = claims (ground arith) (ground arith)
change-Edge (fenced c (renew ttl)) now a b k h = stay (ground arith) (ground arith)
change-Edge (fenced c (prepare p)) now a b k h = stay (ground arith) (ground arith)
change-Edge (fenced c release) now a b k h = requeues (ground arith) (ground arith)
change-Edge (fenced c (update_status s r)) now a b k h =
    let e =
      move-Edge s r now a b (update_status_unfenced-update_status_with_claim s r c now a b h)
        (ground arith) in
    advances e.0 e.1 e.2
change-Edge (fenced c (complete s r)) now a b k h =
    let e =
      finish-Edge s r now a b (complete_unfenced-complete_with_claim s r c now a b h)
        (ground arith) in
    finishes e.0 e.1
change-Edge (host_update_status s r) now a b k h =
    let e = move-Edge s r now a b h (ground arith) in advances e.0 e.1 e.2
change-Edge (host_complete s r) now a b k h =
    let e = finish-Edge s r now a b h (ground arith) in finishes e.0 e.1
change-Edge (recover c) now a b k h = requeues (ground arith) (ground arith)
change-Edge (host_claim by) now a b k h = claims (ground arith) (ground arith)
change-Edge (host_release by) now a b k h = requeues (ground arith) (ground arith)
change-Edge (host_prepare p) now a b k h = stay (ground arith) (ground arith)
change-Edge (edit_queued u) now a b k h = stay (ground arith) (ground arith)

-- Finished work refuses every command.
finished-refuses :
    (m : Command) (now : Time) (a b : Assignment)
    → is_terminal a.status ≡ true
    → change m now a ≡ ok b
    → ⊥
unfolding change change_fenced claim_with_lease renew_claim recover_claim prepare_with_claim
    release_with_claim update_status_with_claim complete_with_claim claim_unfenced prepare_unfenced
    release_unfenced complete_unfenced update_status_unfenced update_queued queued_snapshot_matches
finished-refuses (fenced c (renew ttl)) now a b h e = ground arith
finished-refuses (fenced c m) now a b h e = ground arith
finished-refuses m now a b h e = ground arith

-- Finished work stays as it is: no history of commands, a host's included, changes it.
pub finished_forever :
    (a : Assignment) (cs : List (Time × Command)) → is_terminal a.status ≡ true → run cs a ≡ a
finished_forever a cs h =
    run_refused Anything a (λ m now b _ e. finished-refuses m now a b h e) cs (all-Anything cs)

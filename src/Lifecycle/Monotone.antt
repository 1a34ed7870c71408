-- ===== src/Lifecycle/Monotone.antt =====
-- The revision of an assignment, `updated_at`, under the commands.
use cairnline.Base.{◌≤◌, ◌<◌, ◌≡◌, refl, String, List, [], ◌∷◌, Result, ok, err, >>=-eq-ok, arith}
use cairnline.Model.Clock.{Time}
use cairnline.Model.Assignment.{Assignment, AssignmentStatus, ExecutionRef}
use cairnline.Lifecycle.Stamp.{transition_time_at, attach_execution, attach_snapshot, requeue}
use cairnline.Lifecycle.Fenced.{
  claim_with_lease, renew_claim, recover_claim, prepare_with_claim, release_with_claim,
  update_status_with_claim, complete_with_claim, finished, advanced,
}
use cairnline.Lifecycle.Host.{
  claim_unfenced, prepare_unfenced, release_unfenced, complete_unfenced, update_status_unfenced,
  update_queued, edited, advanced_at,
}
use cairnline.Lifecycle.Refines.{advanced-advanced_at}
use cairnline.Lifecycle.Commands.{
  renew, prepare, release, update_status, Command, fenced, recover, host_prepare, edit_queued,
  change, change_fenced, check, attempt, after, run,
}

pub transition_time_at-gt : (a : Assignment) (now : Time) → a.updated_at < transition_time_at a now
unfolding transition_time_at
transition_time_at-gt a now = ground arith

pub transition_time_at-ge_started :
    (a : Assignment) (now : Time)
    → a.started_at ≤ a.updated_at
    → a.started_at ≤ transition_time_at a now
unfolding transition_time_at
transition_time_at-ge_started a now h = ground arith

abbrev pub Grows : Command → Time → Time → Type 0
Grows (fenced c (renew ttl)) old new = new ≡ old
Grows _ old new = old < new

-- The edits before a stamp leave the revision and the start of the work alone.
pub updated_at-prepared :
    (snapshot : String) (ref : ExecutionRef) (a : Assignment)
    → (attach_snapshot snapshot (attach_execution ref a)).updated_at ≡ a.updated_at
unfolding attach_snapshot attach_execution
updated_at-prepared snapshot ref a = ground arith

updated_at-advanced :
    (s : AssignmentStatus) (r : ExecutionRef) (now : Time) (a : Assignment)
    → a.updated_at < (advanced s r now a).updated_at
updated_at-advanced s r now a =
    rw (advanced-advanced_at s r now a) (unfold advanced_at in transition_time_at-gt a now)

-- Every command that succeeds makes `updated_at` strictly later, whatever its clock says; only a
-- renewal leaves it alone.
pub change-Grows :
    (c : Command) (now : Time) (a b : Assignment)
    → change c now a ≡ ok b
    → Grows c a.updated_at b.updated_at
unfolding change change_fenced claim_with_lease renew_claim recover_claim prepare_with_claim
    release_with_claim update_status_with_claim complete_with_claim claim_unfenced prepare_unfenced
    release_unfenced complete_unfenced update_status_unfenced update_queued requeue finished
    advanced_at
change-Grows (fenced c (renew ttl)) now a b h = ground arith
change-Grows (fenced c (prepare p)) now a b h = ground (
  arith,
  updated_at-prepared p.context_snapshot_id p.execution_ref a,
  transition_time_at-gt (attach_snapshot p.context_snapshot_id (attach_execution p.execution_ref a))
      now,
)
change-Grows (fenced c release) now a b h = ground (arith, transition_time_at-gt (requeue a) now)
change-Grows (fenced c (update_status s r)) now a b h =
    ground (arith, updated_at-advanced s r now a)
change-Grows (recover c) now a b h = ground (arith, transition_time_at-gt (requeue a) now)
change-Grows (host_prepare p) now a b h = ground (
  arith,
  updated_at-prepared p.context_snapshot_id p.execution_ref a,
  transition_time_at-gt (attach_snapshot p.context_snapshot_id (attach_execution p.execution_ref a))
      now,
)
change-Grows (edit_queued u) now a b h = ground (arith, transition_time_at-gt (edited u a) now)
change-Grows c now a b h = ground (arith, transition_time_at-gt a now)

-- What a history of commands ends in is at least as recent as what it began with.
pub run-le : (cs : List (Time × Command)) (a : Assignment) → a.updated_at ≤ (run cs a).updated_at
unfolding run attempt
run-le [] a = omega arith
run-le ((now, c) ∷ cs) a =
    omega (arith, after-le c now a (attempt c now a) refl, run-le cs (after a (attempt c now a)))
  where
    change-le :
        (c : Command) (now : Time) (a b : Assignment)
        → change c now a ≡ ok b
        → a.updated_at ≤ b.updated_at
    change-le (fenced c (renew ttl)) now a b h =
        omega (arith, change-Grows (fenced c (renew ttl)) now a b h)
    change-le (fenced c (prepare p)) now a b h =
        omega (arith, change-Grows (fenced c (prepare p)) now a b h)
    change-le c now a b h = omega (arith, change-Grows c now a b h)

    after-le :
        (c : Command) (now : Time) (a : Assignment) (r : Result Assignment)
        → attempt c now a ≡ r
        → a.updated_at ≤ (after a r).updated_at
    after-le c now a (err e) h = omega arith
    after-le c now a (ok b) h = change-le c now a b (>>=-eq-ok (check c) (λ _. change c now a) h).2

-- ===== src/Lifecycle/Revision.antt =====
-- Revisions and invariants over histories of commands.
use cairnline.Base.{◌<◌, ◌≡◌, List, ok, err, conflict, arith, nat_eq}
use cairnline.Model.Clock.{Time}
use cairnline.Model.Assignment.{Assignment, QueuedAssignmentUpdate}
use cairnline.Lifecycle.Stamp.{queued_snapshot_matches}
use cairnline.Lifecycle.Host.{update_queued, edited}
use cairnline.Lifecycle.Commands.{Command, run}
use cairnline.Lifecycle.History.{Anything, all-Anything, run-keeps}
use cairnline.Lifecycle.Validity.{IsWellClaimed}
use cairnline.Lifecycle.Invariant.{change-IsWellClaimed}
use cairnline.Lifecycle.Stamps.{IsTimely, change-IsTimely}
use cairnline.Lifecycle.Monotone.{transition_time_at-gt, run-le}

-- After any history, an assignment that was well claimed and timely is so still.
pub run_sound :
    (cs : List (Time × Command)) (a : Assignment)
    → IsWellClaimed a
    → IsTimely a
    → IsWellClaimed (run cs a) × IsTimely (run cs a)
run_sound cs a v t = (
  run-keeps IsWellClaimed Anything (λ m now x y _ _. change-IsWellClaimed m now x y) cs a
      (all-Anything cs) v,
  run-keeps IsTimely Anything (λ m now x y _. change-IsTimely m now x y) cs a (all-Anything cs) t,
)

matches_revision :
    (u : QueuedAssignmentUpdate) (now : Time) (a b : Assignment)
    → update_queued u now a ≡ ok b
    → u.expected_updated_at < b.updated_at
unfolding update_queued queued_snapshot_matches
matches_revision u now a b h = ground (arith, transition_time_at-gt (edited u a) now)

mismatch_conflict :
    (u : QueuedAssignmentUpdate) (now : Time) (a : Assignment)
    → u.expected_updated_at < a.updated_at
    → update_queued u now a ≡ err conflict
unfolding update_queued queued_snapshot_matches
mismatch_conflict u now a h = ground arith

-- After an edit of queued work that was accepted, and any history of commands, the same edit is a
-- conflict at any time.
pub edit_once :
    (u : QueuedAssignmentUpdate) (now later : Time) (a b : Assignment) (cs : List (Time × Command))
    → update_queued u now a ≡ ok b
    → update_queued u later (run cs b) ≡ err conflict
edit_once u now later a b cs h =
    mismatch_conflict u later (run cs b) (omega (arith, matches_revision u now a b h, run-le cs b))

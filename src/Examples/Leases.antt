-- ===== src/Examples/Leases.antt =====
-- The lifecycle of an assignment on concrete assignments.
use cairnline.Base.{◌<◌, ◌≡◌, ◌↔◌, refl, true, some, none, ok, err, conflict, arith, eq_iff}
use cairnline.Base.Trim.{trim_space, is_space}
use cairnline.Model.Assignment.{AssignmentStatus, Assignment, no_execution, is_empty}
use cairnline.Lifecycle.Stamp.{
  queued_snapshot_matches, transition_time_at, requeue, claim_allows_mutation,
}
use cairnline.Lifecycle.Validate.{validate_assignment_claim_state}
use cairnline.Lifecycle.Fenced.{recover_claim, update_status_with_claim}
use cairnline.Lifecycle.Host.{update_queued, update_status_unfenced}
use cairnline.Lifecycle.Commands.{Fenced, release, recover, change, change_fenced, check, run}
use cairnline.Lifecycle.Validity.{IsWellClaimed, validate_iff}
use cairnline.Lifecycle.Stamps.{IsTimely, change-IsTimely}
use cairnline.Lifecycle.Invariant.{change-IsWellClaimed}
use cairnline.Lifecycle.Monotone.{change-Grows}
use cairnline.Lifecycle.Outcome.{Edge, change-Edge, finished_forever}
use cairnline.Lifecycle.Identity.{SameIdentity, change-SameIdentity}
use cairnline.Lifecycle.Refines.{update_status-refines}
use cairnline.Lifecycle.Fence.{stale_forever, exclusive}
use cairnline.Lifecycle.Revision.{run_sound, edit_once}
use cairnline.Lifecycle.Reservation.{expired-reservation, holder_starts, fence_only}
use cairnline.Examples.Data.{
  lease, waiting, reserved, working, done, edit, relabelled, freed, taken_over, intrusions,
  host_history,
}

stale_forever_example : change_fenced "c0" release 30 (run taken_over reserved) ≡ err conflict
stale_forever_example =
    stale_forever "c0" release reserved taken_over 30 (ground (arith, eq_iff "c1" "c0"))
      (tt, (ground (arith, eq_iff "c2" "c0"), tt))

exclusive_example : run intrusions reserved ≡ reserved
exclusive_example =
    exclusive (lease "c1" 10 20) reserved intrusions refl
      ((ground (arith, eq_iff "c0" "c1"), omega arith), (omega arith, (omega arith, tt)))

reserved-IsTimely : IsTimely reserved
reserved-IsTimely = record { fits = (refl, refl); started = omega arith; ended = omega arith }

reserved-IsWellClaimed : IsWellClaimed reserved
unfolding trim_space is_space
reserved-IsWellClaimed = (
  (ground (arith, eq_iff "c1" ""), refl),
  (ground (arith, eq_iff "worker" ""), refl),
  omega arith,
  omega arith,
)

run_sound_example : IsWellClaimed (run taken_over reserved) × IsTimely (run taken_over reserved)
run_sound_example = run_sound taken_over reserved reserved-IsWellClaimed reserved-IsTimely

edit_once_example : update_queued edit 40 (run taken_over relabelled) ≡ err conflict
unfolding update_queued queued_snapshot_matches is_empty transition_time_at
edit_once_example = edit_once edit 6 40 waiting relabelled taken_over refl

finished_forever_example : run host_history done ≡ done
finished_forever_example = finished_forever done host_history refl

recovery : change (recover "c1") 25 reserved ≡ ok freed
unfolding change recover_claim requeue transition_time_at
recovery = refl

change-Edge_example : Edge AssignmentStatus.claimed AssignmentStatus.queued
unfolding check
change-Edge_example = change-Edge (recover "c1") 25 reserved freed refl recovery

change-IsWellClaimed_example : IsWellClaimed freed
change-IsWellClaimed_example =
    change-IsWellClaimed (recover "c1") 25 reserved freed recovery reserved-IsWellClaimed

change-IsTimely_example : IsTimely freed
unfolding check
change-IsTimely_example =
    change-IsTimely (recover "c1") 25 reserved freed refl recovery reserved-IsTimely

change-Grows_example : 10 < 25
change-Grows_example = change-Grows (recover "c1") 25 reserved freed recovery

change-SameIdentity_example : SameIdentity reserved freed "w1"
change-SameIdentity_example = change-SameIdentity (recover "c1") 25 reserved freed recovery

validate_iff_example : (validate_assignment_claim_state reserved ≡ ok tt) ↔ IsWellClaimed reserved
validate_iff_example = validate_iff reserved

holder_starts_example :
    (b : Assignment) × (update_status_with_claim AssignmentStatus.running no_execution "c1" 12
        reserved
      ≡ ok b)
    × (b.status ≡ AssignmentStatus.running)
    × (b.claim ≡ some (fence_only (lease "c1" 10 20)))
    × (b.claimed_by ≡ "worker")
holder_starts_example =
    holder_starts reserved (lease "c1" 10 20) 12 AssignmentStatus.running no_execution
      reserved-IsWellClaimed refl refl (omega arith) refl

expired-reservation_example :
    ((m : Fenced) → change_fenced "c1" m 20 reserved ≡ err conflict)
    × ((b : Assignment) × (recover_claim "c1" 20 reserved ≡ ok b)
        × (b.status ≡ AssignmentStatus.queued)
        × (b.claim ≡ none))
expired-reservation_example =
    expired-reservation reserved (lease "c1" 10 20) 20 refl refl (omega arith) (omega arith)

fence_opens : claim_allows_mutation working "c1" 14 ≡ true
unfolding claim_allows_mutation
fence_opens = refl

update_status-refines_example :
    update_status_with_claim AssignmentStatus.awaiting_review no_execution "c1" 14 working
    ≡ update_status_unfenced AssignmentStatus.awaiting_review no_execution 14 working
update_status-refines_example =
    update_status-refines AssignmentStatus.awaiting_review no_execution "c1" 14 working fence_opens

-- ===== src/Lifecycle/Status.antt =====
-- The classes of assignment statuses (internal/core/service.go), and the two checks that name one.
use cairnline.Base.{Bool, true, false, Result, invalid, guard}
use cairnline.Model.Assignment.{
  AssignmentStatus, running, awaiting_approval, awaiting_review, completed, failed, cancelled,
}

abbrev pub is_completion : AssignmentStatus → Bool
is_completion completed = true
is_completion failed = true
is_completion cancelled = true
is_completion awaiting_review = true
is_completion _ = false

abbrev pub is_terminal : AssignmentStatus → Bool
is_terminal completed = true
is_terminal failed = true
is_terminal cancelled = true
is_terminal _ = false

abbrev pub is_progress : AssignmentStatus → Bool
is_progress running = true
is_progress awaiting_approval = true
is_progress awaiting_review = true
is_progress _ = false

unfoldable pub validate_progress_status : AssignmentStatus → Result (Unit {0})
validate_progress_status status =
    guard (is_progress status)
      (invalid "assignment status must be running, awaiting_approval, or awaiting_review")

unfoldable pub validate_completion_status : AssignmentStatus → Result (Unit {0})
validate_completion_status status =
    guard (is_completion status)
      (invalid "assignment status must be completed, failed, cancelled, or awaiting_review")

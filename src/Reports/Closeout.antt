-- ===== src/Reports/Closeout.antt =====
-- internal/core/closeout_readiness.go: whether a work item may be marked done, and what blocks it.
use cairnline.Base.{
  ℕ, String, Bool, true, false, not, ◌&&◌, ◌||◌, List, [], ◌∷◌, ◌++◌, Result, ok, invalid, reject,
  ◌>>◌, ◌>>=◌, if◌then◌else◌, ◌==◌, nat_eq, string_eq,
}
use cairnline.Base.Lists.{is_nil, length, filter, count, any, map}
use cairnline.Base.Texts.{unique_readiness_strings}
use cairnline.Base.Trim.{trim_space}
use cairnline.Model.Assignment.{Assignment, AssignmentStatus, status_eq as assignment_status_eq}
use cairnline.Model.Collaboration.{Evidence, Review}
use cairnline.Model.Handoff
use cairnline.Model.Handoff.{Handoff, HandoffStatus, status_eq as handoff_status_eq}
use cairnline.Model.Work.{WorkItem}
use cairnline.MemoryStore.State.{Store}
use cairnline.MemoryStore.WorkItems.{get_work_item}
use cairnline.MemoryStore.Lists.{list_assignments, list_evidence, list_reviews, list_handoffs}
use cairnline.Reports.FollowUps.{
  ReviewFollowUpReadiness, closeout_status, when_any, review_follow_ups, assignments_by_id,
}

pub record WorkItemCloseoutReadiness : Type 0 where
  pub project_id : String
  pub work_item_id : String
  pub ready : Bool
  pub status : String
  pub title : String
  pub detail : String
  pub blockers : List String
  pub warnings : List String
  pub assignment_count : ℕ
  pub completed_assignments : ℕ
  pub review_follow_up_count : ℕ
  pub review_follow_up_artifact_ids : List String
  pub review_follow_ups : List ReviewFollowUpReadiness
  pub missing_evidence_assignment_ids : List String
  pub open_handoff_ids : List String

-- `filterAssignmentsByWorkItem`
unfoldable pub filter_assignments_by_work_item : List Assignment → String → List Assignment
unfolding filter
filter_assignments_by_work_item assignments work_item_id =
    filter (λ a. a.work_item_id == work_item_id) assignments

-- `isActiveCloseoutAssignmentStatus`
abbrev pub is_active_closeout_assignment_status : AssignmentStatus → Bool
is_active_closeout_assignment_status AssignmentStatus.queued = true
is_active_closeout_assignment_status AssignmentStatus.claimed = true
is_active_closeout_assignment_status AssignmentStatus.running = true
is_active_closeout_assignment_status AssignmentStatus.awaiting_approval = true
is_active_closeout_assignment_status AssignmentStatus.awaiting_review = true
is_active_closeout_assignment_status _ = false

-- `assignmentHasCloseoutEvidence`
unfoldable pub has_closeout_evidence : Assignment → List Evidence → Bool
unfolding any
has_closeout_evidence a evidence =
    any (λ e. trim_space e.assignment_id == "" || trim_space e.assignment_id == a.id) evidence

-- `countAssignments`
unfoldable pub count_assignments : List Assignment → (AssignmentStatus → Bool) → ℕ
unfolding count
count_assignments assignments predicate = count (λ a. predicate (closeout_status a)) assignments

-- `workItemClosed`
unfoldable pub work_item_closed : String → Bool
work_item_closed status = trim_space status == "done" || trim_space status == "cancelled"

-- A completed assignment whose evidence is not recorded.
unfoldable pub misses_evidence : List Evidence → Assignment → Bool
unfolding has_closeout_evidence
misses_evidence evidence a =
    closeout_status a == AssignmentStatus.completed && not (has_closeout_evidence a evidence)

-- Neither active, completed, failed nor cancelled.
abbrev pub is_unresolved : AssignmentStatus → Bool
is_unresolved status =
    not (is_active_closeout_assignment_status status)
    && not (status == AssignmentStatus.completed)
    && not (status == AssignmentStatus.failed)
    && not (status == AssignmentStatus.cancelled)

unfoldable pub is_open : Handoff → Bool
is_open h = Handoff.trimmed_status h.status == HandoffStatus.opened

-- The blockers before the reviews are looked at.
unfoldable pub work_blockers : List Assignment → List Evidence → List Handoff → List String
unfolding count_assignments misses_evidence is_open
work_blockers assignments evidence handoffs =
    when_any (count_assignments assignments is_active_closeout_assignment_status)
      "assignment is still active" "assignments are still active"
    ++ when_any (count_assignments assignments (λ s. s == AssignmentStatus.failed))
        "assignment failed" "assignments failed"
    ++ when_any (count_assignments assignments (λ s. s == AssignmentStatus.cancelled))
        "assignment was cancelled" "assignments were cancelled"
    ++ when_any (count_assignments assignments is_unresolved) "assignment is not complete"
        "assignments are not complete"
    ++ when_any (length (filter is_open handoffs)) "handoff is open" "handoffs are open"
    ++ when_any (length (filter (misses_evidence evidence) assignments))
        "completed assignment is missing evidence" "completed assignments are missing evidence"

-- The answer before the guards: ready, nothing listed.
unfoldable pub ready_to_close : WorkItem → List Assignment → WorkItemCloseoutReadiness
unfolding count_assignments
ready_to_close item assignments = record {
  project_id = item.project_id;
  work_item_id = item.id;
  ready = false;
  status = "ready";
  title = "Ready to mark done";
  detail =
      "Assignments, evidence, handoffs, and review follow-up are clear. The operator can mark this work item done.";
  blockers = [];
  warnings = [];
  assignment_count = length assignments;
  completed_assignments = count_assignments assignments (λ s. s == AssignmentStatus.completed);
  review_follow_up_count = 0;
  review_follow_up_artifact_ids = [];
  review_follow_ups = [];
  missing_evidence_assignment_ids = [];
  open_handoff_ids = [];
}

unfoldable pub already_done : WorkItem → List Assignment → WorkItemCloseoutReadiness
unfolding ready_to_close
already_done item assignments = record (ready_to_close item assignments) {
  status = "done";
  title = "Work item is done";
  detail = "This work item has already been marked done by the operator.";
}

-- `Status`, `Title`, `Detail` and `Ready`, set when the blockers are known.
unfoldable pub settle : WorkItemCloseoutReadiness → WorkItemCloseoutReadiness
settle r = if is_nil r.blockers then record r { ready = r.status == "ready" } else record r {
  ready = false;
  status = "blocked";
  title = "Closeout is blocked";
  detail =
      "Resolve the listed assignment, evidence, handoff, or review follow-up items before marking this work done.";
}

module _ (quote : String → String) where
  unfoldable pub closeout_blockers :
      List Assignment → List Evidence → List Review → List Handoff → List String
  unfolding work_blockers review_follow_ups assignments_by_id map
  closeout_blockers assignments evidence reviews handoffs =
      work_blockers assignments evidence handoffs
      ++ map (λ f. f.blocker)
          (review_follow_ups quote reviews handoffs (assignments_by_id assignments))

  -- `EvaluateWorkItemCloseoutReadiness`
  unfoldable pub evaluate_closeout_readiness :
      WorkItem
      → List Assignment
      → List Evidence
      → List Review
      → List Handoff
      → WorkItemCloseoutReadiness
  unfolding settle already_done closeout_blockers unique_readiness_strings
  evaluate_closeout_readiness item assignments evidence reviews handoffs =
      let follow_ups = review_follow_ups quote reviews handoffs (assignments_by_id assignments) in
      let blockers = closeout_blockers assignments evidence reviews handoffs in
      let warnings : List String =
        if is_nil assignments
        then "No assignments are linked to this work item; closeout is manual." ∷ []
        else [] in
      if work_item_closed item.status
      then already_done item assignments
      else settle (record (ready_to_close item assignments) {
        missing_evidence_assignment_ids =
            map (λ a. a.id) (filter (misses_evidence evidence) assignments);
        open_handoff_ids = map (λ h. h.id) (filter is_open handoffs);
        review_follow_up_artifact_ids = map (λ f. f.artifact_id) follow_ups;
        review_follow_ups = follow_ups;
        review_follow_up_count = length (map (λ f. f.artifact_id) follow_ups);
        blockers = unique_readiness_strings blockers;
        warnings = unique_readiness_strings warnings;
      })

  -- `WorkItemCloseoutReadiness`, the service's method
  unfoldable work_item_closeout_readiness :
      Store → String → String → Result WorkItemCloseoutReadiness
  unfolding evaluate_closeout_readiness get_work_item list_assignments list_evidence list_reviews
      list_handoffs
  work_item_closeout_readiness s project_id work_item_id = do
    let p = trim_space project_id
    let w = trim_space work_item_id
    reject (p == "") (invalid "project_id is required")
    reject (w == "") (invalid "work_item_id is required")
    item ← get_work_item s p w
    assignments ← list_assignments s p
    evidence ← list_evidence s p w
    reviews ← list_reviews s p w
    handoffs ← list_handoffs s p w
    let linked = filter_assignments_by_work_item assignments w
    ok (evaluate_closeout_readiness item linked evidence reviews handoffs)

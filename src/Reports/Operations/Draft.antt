-- ===== src/Reports/Operations/Draft.antt =====
-- Each step of the operations brief keeps its counts right.
use cairnline.Base.{
  String, Bool, true, false, not, ◌&&◌, ltb, ◌≡◌, refl, List, [], ◌∷◌, Option, none, some,
  if◌then◌else◌, Bool-cases, inl, inr,
}
use cairnline.Base.Lists.{count, is_nil}
use cairnline.Model.Assignment.{Assignment, AssignmentStatus}
use cairnline.Model.Clock.{Time}
use cairnline.Model.Memory.{MemoryCandidate}
use cairnline.Model.Work.{WorkItem}
use cairnline.Reports.Activity.{is_lapsed}
use cairnline.Reports.FollowUps.{closeout_status}
use cairnline.Reports.Closeout.{WorkItemCloseoutReadiness, work_item_closed}
use cairnline.Reports.Operations.Types.{
  OperationKind, kind_eq, severity_eq, ProjectOperationItem, ProjectOperationsBrief,
}
use cairnline.Reports.Operations.Items.{
  candidate_item, missing_evidence_item, follow_up_item, handoff_item, closeout_item,
  unplanned_item, assignment_item, item_for_status, about_work_item, about_assignment,
  continue_item, recover_item,
}
use cairnline.Reports.Operations.Brief.{
  add_each, add_found, add_assignments, add_work_item, count_assignment, count_open, count_missing,
  count_follow_up, count_handoff, count_closeout, count_nothing, count_candidate, clear_brief,
}
use cairnline.Reports.Operations.Tally.{
  IsDraft, add-IsDraft, add_each-IsDraft, assignment-Registers, kind-Registers,
}

pub candidates-IsDraft :
    (candidates : List MemoryCandidate) (b : ProjectOperationsBrief)
    → IsDraft b
    → IsDraft (add_each count_candidate candidate_item candidates b)
unfolding candidate_item
candidates-IsDraft =
    add_each-IsDraft count_candidate candidate_item
      λ c. kind-Registers OperationKind.memory_candidate (candidate_item c) refl λ e. cc

-- The item of an assignment is of that kind.
abbrev IsOnAssignment : Option ProjectOperationItem → Type 0
IsOnAssignment none = Unit
IsOnAssignment (some i) = i.kind ≡ OperationKind.assignment

item_for_status-IsOnAssignment :
    (status : AssignmentStatus) (w : WorkItem) (a : Assignment) (now : Time)
    → IsOnAssignment (item_for_status status w a now)
unfolding item_for_status about_assignment continue_item recover_item about_work_item
item_for_status-IsOnAssignment AssignmentStatus.queued w a now = refl
item_for_status-IsOnAssignment AssignmentStatus.awaiting_approval w a now = refl
item_for_status-IsOnAssignment AssignmentStatus.failed w a now = refl
item_for_status-IsOnAssignment AssignmentStatus.cancelled w a now = refl
item_for_status-IsOnAssignment AssignmentStatus.claimed w a now =
    elim (Bool-cases (is_lapsed a.claim now)) [
      | inl lapsed ↦ rw lapsed refl
      | inr live ↦ rw live refl
    ]
item_for_status-IsOnAssignment AssignmentStatus.running w a now = refl
item_for_status-IsOnAssignment AssignmentStatus.awaiting_review w a now = refl
item_for_status-IsOnAssignment AssignmentStatus.completed w a now = tt
item_for_status-IsOnAssignment (AssignmentStatus.other s) w a now = tt

add_found-IsDraft :
    (found : Option ProjectOperationItem) (b : ProjectOperationsBrief)
    → IsOnAssignment found
    → IsDraft b
    → IsDraft (add_found found b)
add_found-IsDraft none b k d = d
add_found-IsDraft (some i) b k d =
    add-IsDraft (count_assignment i.severity) i b (assignment-Registers i k) d

add_assignments-IsDraft :
    (w : WorkItem) (now : Time) (assignments : List Assignment) (b : ProjectOperationsBrief)
    → IsDraft b
    → IsDraft (add_assignments w now assignments b)
unfolding add_assignments assignment_item
add_assignments-IsDraft w now [] b d = d
add_assignments-IsDraft w now (a ∷ rest) b d =
    add_assignments-IsDraft w now rest (add_found (assignment_item w a now) b) (
      add_found-IsDraft (assignment_item w a now) b
        (item_for_status-IsOnAssignment (closeout_status a) w a now) d)

open-IsDraft :
    (b : ProjectOperationsBrief) → IsDraft b → IsDraft (record b { counts = count_open b.counts })
open-IsDraft b d = record {
  tallied = record {
    candidates = d.tallied.candidates;
    missing = d.tallied.missing;
    follow_ups = d.tallied.follow_ups;
    handoffs = d.tallied.handoffs;
    closeouts = d.tallied.closeouts;
    blocked = d.tallied.blocked;
    active = d.tallied.active;
  };
  status = d.status;
  next = d.next;
}

-- One of two ways to go on.
either-IsDraft :
    (test : Bool) (b c : ProjectOperationsBrief)
    → IsDraft b
    → IsDraft c
    → IsDraft (if test then b else c)
either-IsDraft true b c d e = d
either-IsDraft false b c d e = e

pub add_work_item-IsDraft :
    (w : WorkItem) (now : Time) (assignments : List Assignment) (r : WorkItemCloseoutReadiness)
    (b : ProjectOperationsBrief)
    → IsDraft b
    → IsDraft (add_work_item w now assignments r b)
unfolding add_work_item missing_evidence_item follow_up_item handoff_item closeout_item
    unplanned_item about_work_item
add_work_item-IsDraft w now assignments r b d =
    let d1 = either-IsDraft (not (work_item_closed w.status)) _ b (open-IsDraft b d) d in
    let d2 = add_assignments-IsDraft w now assignments _ d1 in
    let d3 =
      add_each-IsDraft count_missing (missing_evidence_item w)
        (λ id.
          kind-Registers OperationKind.missing_evidence (missing_evidence_item w id) refl λ e. cc)
        r.missing_evidence_assignment_ids _ d2 in
    let d4 =
      add_each-IsDraft count_follow_up (follow_up_item w)
        (λ f. kind-Registers OperationKind.review_follow_up (follow_up_item w f) refl λ e. cc)
        r.review_follow_ups _ d3 in
    let d5 =
      add_each-IsDraft count_handoff (handoff_item w)
        (λ id. kind-Registers OperationKind.handoff (handoff_item w id) refl λ e. cc)
        r.open_handoff_ids _ d4 in
    let d6 =
      either-IsDraft (not (work_item_closed w.status) && r.ready && ltb 0 r.assignment_count) _ _
        (add-IsDraft count_closeout (closeout_item w r) _
          (kind-Registers OperationKind.closeout_ready (closeout_item w r) refl λ e. cc) d5)
        d5 in
    either-IsDraft (not (work_item_closed w.status) && is_nil assignments) _ _
      (add-IsDraft count_nothing (unplanned_item w) _
        (kind-Registers OperationKind.work_item (unplanned_item w) refl λ e. cc) d6)
      d6

pub clear_brief-IsDraft :
    (p : String) (now : Time) (work_items : List WorkItem) (assignments : List Assignment)
    → IsDraft (clear_brief p now work_items assignments)
unfolding clear_brief count
clear_brief-IsDraft p now work_items assignments = record {
  tallied = record {
    candidates = refl;
    missing = refl;
    follow_ups = refl;
    handoffs = refl;
    closeouts = refl;
    blocked = refl;
    active = refl;
  };
  status = refl;
  next = refl;
}

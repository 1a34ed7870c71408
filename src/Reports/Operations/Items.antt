-- ===== src/Reports/Operations/Items.antt =====
-- The items of the operations brief (internal/core/operations_brief.go) and their order.
use Prim.Native.Nat.{Ordering, compare}
use Prim.Native.String.{◌++◌}
use cairnline.Base.{ℕ, String, Option, none, some, if◌then◌else◌, ◌==◌, string_eq}
use cairnline.Base.Order.{then_by, compare_string}
use cairnline.Base.Text.{first_non_empty}
use cairnline.Model.Assignment.{Assignment, AssignmentStatus, status_text as assignment_status_text}
use cairnline.Model.Clock.{Time}
use cairnline.Model.Memory.{MemoryCandidate, status_text}
use cairnline.Model.Work.{WorkItem}
use cairnline.MemoryStore.Lists.{latest}
use cairnline.Reports.Activity.{is_lapsed}
use cairnline.Reports.FollowUps.{ReviewFollowUpReadiness, closeout_status}
use cairnline.Reports.Closeout.{WorkItemCloseoutReadiness}
use cairnline.Reports.Operations.Types.{OperationKind, Severity, severity_eq, ProjectOperationItem}

-- `Review memory candidate`, for a pending one
unfoldable pub candidate_item : MemoryCandidate → ProjectOperationItem
candidate_item c = record {
  kind = OperationKind.memory_candidate;
  severity = Severity.action;
  status = status_text c.status;
  title = "Review memory candidate: " ++ first_non_empty c.title c.id;
  detail = "Promote or reject the proposed durable memory entry.";
  action_kind = "";
  action_label = "";
  work_item_id = "";
  assignment_id = "";
  artifact_id = "";
  memory_candidate_id = c.id;
  updated_at = c.updated_at;
}

-- The fields that the items of a work item share.
unfoldable pub about_work_item : WorkItem → OperationKind → Severity → ProjectOperationItem
about_work_item w kind severity = record {
  kind = kind;
  severity = severity;
  status = "";
  title = "";
  detail = "";
  action_kind = "";
  action_label = "";
  work_item_id = w.id;
  assignment_id = "";
  artifact_id = "";
  memory_candidate_id = "";
  updated_at = w.updated_at;
}

unfoldable pub missing_evidence_item : WorkItem → String → ProjectOperationItem
unfolding about_work_item
missing_evidence_item w assignment_id =
    record (about_work_item w OperationKind.missing_evidence Severity.blocked) {
      status = "missing";
      title = "Record evidence for " ++ w.title;
      detail = "A completed assignment must have evidence before closeout.";
      assignment_id = assignment_id;
    }

unfoldable pub follow_up_item : WorkItem → ReviewFollowUpReadiness → ProjectOperationItem
unfolding about_work_item
follow_up_item w f = record (about_work_item w OperationKind.review_follow_up Severity.blocked) {
  status = f.status;
  title = "Triage review follow-up: " ++ first_non_empty f.title f.artifact_id;
  detail = f.blocker;
  assignment_id = f.reviewed_assignment_id;
  artifact_id = f.artifact_id;
}

unfoldable pub handoff_item : WorkItem → String → ProjectOperationItem
unfolding about_work_item
handoff_item w handoff_id = record (about_work_item w OperationKind.handoff Severity.blocked) {
  status = "open";
  title = "Resolve open handoff for " ++ w.title;
  detail = "The handoff must be accepted, dismissed, or superseded before closeout.";
  artifact_id = handoff_id;
}

unfoldable pub closeout_item : WorkItem → WorkItemCloseoutReadiness → ProjectOperationItem
unfolding about_work_item
closeout_item w r = record (about_work_item w OperationKind.closeout_ready Severity.ready) {
  status = r.status;
  title = "Close out " ++ w.title;
  detail = r.detail;
}

unfoldable pub unplanned_item : WorkItem → ProjectOperationItem
unfolding about_work_item
unplanned_item w = record (about_work_item w OperationKind.work_item Severity.info) {
  status = w.status;
  title = "Plan or assign " ++ w.title;
  detail = "This open work item has no assignments yet.";
}

-- The fields that the items of an assignment share.
unfoldable pub about_assignment :
    WorkItem → Assignment → Severity → String → String → ProjectOperationItem
unfolding about_work_item
about_assignment w a severity title detail =
    record (about_work_item w OperationKind.assignment severity) {
      status = assignment_status_text (closeout_status a);
      title = title ++ w.title;
      detail = detail;
      assignment_id = a.id;
      updated_at = a.updated_at;
    }

unfoldable pub continue_item : WorkItem → Assignment → ProjectOperationItem
unfolding about_assignment
continue_item w a =
    about_assignment w a Severity.active "Continue assignment for "
      "The assignment is not terminal yet."

unfoldable pub recover_item : WorkItem → Assignment → ProjectOperationItem
unfolding about_assignment
recover_item w a =
    record (about_assignment w a Severity.blocked "Recover expired claim for "
      "The pre-start claim expired. Reconcile any prepared host resources, then recover the assignment claim.") {
        action_kind = "recover_assignment_claim";
        action_label = "Recover claim";
      }

-- The switch of `projectAssignmentOperationItem`
unfoldable pub item_for_status :
    AssignmentStatus → WorkItem → Assignment → Time → Option ProjectOperationItem
unfolding about_assignment continue_item recover_item
item_for_status AssignmentStatus.queued w a now = some (
    about_assignment w a Severity.blocked "Start queued assignment for "
      "The assignment is queued and needs an operator or compatible agent to claim it.")
item_for_status AssignmentStatus.awaiting_approval w a now = some (
    about_assignment w a Severity.blocked "Resolve pending approval for "
      "The assignment is paused until a pending approval is resolved on the executing host.")
item_for_status AssignmentStatus.failed w a now = some (
    about_assignment w a Severity.blocked "Resolve failed assignment for "
      "The assignment must be retried, replaced, or explicitly accepted before closeout.")
item_for_status AssignmentStatus.cancelled w a now = some (
    about_assignment w a Severity.blocked "Resolve cancelled assignment for "
      "The assignment must be retried, replaced, or explicitly accepted before closeout.")
item_for_status AssignmentStatus.claimed w a now =
    some (if is_lapsed a.claim now then recover_item w a else continue_item w a)
item_for_status AssignmentStatus.running w a now = some (continue_item w a)
item_for_status AssignmentStatus.awaiting_review w a now = some (continue_item w a)
item_for_status AssignmentStatus.completed w a now = none
item_for_status (AssignmentStatus.other s) w a now = none

-- `projectAssignmentOperationItem`
unfoldable pub assignment_item : WorkItem → Assignment → Time → Option ProjectOperationItem
unfolding item_for_status
assignment_item w a now = item_for_status (closeout_status a) w a now

-- `projectOperationRank`
abbrev pub rank_of : OperationKind → Severity → ℕ
rank_of OperationKind.assignment severity = if severity == Severity.blocked then 10 else 50
rank_of OperationKind.missing_evidence severity = 20
rank_of OperationKind.review_follow_up severity = 30
rank_of OperationKind.handoff severity = 35
rank_of OperationKind.memory_candidate severity = 40
rank_of OperationKind.closeout_ready severity = 60
rank_of OperationKind.work_item severity = 70
rank_of OperationKind.project_setup severity = 100
rank_of OperationKind.skill severity = 100

abbrev pub operation_rank : ProjectOperationItem → ℕ
operation_rank i = rank_of i.kind i.severity

-- The order of the items: by rank, then the latest, then by title.
unfoldable pub compare_operations : ProjectOperationItem → ProjectOperationItem → Ordering
compare_operations a b =
    then_by (compare (operation_rank a) (operation_rank b))
      (then_by (latest a.updated_at b.updated_at) (compare_string a.title b.title))

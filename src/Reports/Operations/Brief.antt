-- ===== src/Reports/Operations/Brief.antt =====
-- The operations brief itself (internal/core/operations_brief.go).
use cairnline.Base.{
  ℕ, ◌+◌, String, false, not, ◌&&◌, List, [], ◌∷◌, ◌++◌, Option, none, some, Result, ok, invalid,
  reject, ◌>>◌, ◌>>=◌, if◌then◌else◌, ◌==◌, nat_eq, string_eq, ltb,
}
use cairnline.Base.Lists.{length, filter, is_nil}
use cairnline.Base.Sorting.{sort}
use cairnline.Base.Text.{decimal}
use cairnline.Base.Texts.{join}
use cairnline.Base.Trim.{trim_space}
use cairnline.Model.Assignment.{Assignment}
use cairnline.Model.Clock.{Time}
use cairnline.Model.Memory.{MemoryCandidate, CandidateStatus, status_eq}
use cairnline.Model.Work.{WorkItem}
use cairnline.MemoryStore.State.{Store}
use cairnline.MemoryStore.Projects.{get_project}
use cairnline.MemoryStore.Lists.{
  list_work_items, list_assignments, list_evidence, list_reviews, list_handoffs,
  list_memory_candidates,
}
use cairnline.Reports.Closeout.{
  WorkItemCloseoutReadiness, evaluate_closeout_readiness, filter_assignments_by_work_item,
  work_item_closed,
}
use cairnline.Reports.Operations.Types.{
  Severity, ProjectOperationItem, ProjectOperationsCounts, ProjectOperationsBrief,
}
use cairnline.Reports.Operations.Items.{
  candidate_item, missing_evidence_item, follow_up_item, handoff_item, closeout_item,
  unplanned_item, assignment_item, compare_operations,
}

abbrev pub Counts : Type 0
Counts = ProjectOperationsCounts

-- `brief.Counts.X++; brief.Items = append(brief.Items, item)`
abbrev pub add :
    (Counts → Counts) → ProjectOperationItem → ProjectOperationsBrief → ProjectOperationsBrief
add bump i b = record b { counts = bump b.counts; items = b.items ++ i ∷ [] }

-- The same for each of a list.
unfoldable pub add_each {ℓ} :
    {A : Type ℓ}
    → (Counts → Counts)
    → (A → ProjectOperationItem)
    → List A
    → ProjectOperationsBrief
    → ProjectOperationsBrief
add_each bump view [] b = b
add_each bump view (x ∷ rest) b = add_each bump view rest (add bump (view x) b)

abbrev pub count_candidate : Counts → Counts
count_candidate c = record c { pending_memory_candidates = c.pending_memory_candidates + 1 }

abbrev pub count_missing : Counts → Counts
count_missing c = record c { missing_evidence = c.missing_evidence + 1 }

abbrev pub count_follow_up : Counts → Counts
count_follow_up c = record c { review_follow_ups = c.review_follow_ups + 1 }

abbrev pub count_handoff : Counts → Counts
count_handoff c = record c { open_handoffs = c.open_handoffs + 1 }

abbrev pub count_closeout : Counts → Counts
count_closeout c = record c { closeout_ready = c.closeout_ready + 1 }

abbrev pub count_open : Counts → Counts
count_open c = record c { open_work_items = c.open_work_items + 1 }

abbrev pub count_nothing : Counts → Counts
count_nothing c = c

-- The switch on an assignment item's severity.
abbrev pub count_assignment : Severity → Counts → Counts
count_assignment Severity.blocked c = record c { blocked_assignments = c.blocked_assignments + 1 }
count_assignment Severity.active c = record c { active_assignments = c.active_assignments + 1 }
count_assignment _ c = c

abbrev pub add_found : Option ProjectOperationItem → ProjectOperationsBrief → ProjectOperationsBrief
add_found none b = b
add_found (some i) b = add (count_assignment i.severity) i b

unfoldable pub add_assignments :
    WorkItem → Time → List Assignment → ProjectOperationsBrief → ProjectOperationsBrief
unfolding assignment_item
add_assignments w now [] b = b
add_assignments w now (a ∷ rest) b =
    add_assignments w now rest (add_found (assignment_item w a now) b)

-- What one work item adds, when its readiness is known.
unfoldable pub add_work_item :
    WorkItem
    → Time
    → List Assignment
    → WorkItemCloseoutReadiness
    → ProjectOperationsBrief
    → ProjectOperationsBrief
unfolding add_each add_assignments work_item_closed missing_evidence_item follow_up_item
    handoff_item closeout_item unplanned_item
add_work_item w now assignments r b0 =
    let open_item = not (work_item_closed w.status) in
    let b1 = if open_item then record b0 { counts = count_open b0.counts } else b0 in
    let b2 = add_assignments w now assignments b1 in
    let b3 =
      add_each count_missing (missing_evidence_item w) r.missing_evidence_assignment_ids b2 in
    let b4 = add_each count_follow_up (follow_up_item w) r.review_follow_ups b3 in
    let b5 = add_each count_handoff (handoff_item w) r.open_handoff_ids b4 in
    let b6 =
      if open_item && r.ready && ltb 0 r.assignment_count
      then add count_closeout (closeout_item w r) b5
      else b5 in
    if open_item && is_nil assignments then add count_nothing (unplanned_item w) b6 else b6

unfoldable pub clear_brief :
    String → Time → List WorkItem → List Assignment → ProjectOperationsBrief
clear_brief p now work_items assignments = record {
  project_id = p;
  status = "clear";
  title = "No project operations need attention";
  detail =
      "There are no active assignments, pending memory candidates, review follow-ups, or closeout blockers.";
  counts = record {
    work_items = length work_items;
    open_work_items = 0;
    assignments = length assignments;
    active_assignments = 0;
    blocked_assignments = 0;
    pending_memory_candidates = 0;
    review_follow_ups = 0;
    missing_evidence = 0;
    open_handoffs = 0;
    closeout_ready = 0;
  };
  next = none;
  items = [];
  created_at = now;
}

-- `pluralSuffix` and `pluralVerb`
unfoldable pub plural_suffix : ℕ → String
plural_suffix n = if n == 1 then "" else "s"

unfoldable pub plural_verb : ℕ → String
plural_verb n = if n == 1 then "s" else ""

-- What is set when there are items.
abbrev pub announce : List ProjectOperationItem → ProjectOperationsBrief → ProjectOperationsBrief
announce [] b = b
announce (first ∷ rest) b =
    let n = length (first ∷ rest) in
    record b {
      status = "attention";
      title = "Project operations need attention";
      detail = join "" (
          decimal n
          ∷ " project operation item"
          ∷ plural_suffix n
          ∷ " need"
          ∷ plural_verb n
          ∷ " operator attention."
          ∷ []);
      next = some first;
    }

-- The sorted items, with the headline.
unfoldable pub with_headline : ProjectOperationsBrief → ProjectOperationsBrief
unfolding compare_operations
with_headline b =
    let sorted = sort compare_operations b.items in announce sorted (record b { items = sorted })

module _ (quote : String → String) where
  -- `evaluateWorkItemOperationsReadiness`
  unfoldable pub evaluate_operations_readiness :
      Store → WorkItem → List Assignment → Result WorkItemCloseoutReadiness
  evaluate_operations_readiness s w assignments = do
    evidence ← list_evidence s w.project_id w.id
    reviews ← list_reviews s w.project_id w.id
    handoffs ← list_handoffs s w.project_id w.id
    ok (evaluate_closeout_readiness quote w assignments evidence reviews handoffs)

  -- The loop over the work items; `assignmentsByWorkItem` has, for each, its own in their order.
  unfoldable pub add_work_items :
      Store
      → Time
      → List Assignment
      → List WorkItem
      → ProjectOperationsBrief
      → Result ProjectOperationsBrief
  unfolding evaluate_operations_readiness add_work_item filter_assignments_by_work_item
  add_work_items s now assignments [] b = ok b
  add_work_items s now assignments (w ∷ rest) b = do
    let own = filter_assignments_by_work_item assignments w.id
    r ← evaluate_operations_readiness s w own
    add_work_items s now assignments rest (add_work_item w now own r b)

  -- `ProjectOperationsBrief`, the service's method
  unfoldable pub project_operations_brief : Store → Time → String → Result ProjectOperationsBrief
  unfolding get_project add_each candidate_item add_work_items clear_brief with_headline
  project_operations_brief s now project_id = do
    let p = trim_space project_id
    reject (p == "") (invalid "project_id is required")
    project ← get_project s p
    work_items ← list_work_items s p
    assignments ← list_assignments s p
    candidates ←
        list_memory_candidates s (record { project_id = p; status = ""; include_resolved = false })
    let pending : List MemoryCandidate =
        filter (λ c. c.status == CandidateStatus.pending) candidates
    let start = clear_brief p now work_items assignments
    b ←
        add_work_items s now assignments work_items
          (add_each count_candidate candidate_item pending start)
    ok (with_headline b)

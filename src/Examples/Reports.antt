-- ===== src/Examples/Reports.antt =====
-- The lists, the reports and the error codes on the shop.
use cairnline.Base.{
  String, true, false, ◌≡◌, ◌↔◌, ◌⊎◌, ◌≢◌, refl, some, List, [], ◌∷◌, ok, string_eq,
}
use cairnline.Base.Lists.{length}
use cairnline.Base.Nested
use cairnline.Base.Sorting.{Has, IsSorted, IsOrdered}
use cairnline.Base.Table
use cairnline.Base.Trim.{trim_space, is_space, is_blank}
use cairnline.Model.Assignment.{Assignment}
use cairnline.Model.Collaboration.{Evidence, Review}
use cairnline.Model.Handoff.{Handoff, HandoffStatus}
use cairnline.Model.Memory.{
  MemoryEntry, MemoryCandidate, CandidateStatus, MemoryCandidateFilter, status_text,
}
use cairnline.MemoryStore.Each.{Each-put}
use cairnline.MemoryStore.Integrity.Filed.{IsFiled, WorkItemFiled, history-IsFiled}
use cairnline.MemoryStore.Listing.{list_handoffs-exact, list_memory_candidates-exact}
use cairnline.MemoryStore.Lists.{
  list_handoffs, list_assignments, list_memory_candidates, latest, list_memory_entries,
}
use cairnline.MemoryStore.Memories.{list_memory_entries-exact, IsListedBefore}
use cairnline.MemoryStore.State.{Store, new_store, project_at, require_work_item}
use cairnline.Reports.Activity.{ProjectActivity, project_activity}
use cairnline.Reports.Buckets.{activity-IsReport, IsReport}
use cairnline.Reports.Closeout.{evaluate_closeout_readiness}
use cairnline.Reports.Health.Report.{project_health}
use cairnline.Reports.Health.Sound.{project_health-IsHealth, IsHealth}
use cairnline.Reports.Health.Types.{ProjectHealth}
use cairnline.Reports.Operations.Brief.{project_operations_brief}
use cairnline.Reports.Operations.Sound.{operations-IsBrief, IsBrief}
use cairnline.Reports.Operations.Types.{ProjectOperationsBrief}
use cairnline.Reports.Onboarding.{project_setup_readiness-IsSetup, IsSetup, Listed}
use cairnline.Reports.Ready.{closeout_ready, MayClose}
use cairnline.Reports.Setup.{ProjectSetupReadiness, project_setup_readiness}
use cairnline.ErrorCode.{
  GoErrors, cons, nil, sentinel, wrap, joined, invalid, duplicate, is_error, is_any,
  code_already_exists, classify_error_code,
}
use cairnline.Examples.Data.{done}
use cairnline.Examples.Shop.{shop, setup, fingerprint, item, project, handoff, candidate, entry}

-- A stand-in for the quoting verb, and one for the change to lower case.
abbrev quoted : String → String
quoted s = s

abbrev proof : Evidence
proof = record {
  id = "e1";
  project_id = "p1";
  work_item_id = "w1";
  assignment_id = "a1";
  title = "Run";
  body = "";
  locator = "";
  source_kind = "";
  external_id = "";
  provider = "";
  trust_label = "";
  created_at = 16;
  updated_at = 16;
}

abbrev complaint : Review
complaint = record {
  id = "r1";
  project_id = "p1";
  work_item_id = "w1";
  assignment_id = "a1";
  reviewer_role_id = "";
  title = "Till";
  body = "";
  verdict = "changes_requested";
  risk = "";
  status = "";
  created_at = 17;
  updated_at = 17;
}

-- The follow-up of the complaint, whose target is completed.
abbrev reply : Handoff
reply = record handoff {
  status = HandoffStatus.accepted;
  linked_artifact_ids = "r1" ∷ [];
  target_assignment_id = "a1";
}

closeout_ready_example :
    ((evaluate_closeout_readiness quoted item
        (done ∷ [])
        (proof ∷ [])
        (complaint ∷ [])
        (reply ∷ [])).ready
      ≡ true)
    ↔ MayClose item (done ∷ []) (proof ∷ []) (complaint ∷ []) (reply ∷ [])
closeout_ready_example =
    closeout_ready quoted item (done ∷ []) (proof ∷ []) (complaint ∷ []) (reply ∷ [])

-- A store with one project, and a record of each kind that the reports read.
abbrev desk : Store
desk = record new_store {
  projects = Table.put "p1" project Table.empty;
  work_items = Nested.put "p1" "w1" item Table.empty;
  assignments = Nested.put "p1" "a1" done Table.empty;
  reviews = Nested.put "p1" "r1" complaint Table.empty;
  handoffs = Nested.put "p1" "h1" handoff Table.empty;
  entries = Nested.put "p1" "m9" (entry "m9") Table.empty;
  memory = Nested.put "p1" "m1" candidate Table.empty;
}

history-IsFiled_example : IsFiled shop
history-IsFiled_example = history-IsFiled fingerprint setup

desk-IsFiled : IsFiled desk
unfolding Nested.get Nested.within Table.empty Table.get
desk-IsFiled =
    Each-put WorkItemFiled Table.empty (λ p id v h. cc) "p1" "w1" item
      (record { project_id = refl; own_id = refl })

desk-project : project_at desk (trim_space " p1 ") ≡ some project
unfolding Table.get Table.put Table.empty trim_space is_space
desk-project = refl

desk-named : is_blank " p1 " ≡ false
unfolding trim_space is_space
desk-named = refl

desk-item : require_work_item desk "p1" "w1" ≡ ok tt
unfolding require_work_item Table.get Table.put Table.empty Nested.get Nested.put
desk-item = refl

activity-IsReport_example :
    (act : ProjectActivity) × (assignments : List Assignment) × (project_activity desk 30 " p1 "
      ≡ ok act)
    × (list_assignments desk (trim_space " p1 ") ≡ ok assignments)
    × (length act.items ≡ length assignments)
    × IsReport act
activity-IsReport_example = activity-IsReport desk 30 " p1 " project desk-named desk-project

operations-IsBrief_example :
    (b : ProjectOperationsBrief) × (project_operations_brief quoted desk 30 " p1 " ≡ ok b)
    × IsBrief b
operations-IsBrief_example =
    operations-IsBrief quoted desk 30 " p1 " project desk-named desk-project desk-IsFiled

project_setup_readiness-IsSetup_example :
    (r : ProjectSetupReadiness) × (l : Listed desk (trim_space " p1 ")) × (project_setup_readiness
        desk 30 " p1 "
      ≡ ok r)
    × IsSetup project l.work_items l.roles l.skills l.entries l.candidates r
project_setup_readiness-IsSetup_example =
    project_setup_readiness-IsSetup desk 30 " p1 " project desk-named desk-project

project_health-IsHealth_example :
    (h : ProjectHealth) × (project_health quoted quoted desk 30 " p1 " ≡ ok h) × IsHealth h
project_health-IsHealth_example =
    project_health-IsHealth quoted quoted desk 30 " p1 " project desk-named desk-project
      desk-IsFiled

list_handoffs-exact_example :
    (out : List Handoff) × (list_handoffs desk "p1" "w1" ≡ ok out)
    × ((h : Handoff)
        → Has h out ↔ (
            ((id : String) × (Nested.get "p1" id desk.handoffs ≡ some h))
            × (h.work_item_id ≡ "w1")))
    × IsSorted (λ a b. latest a.updated_at b.updated_at) out
list_handoffs-exact_example = list_handoffs-exact desk "p1" "w1" desk-item

abbrev pending_only : MemoryCandidateFilter
pending_only = record { project_id = "p1"; status = ""; include_resolved = false }

desk-filtered : project_at desk pending_only.project_id ≡ some project
unfolding Table.get Table.put Table.empty
desk-filtered = refl

list_memory_candidates-exact_example :
    (out : List MemoryCandidate) × (list_memory_candidates desk pending_only ≡ ok out)
    × ((c : MemoryCandidate)
        → Has c out ↔ (
            ((id : String) × (Nested.get "p1" id desk.memory ≡ some c))
            × (((pending_only.status ≡ "")
                  × ((false ≡ true) ⊎ (c.status ≡ CandidateStatus.pending)))
                ⊎ ((pending_only.status ≢ "") × (status_text c.status ≡ pending_only.status)))))
list_memory_candidates-exact_example =
    list_memory_candidates-exact desk pending_only project desk-filtered

list_memory_entries-exact_example :
    (out : List MemoryEntry) × (list_memory_entries desk "p1" false ≡ ok out)
    × ((e : MemoryEntry)
        → Has e out ↔ (
            ((id : String) × (Nested.get "p1" id desk.entries ≡ some e))
            × ((false ≡ true) ⊎ (e.enabled ≡ true))))
    × IsOrdered IsListedBefore out
list_memory_entries-exact_example = list_memory_entries-exact desk "p1" false project desk-filtered

-- A collision that is reported with a validation error.
abbrev collision : GoErrors
collision = cons (sentinel invalid) (cons (wrap "role" (sentinel duplicate)) nil)

-- It is answered with "already_exists".
collision-code : classify_error_code (some (joined collision)) ≡ code_already_exists
unfolding classify_error_code is_error is_any
collision-code = refl

-- ===== src/Reports/Health/Report.antt =====
-- The health report itself (internal/core/project_health.go).
use cairnline.Base.{
  ℕ, ◌-◌, String, Bool, true, false, not, ◌&&◌, List, [], ◌∷◌, ◌++◌, Result, ok, invalid, reject,
  ◌>>◌, ◌>>=◌, if◌then◌else◌, ◌==◌, nat_eq, string_eq, ltb,
}
use cairnline.Base.Lists.{length, count, map, take}
use cairnline.Base.Text.{decimal}
use cairnline.Base.Texts.{join}
use cairnline.Base.Trim.{trim_space}
use cairnline.Model.Clock.{Time}
use cairnline.Model.Collaboration.{Review}
use cairnline.Model.Handoff.{Handoff, HandoffStatus, status_eq as handoff_status_eq}
use cairnline.Model.Memory.{
  MemoryEntry, MemoryCandidate, CandidateStatus, status_eq as candidate_status_eq,
}
use cairnline.Model.Project.{Project, Source}
use cairnline.Model.Work.{WorkItem}
use cairnline.MemoryStore.State.{Store}
use cairnline.MemoryStore.Projects.{get_project}
use cairnline.MemoryStore.Lists.{
  list_work_items, list_roles, list_project_skills, list_assignments, list_memory_entries,
  list_memory_candidates, list_handoffs, list_reviews,
}
use cairnline.Reports.FollowUps.{review_requires_follow_up}
use cairnline.Reports.Setup.{
  ProjectSetupReadiness, ProjectSetupReadinessCheck, has_active_root, active_root,
  project_setup_readiness,
}
use cairnline.Reports.Operations.Types.{OperationKind, Severity, ProjectOperationsBrief}
use cairnline.Reports.Operations.Brief.{project_operations_brief, plural_suffix, plural_verb}
use cairnline.Reports.Health.Types.{ProjectHealthSummary, ProjectHealthAttentionItem, ProjectHealth}
use cairnline.Reports.Health.Attention.{
  health_item_id, operation_attention, unique_attention, skill_issues,
}

-- `projectHealthAttentionLimit`
abbrev pub attention_limit : ℕ
attention_limit = 5

-- `projectHealthArtifacts`
unfoldable pub health_artifacts :
    Store → String → List WorkItem → Result (List Handoff × List Review)
health_artifacts s p [] = ok ([], [])
health_artifacts s p (w ∷ rest) = do
  handoffs ← list_handoffs s p w.id
  reviews ← list_reviews s p w.id
  others ← health_artifacts s p rest
  ok (handoffs ++ others.0, reviews ++ others.1)

-- `projectHealthSummary`; the counts of attention and of skill issues are set by the caller.
unfoldable pub health_summary :
    Project
    → ProjectSetupReadiness
    → ProjectOperationsBrief
    → List MemoryEntry
    → List MemoryCandidate
    → List Handoff
    → List Review
    → ProjectHealthSummary
unfolding count active_root review_requires_follow_up
health_summary project setup operations entries candidates handoffs reviews = record {
  attention_count = 0;
  available_attention_count = 0;
  omitted_attention_count = 0;
  attention_limit = 0;
  setup_todo_count = count (λ (c : ProjectSetupReadinessCheck). c.status == "todo") setup.checks;
  missing_project_root = not (has_active_root project);
  enabled_memory_count = count (λ (e : MemoryEntry). e.enabled) entries;
  saved_memory_count = length entries;
  enabled_context_source_count = count (λ (c : Source). c.enabled) project.context_sources;
  pending_memory_candidate_count =
      count (λ (c : MemoryCandidate). c.status == CandidateStatus.pending) candidates;
  promoted_memory_candidate_count =
      count (λ (c : MemoryCandidate). c.status == CandidateStatus.promoted) candidates;
  rejected_memory_candidate_count =
      count (λ (c : MemoryCandidate). c.status == CandidateStatus.rejected) candidates;
  open_handoff_count = count (λ (h : Handoff). h.status == HandoffStatus.opened) handoffs;
  accepted_handoff_count = count (λ (h : Handoff). h.status == HandoffStatus.accepted) handoffs;
  superseded_handoff_count = count (λ (h : Handoff). h.status == HandoffStatus.superseded) handoffs;
  dismissed_handoff_count = count (λ (h : Handoff). h.status == HandoffStatus.dismissed) handoffs;
  review_follow_up_count = count review_requires_follow_up reviews;
  blocked_review_count = count (λ (r : Review). r.verdict == "blocked") reviews;
  changes_requested_review_count = count (λ (r : Review). r.verdict == "changes_requested") reviews;
  active_assignment_count = operations.counts.active_assignments;
  blocked_assignment_count = operations.counts.blocked_assignments;
  project_skill_issue_count = 0;
}

-- An item about the project as a whole.
unfoldable about_project : Project → String → OperationKind → ProjectHealthAttentionItem
unfolding health_item_id
about_project project name kind = record {
  id = health_item_id (project.id ∷ name ∷ []);
  project_id = project.id;
  kind = kind;
  severity = Severity.action;
  status = "todo";
  title = "";
  detail = "";
  action_kind = "";
  action_label = "";
  work_item_id = "";
  assignment_id = "";
  artifact_id = "";
  handoff_id = "";
  memory_candidate_id = "";
  updated_at = 0;
}

unfoldable setup_attention : Project → ProjectHealthAttentionItem
unfolding about_project
setup_attention project = record (about_project project "setup" OperationKind.project_setup) {
  title = "Set up project";
  detail = "Add project context, roles, and the first work item before coordinating execution.";
  action_kind = "setup_project";
  action_label = "Set up project";
  updated_at = project.updated_at;
}

unfoldable skills_attention : Project → List String → ProjectHealthAttentionItem
unfolding about_project join
skills_attention project issues = record (about_project project "skills" OperationKind.skill) {
  status = "needs_review";
  title = "Project skills need review";
  detail = join "" (join "; " issues ∷ "." ∷ []);
  action_kind = "update_skills";
  action_label = "Review skills";
}

unfoldable context_attention : Project → ProjectHealthAttentionItem
unfolding about_project
context_attention project = record (about_project project "context" OperationKind.project_setup) {
  title = "No project memory or context sources enabled";
  detail = "Project-scoped context is empty for future assignment context packets.";
  action_kind = "manage_context";
  action_label = "Add context";
}

abbrev keep_if {ℓ} : {A : Type ℓ} → Bool → A → List A
keep_if true a = a ∷ []
keep_if false a = []

-- The items before repetitions are dropped.
unfoldable pub all_attention :
    Project
    → ProjectSetupReadiness
    → ProjectOperationsBrief
    → ProjectHealthSummary
    → List String
    → List ProjectHealthAttentionItem
unfolding setup_attention skills_attention context_attention operation_attention map
all_attention project setup operations summary issues =
    keep_if setup.show_onboarding (setup_attention project)
    ++ map (operation_attention project.id) operations.items
    ++ keep_if (ltb 0 (length issues)) (skills_attention project issues)
    ++ keep_if
        (not setup.show_onboarding
          && summary.enabled_memory_count == 0
          && summary.enabled_context_source_count == 0)
        (context_attention project)

abbrev needs_text : ℕ → String
needs_text n = join "" (
    decimal n
    ∷ " project coordination item"
    ∷ plural_suffix n
    ∷ " need"
    ∷ plural_verb n
    ∷ " operator attention."
    ∷ [])

-- The answer: the first items, how many there are, and the headline.
unfoldable pub health_of :
    Project
    → ProjectHealthSummary
    → List String
    → List ProjectHealthAttentionItem
    → Time
    → ProjectHealth
unfolding unique_attention take plural_suffix plural_verb
health_of project summary issues candidates created_at =
    let attention = unique_attention [] candidates in
    let available = length attention in
    let shown =
      if ltb attention_limit available then take attention_limit attention else attention in
    let calm = available == 0 in
    record {
      project_id = project.id;
      status = if calm then "clear" else "attention";
      title = if calm then "Project is clear" else "Project needs attention";
      detail =
          if calm then "No project coordination items need attention." else needs_text available;
      summary = record summary {
        project_skill_issue_count = length issues;
        attention_count = length shown;
        available_attention_count = available;
        omitted_attention_count = available - length shown;
        attention_limit = attention_limit;
      };
      attention = shown;
      created_at = created_at;
    }

-- `ProjectHealth`, the service's method
unfoldable pub project_health :
    (String → String) → (String → String) → Store → Time → String → Result ProjectHealth
unfolding get_project health_summary all_attention health_of skill_issues
project_health quote to_lower s now project_id = do
  let p = trim_space project_id
  reject (p == "") (invalid "project_id is required")
  project ← get_project s p
  setup ← project_setup_readiness s now p
  operations ← project_operations_brief quote s now p
  roles ← list_roles s p
  skills ← list_project_skills s p
  assignments ← list_assignments s p
  work_items ← list_work_items s p
  entries ← list_memory_entries s p true
  candidates ←
      list_memory_candidates s (record { project_id = p; status = ""; include_resolved = true })
  artifacts ← health_artifacts s p work_items
  let summary = health_summary project setup operations entries candidates artifacts.0 artifacts.1
  let issues = skill_issues to_lower roles assignments skills
  let all = all_attention project setup operations summary issues
  ok (health_of project summary issues all operations.created_at)

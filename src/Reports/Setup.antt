-- ===== src/Reports/Setup.antt =====
-- internal/core/setup_readiness.go: what of a project is set up. `now` is the reading of the
-- service's clock.
use Prim.Native.String.{◌++◌}
use cairnline.Base.{
  ℕ, String, Bool, true, false, not, ◌&&◌, ◌||◌, List, [], ◌∷◌, Option, none, some, is_some, Result,
  ok, invalid, reject, ◌>>◌, ◌>>=◌, if◌then◌else◌, ◌==◌, nat_eq, string_eq, ltb,
}
use cairnline.Base.Lists.{length, count}
use cairnline.Base.Text.{decimal, pluralize}
use cairnline.Base.Texts.{join}
use cairnline.Base.Trim.{trim_space}
use cairnline.Model.Clock.{Time}
use cairnline.Model.Memory.{MemoryEntry, MemoryCandidate, CandidateStatus, status_eq}
use cairnline.Model.Project.{Project, ProjectSkill, Root, Source}
use cairnline.Model.Work.{Role, WorkItem}
use cairnline.MemoryStore.State.{Store}
use cairnline.MemoryStore.Projects.{get_project}
use cairnline.MemoryStore.Lists.{
  list_work_items, list_roles, list_project_skills, list_memory_entries, list_memory_candidates,
}

pub record ProjectSetupReadinessSummary : Type 0 where
  pub work_item_count : ℕ
  pub role_count : ℕ
  pub skill_count : ℕ
  pub enabled_context_source_count : ℕ
  pub saved_memory_count : ℕ
  pub pending_memory_candidate_count : ℕ
  pub has_purpose : Bool
  pub has_active_root : Bool

pub record ProjectSetupReadinessAction : Type 0 where
  pub kind : String
  pub project_id : String
  pub label : String

pub record ProjectSetupReadinessCheck : Type 0 where
  pub id : String
  pub label : String
  pub detail : String
  pub status : String
  pub optional : Bool
  pub action : Option ProjectSetupReadinessAction

pub record ProjectSetupReadiness : Type 0 where
  pub project_id : String
  pub show_onboarding : Bool
  pub setup_started : Bool
  pub first_work_ready : Bool
  pub summary : ProjectSetupReadinessSummary
  pub primary_action : ProjectSetupReadinessAction
  pub checks : List ProjectSetupReadinessCheck
  pub created_at : Time

-- `projectActiveRoot`: the first root that is active and has a path.
unfoldable pub active_root : List Root → Option Root
active_root [] = none
active_root (r ∷ rest) =
    let later = active_root rest in
    if r.active && not (trim_space r.path == "") then some r else later

-- `projectHasActiveRoot`
abbrev pub has_active_root : Project → Bool
has_active_root project = is_some (active_root project.roots)

-- `projectSetupReadinessSummary`
unfoldable pub setup_summary :
    Project
    → List WorkItem
    → List Role
    → List ProjectSkill
    → List MemoryEntry
    → List MemoryCandidate
    → ProjectSetupReadinessSummary
unfolding count active_root
setup_summary project work_items roles skills entries candidates = record {
  work_item_count = length work_items;
  role_count = length roles;
  skill_count = length skills;
  enabled_context_source_count = count (λ (c : Source). c.enabled) project.context_sources;
  saved_memory_count = length entries;
  pending_memory_candidate_count = count (λ c. c.status == CandidateStatus.pending) candidates;
  has_purpose = not (trim_space project.description == "");
  has_active_root = has_active_root project;
}

-- `projectSetupReadinessAction`
abbrev pub setup_action : String → String → String → ProjectSetupReadinessAction
setup_action kind project_id label = record { kind = kind; project_id = project_id; label = label }

-- `projectSetupCheck`
unfoldable pub setup_check :
    String
    → String
    → String
    → Bool
    → Bool
    → ProjectSetupReadinessAction
    → String
    → ProjectSetupReadinessCheck
setup_check id label detail done optional action fallback_detail = record {
  id = id;
  label = label;
  detail = if trim_space detail == "" then fallback_detail else trim_space detail;
  status = if done then "ready" else if optional then "optional" else "todo";
  optional = optional;
  action = if not done && not optional then some action else none;
}

-- `projectSetupWorkspaceCheck`, for the active root
unfoldable pub workspace_check : Option Root → ProjectSetupReadinessCheck
workspace_check (some root) = record {
  id = "workspace_source";
  label = "Workspace source";
  detail = root.path;
  status = "ready";
  optional = true;
  action = none;
}
workspace_check none = record {
  id = "workspace_source";
  label = "Workspace source";
  detail = "Optional; attach files when this project needs them.";
  status = "optional";
  optional = true;
  action = none;
}

-- `projectSetupCountLabel`
unfoldable count_label : ℕ → String → String
count_label n singular = if n == 1 then "1 " ++ singular else decimal n ++ " " ++ pluralize singular

abbrev label_if_any : ℕ → String → List String → List String
label_if_any n singular rest = if ltb 0 n then count_label n singular ∷ rest else rest

-- `projectSetupGuidanceDetail`
unfoldable pub guidance_detail : ProjectSetupReadinessSummary → Project → String
unfolding count_label join active_root
guidance_detail summary project =
    let parts : List String = label_if_any summary.enabled_context_source_count "source" (
      label_if_any summary.skill_count "skill" (
        label_if_any summary.saved_memory_count "memory"
          (label_if_any summary.pending_memory_candidate_count "candidate" []))) in
    if ltb 0 (length parts)
    then join " · " parts
    else if has_active_root project
    then "Discover workspace guidance or add project memory before assigning work."
    else "Add context sources or memory when useful for this project."

-- `projectSetupRoleDetail`
unfoldable pub role_detail : ProjectSetupReadinessSummary → String
unfolding count_label
role_detail summary =
    if ltb 0 summary.role_count
    then count_label summary.role_count "role"
    else "Create responsibilities such as operator, implementer, reviewer, researcher, or designer."

-- `projectSetupFirstWorkDetail`
unfoldable pub first_work_detail : ProjectSetupReadinessSummary → String
unfolding count_label
first_work_detail summary =
    if ltb 0 summary.work_item_count
    then count_label summary.work_item_count "work item"
    else "Create the first reviewable task after setup."

abbrev pub has_context : ProjectSetupReadinessSummary → Bool
has_context summary =
    ltb 0 summary.enabled_context_source_count
    || ltb 0 summary.skill_count
    || ltb 0 summary.saved_memory_count
    || ltb 0 summary.pending_memory_candidate_count

-- `projectSetupReadinessChecks`
unfoldable pub setup_checks :
    Project → ProjectSetupReadinessSummary → List ProjectSetupReadinessCheck
unfolding setup_check workspace_check guidance_detail role_detail first_work_detail active_root
setup_checks project summary =
    setup_check "purpose" "Project purpose" (trim_space project.description) summary.has_purpose
      false (setup_action "update_project" project.id "Add purpose") "Add a short purpose."
    ∷ workspace_check (active_root project.roots)
    ∷ setup_check "sources_memory" "Sources and memory" (guidance_detail summary project)
        (has_context summary) false (setup_action "manage_context" project.id "Add context") ""
    ∷ setup_check "roles" "Roles" (role_detail summary) (ltb 0 summary.role_count) false
        (setup_action "manage_roles" project.id "Create role") ""
    ∷ setup_check "first_work_item" "First work item" (first_work_detail summary)
        (ltb 0 summary.work_item_count) false
        (setup_action "create_work_item" project.id "Create work item") ""
    ∷ []

-- `setupStarted`
abbrev has_started : ProjectSetupReadinessSummary → Bool
has_started summary =
    ltb 0 summary.enabled_context_source_count
    || ltb 0 summary.role_count
    || ltb 0 summary.skill_count
    || ltb 0 summary.saved_memory_count
    || ltb 0 summary.pending_memory_candidate_count

-- The answer for a summary.
unfoldable pub setup_of : Project → ProjectSetupReadinessSummary → Time → ProjectSetupReadiness
unfolding setup_checks
setup_of project summary now = record {
  project_id = project.id;
  show_onboarding = summary.work_item_count == 0 && not (has_started summary);
  setup_started = has_started summary;
  first_work_ready = summary.work_item_count == 0 && has_started summary;
  summary = summary;
  primary_action = setup_action "setup_project" project.id "Set up project";
  checks = setup_checks project summary;
  created_at = now;
}

-- `ProjectSetupReadiness`, the service's method
unfoldable pub project_setup_readiness : Store → Time → String → Result ProjectSetupReadiness
unfolding get_project setup_summary setup_of
project_setup_readiness s now project_id = do
  let p = trim_space project_id
  reject (p == "") (invalid "project_id is required")
  project ← get_project s p
  work_items ← list_work_items s p
  roles ← list_roles s p
  skills ← list_project_skills s p
  entries ← list_memory_entries s p true
  candidates ←
      list_memory_candidates s (record { project_id = p; status = ""; include_resolved = false })
  ok (setup_of project (setup_summary project work_items roles skills entries candidates) now)

-- ===== src/Reports/Onboarding.antt =====
-- What the setup report of a project says, in terms of what the store lists.
use cairnline.Base.{
  ◌<◌, String, Bool, true, false, not, ◌≡◌, ◌↔◌, ◌⊎◌, none, ◌∙◌, sym, refl, arith, List, [], ◌∷◌,
  Option, some, is_some, ok, ◌==◌, string_eq, ltb,
}
use cairnline.Base.Lists.{length, count, count-Has}
use cairnline.Base.Sorting.{Has}
use cairnline.Base.Trim.{trim_space, is_blank}
use cairnline.Model.Clock.{Time}
use cairnline.Model.Memory.{MemoryEntry, MemoryCandidate, CandidateStatus, status_eq}
use cairnline.Model.Project.{Project, ProjectSkill, Root, Source}
use cairnline.Model.Work.{Role, WorkItem}
use cairnline.MemoryStore.State.{Store, project_at}
use cairnline.MemoryStore.Projects.{get_project}
use cairnline.MemoryStore.Lists.{
  list_work_items, list_roles, list_project_skills, list_memory_entries, list_memory_candidates,
}
use cairnline.MemoryStore.Listing.{
  list_work_items-ok, list_roles-ok, list_project_skills-ok, list_memory_entries-ok,
  list_memory_candidates-ok,
}
use cairnline.Reports.Setup.{
  ProjectSetupReadinessAction, ProjectSetupReadinessSummary, ProjectSetupReadinessCheck,
  ProjectSetupReadiness, active_root, setup_summary, setup_action, setup_check, workspace_check,
  has_context, setup_checks, setup_of, project_setup_readiness, guidance_detail, role_detail,
  first_work_detail,
}

abbrev is_todo : ProjectSetupReadinessCheck → Bool
is_todo c = c.status == "todo"

-- A check offers an action just when it is still to do.
abbrev IsOffered : List ProjectSetupReadinessCheck → Type 0
IsOffered [] = Unit
IsOffered (c ∷ rest) = (is_some c.action ≡ is_todo c) × IsOffered rest

check-offered :
    (id label detail fallback_detail : String) (done : Bool) (action : ProjectSetupReadinessAction)
    → (is_some (setup_check id label detail done false action fallback_detail).action ≡ not done)
      × (is_todo (setup_check id label detail done false action fallback_detail) ≡ not done)
unfolding setup_check
check-offered id label detail fallback_detail true action = (refl, refl)
check-offered id label detail fallback_detail false action = (refl, refl)

workspace-offered :
    (root : Option Root)
    → (is_some (workspace_check root).action ≡ false) × (is_todo (workspace_check root) ≡ false)
unfolding workspace_check
workspace-offered none = (refl, refl)
workspace-offered (some root) = (refl, refl)

same : {a b c : Bool} → (a ≡ c) × (b ≡ c) → a ≡ b
same h = h.0 ∙ sym h.1

checks-IsOffered :
    (project : Project) (summary : ProjectSetupReadinessSummary)
    → IsOffered (setup_checks project summary)
      × ((count is_todo (setup_checks project summary) ≡ 0) ↔ (
          (summary.has_purpose ≡ true)
          × (has_context summary ≡ true)
          × (0 < summary.role_count)
          × (0 < summary.work_item_count)))
unfolding setup_checks count
checks-IsOffered project summary =
    let purpose =
      check-offered "purpose" "Project purpose" (trim_space project.description)
        "Add a short purpose." summary.has_purpose
        (setup_action "update_project" project.id "Add purpose") in
    let workspace = workspace-offered (active_root project.roots) in
    let context =
      check-offered "sources_memory" "Sources and memory" (guidance_detail summary project) ""
        (has_context summary) (setup_action "manage_context" project.id "Add context") in
    let roles =
      check-offered "roles" "Roles" (role_detail summary) "" (ltb 0 summary.role_count)
        (setup_action "manage_roles" project.id "Create role") in
    let work =
      check-offered "first_work_item" "First work item" (first_work_detail summary) ""
        (ltb 0 summary.work_item_count)
        (setup_action "create_work_item" project.id "Create work item") in
    (
      (same purpose, (same workspace, (same context, (same roles, (same work, tt))))),
      rw (purpose.1, workspace.1, context.1, roles.1, work.1) (ground arith),
    )

-- What the store lists of a project: disabled memory too, of the candidates the pending ones.
pub record Listed (s : Store) (p : String) : Type 0 where
  pub work_items : List WorkItem
  pub roles : List Role
  pub skills : List ProjectSkill
  pub entries : List MemoryEntry
  pub candidates : List MemoryCandidate
  pub listed_work_items : list_work_items s p ≡ ok work_items
  pub listed_roles : list_roles s p ≡ ok roles
  pub listed_skills : list_project_skills s p ≡ ok skills
  pub listed_entries : list_memory_entries s p true ≡ ok entries
  pub listed_candidates :
      list_memory_candidates s (record { project_id = p; status = ""; include_resolved = false })
      ≡ ok candidates

-- The project has an enabled context source, a skill, memory or a pending candidate of memory.
abbrev pub HasContext :
    Project → List ProjectSkill → List MemoryEntry → List MemoryCandidate → Type 0
HasContext project skills entries candidates =
    ((x : Source) × Has x project.context_sources × (x.enabled ≡ true))
    ⊎ ((0 < length skills)
        ⊎ ((0 < length entries)
            ⊎ ((c : MemoryCandidate) × Has c candidates × (c.status ≡ CandidateStatus.pending))))

pub record IsSetup (project : Project) (work_items : List WorkItem) (roles : List Role)
    (skills : List ProjectSkill) (entries : List MemoryEntry) (candidates : List MemoryCandidate)
    (r : ProjectSetupReadiness) : Type 0 where
  pub offered : IsOffered r.checks
  pub complete : (count is_todo r.checks ≡ 0) ↔ (
      (is_blank project.description ≡ false)
      × HasContext project skills entries candidates
      × (0 < length roles)
      × (0 < length work_items))
  pub onboarding : (r.show_onboarding ≡ true) ↔ (
      (length work_items ≡ 0)
      × (length roles ≡ 0)
      × (HasContext project skills entries candidates → ⊥))
  pub first_work : (r.first_work_ready ≡ true) ↔ (
      (length work_items ≡ 0) × ((0 < length roles) ⊎ HasContext project skills entries candidates))

module _ (project : Project) (work_items : List WorkItem) (roles : List Role)
    (skills : List ProjectSkill) (entries : List MemoryEntry) (candidates : List MemoryCandidate)
    (now : Time) where
  abbrev summary : ProjectSetupReadinessSummary
  summary = setup_summary project work_items roles skills entries candidates

  pending-Has :
      (0 < summary.pending_memory_candidate_count)
      ↔ ((c : MemoryCandidate) × Has c candidates × (c.status ≡ CandidateStatus.pending))
  unfolding setup_summary
  pending-Has =
      let any =
        count-Has (λ (c : MemoryCandidate). c.status == CandidateStatus.pending) candidates in
      (
        λ h.
            let found = any.0 h in
            (
              found.0,
              found.1,
              (status_eq.beq_iff found.0.status CandidateStatus.pending).0 found.2,
            ),
        λ found. any.1 (
          found.0,
          found.1,
          (status_eq.beq_iff found.0.status CandidateStatus.pending).1 found.2,
        ),
      )

  has_context-HasContext :
      (has_context summary ≡ true) ↔ HasContext project skills entries candidates
  unfolding setup_summary
  has_context-HasContext =
      ground (arith, pending-Has, count-Has (λ (x : Source). x.enabled) project.context_sources)

  setup_of-IsSetup :
      IsSetup project work_items roles skills entries candidates (setup_of project summary now)
  unfolding setup_of setup_summary
  setup_of-IsSetup =
      let checks = checks-IsOffered project summary in
      record {
        offered = checks.0;
        complete = ground (arith, checks.1, has_context-HasContext);
        onboarding = ground (arith, has_context-HasContext);
        first_work = ground (arith, has_context-HasContext);
      }

-- For a project that exists, the setup report is given. Each of its checks offers an action exactly
-- when it is still to do. None is to do exactly when the project's description is not blank, it has
-- a role and a work item, and it has an enabled context source, a skill, memory or a pending
-- candidate of memory. The onboarding is shown exactly when the project has none of these but
-- perhaps a description, and the first work is ready exactly when there is no work item and there
-- is a role or one of the other four.
pub project_setup_readiness-IsSetup :
    (s : Store) (now : Time) (project_id : String) (project : Project)
    → is_blank project_id ≡ false
    → project_at s (trim_space project_id) ≡ some project
    → (r : ProjectSetupReadiness) × (l : Listed s (trim_space project_id))
      × (project_setup_readiness s now project_id ≡ ok r)
      × IsSetup project l.work_items l.roles l.skills l.entries l.candidates r
unfolding project_setup_readiness get_project
project_setup_readiness-IsSetup s now project_id project named found =
    let p = trim_space project_id in
    let work_items = list_work_items-ok s p project found in
    let roles = list_roles-ok s p project found in
    let skills = list_project_skills-ok s p project found in
    let entries = list_memory_entries-ok s p project found true in
    let candidates = list_memory_candidates-ok s p project found "" false in
    let listed : Listed s p = record {
      work_items = work_items.0;
      roles = roles.0;
      skills = skills.0;
      entries = entries.0;
      candidates = candidates.0;
      listed_work_items = work_items.1;
      listed_roles = roles.1;
      listed_skills = skills.1;
      listed_entries = entries.1;
      listed_candidates = candidates.1;
    } in
    (
      setup_of project (setup_summary project work_items.0 roles.0 skills.0 entries.0 candidates.0)
          now,
      listed,
      rw (named, found, work_items.1, roles.1, skills.1, entries.1, candidates.1) refl,
      setup_of-IsSetup project work_items.0 roles.0 skills.0 entries.0 candidates.0 now,
    )

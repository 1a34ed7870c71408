-- ===== src/Service/Launch.antt =====
-- What a worker is handed with an assignment: `AssignmentContext` and `AssignmentLaunchPacket` of
-- internal/core/service.go.
use cairnline.Base.{
  String, false, not, Result, ok, err, not_found, List, [], ◌∷◌, ◌++◌, Option, none, some,
  if◌then◌else◌, ◌==◌, string_eq, ◌>>◌, ◌>>=◌,
}
use cairnline.Base.Ids.{append_unique}
use cairnline.Base.Texts.{compact_strings, join}
use cairnline.Base.Trim.{trim_space}
use cairnline.Model.Assignment.{Assignment}
use cairnline.Model.Clock.{Time}
use cairnline.Model.Collaboration.{Artifact, Evidence, Review}
use cairnline.Model.Handoff.{Handoff}
use cairnline.Model.Memory.{MemoryEntry, MemoryCandidate}
use cairnline.Model.Project.{Project, ProjectSkill}
use cairnline.Model.SkillId.{normalize_skill_id}
use cairnline.Model.Work.{Role, WorkItem}
use cairnline.MemoryStore.Assignments
use cairnline.MemoryStore.Lists
use cairnline.MemoryStore.Projects
use cairnline.MemoryStore.Roles
use cairnline.MemoryStore.Skills
use cairnline.MemoryStore.State.{Store}
use cairnline.MemoryStore.WorkItems
use cairnline.Service.Env.{Env}
use cairnline.Service.Normalize.{require_text}

pub record AssignmentContext : Type 0 where
  pub id : String
  pub project : Project
  pub work_item : WorkItem
  pub role : Option Role
  pub assignment : Assignment
  pub memory : List MemoryEntry
  pub warnings : List String
  pub created_at : Time

pub record AssignmentLaunchPacket : Type 0 where
  pub id : String
  pub kind : String
  pub project : Project
  pub work_item : WorkItem
  pub role : Option Role
  pub skills : List ProjectSkill
  pub assignment : Assignment
  pub artifacts : List Artifact
  pub evidence : List Evidence
  pub reviews : List Review
  pub handoffs : List Handoff
  pub memory : List MemoryEntry
  pub memory_candidates : List MemoryCandidate
  pub warnings : List String
  pub created_at : Time

-- A role that is gone is a warning; any other error ends the request.
abbrev pub role_or_warning : Result Role → Result (Option Role × List String)
role_or_warning (ok role) = ok (some role, [])
role_or_warning (err not_found) = ok (none, "assignment role was not found" ∷ [])
role_or_warning (err e) = err e

unfoldable pub assignment_role : Store → String → String → Result (Option Role × List String)
assignment_role s project_id role_id =
    if role_id == "" then ok (none, []) else role_or_warning (Roles.get_role s project_id role_id)

unfoldable pub assignment_context : Env → Store → String → String → Result AssignmentContext
unfolding assignment_role
assignment_context env s project_id id = do
  require_text (trim_space project_id) "project_id is required"
  require_text (trim_space id) "assignment_id is required"
  project ← Projects.get_project s (trim_space project_id)
  assignment ← Assignments.get_assignment s (trim_space project_id) (trim_space id)
  work_item ← WorkItems.get_work_item s (trim_space project_id) assignment.work_item_id
  (role, warnings) ← assignment_role s (trim_space project_id) assignment.role_id
  memory ← Lists.list_memory_entries s (trim_space project_id) false
  ok (record {
    id = env.new_id "ctx" 0;
    project = project;
    work_item = work_item;
    role = role;
    assignment = assignment;
    memory = memory;
    warnings = warnings;
    created_at = env.now;
  })

-- What the loop of `resolveLaunchPacketSkills` makes of a skill that was asked for.
abbrev pub judged :
    String
    → Result ProjectSkill
    → List ProjectSkill × List String
    → Result (List ProjectSkill × List String)
judged id (err not_found) (skills, warnings) =
    ok (skills, append_unique warnings (join "" ("skill was not found: " ∷ id ∷ [])))
judged id (err e) found = err e
judged id (ok skill) (skills, warnings) =
    if not skill.enabled
    then ok (skills, append_unique warnings (join "" ("skill is disabled: " ∷ id ∷ [])))
    else if not (skill.status == "available")
    then ok (
      skills,
      append_unique warnings
          (join "" ("skill is not available: " ∷ id ∷ " (" ∷ skill.status ∷ ")" ∷ [])),
    )
    else ok (skills ++ skill ∷ [], warnings)

abbrev pub default_skills : Option Role → List String
default_skills none = []
default_skills (some role) = role.default_skill_ids

module _ (env : Env) where
  unfoldable pub resolve_skill :
      Store
      → String
      → String
      → List ProjectSkill × List String
      → Result (List ProjectSkill × List String)
  unfolding normalize_skill_id append_unique join
  resolve_skill s project_id given (skills, warnings) =
      let id = normalize_skill_id env.to_lower given in
      if id == ""
      then ok (skills, append_unique warnings (join "" ("skill id is invalid: " ∷ given ∷ [])))
      else judged id (Skills.get_project_skill s project_id id) (skills, warnings)

  unfoldable pub resolve_skills :
      Store
      → String
      → List String
      → List ProjectSkill × List String
      → Result (List ProjectSkill × List String)
  unfolding resolve_skill
  resolve_skills s project_id [] found = ok found
  resolve_skills s project_id (given ∷ rest) found = do
    next ← resolve_skill s project_id given found
    resolve_skills s project_id rest next

  unfoldable pub resolve_launch_packet_skills :
      Store → String → Assignment → Option Role → Result (List ProjectSkill × List String)
  unfolding compact_strings resolve_skills
  resolve_launch_packet_skills s project_id assignment role =
      resolve_skills s project_id
        (compact_strings (assignment.desired_agent.skill_ids ++ default_skills role)) ([], [])

  unfoldable pub assignment_launch_packet : Store → String → String → Result AssignmentLaunchPacket
  unfolding assignment_context resolve_launch_packet_skills
  assignment_launch_packet s project_id id = do
    c ← assignment_context env s project_id id
    artifacts ← Lists.list_artifacts s c.project.id c.work_item.id
    evidence ← Lists.list_evidence s c.project.id c.work_item.id
    reviews ← Lists.list_reviews s c.project.id c.work_item.id
    handoffs ← Lists.list_handoffs s c.project.id c.work_item.id
    memory ← Lists.list_memory_entries s c.project.id false
    candidates ←
        Lists.list_memory_candidates s
          (record { project_id = c.project.id; status = ""; include_resolved = false })
    (skills, skill_warnings) ← resolve_launch_packet_skills s c.project.id c.assignment c.role
    ok (record {
      id = env.new_id "launch" 0;
      kind = "assignment_launch_packet";
      project = c.project;
      work_item = c.work_item;
      role = c.role;
      skills = skills;
      assignment = c.assignment;
      artifacts = artifacts;
      evidence = evidence;
      reviews = reviews;
      handoffs = handoffs;
      memory = memory;
      memory_candidates = candidates;
      warnings = c.warnings ++ skill_warnings;
      created_at = env.now;
    })

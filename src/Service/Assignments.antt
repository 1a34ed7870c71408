-- ===== src/Service/Assignments.antt =====
-- Assignments in internal/core/service.go: listing, creation, the edit of a queued assignment, and
-- the queue that a worker sees.
use cairnline.Base.{
  ℕ, String, Bool, false, Result, ok, invalid, reject, List, [], ◌∷◌, if◌then◌else◌, ◌==◌, ◌&&◌,
  ◌||◌, not, none, string_eq, nat_eq, ◌>>◌, ◌>>=◌,
}
use cairnline.Base.Lists.{filter, map, take, is_nil}
use cairnline.Base.Text.{first_non_empty}
use cairnline.Base.Texts.{compact_strings}
use cairnline.Base.Trim.{trim_space}
use cairnline.Model.Assignment.{
  queued, status_text, Assignment, AssignmentCoordination, QueuedAssignmentUpdate,
}
use cairnline.Model.Clock.{is_zero}
use cairnline.Model.SkillId.{normalize_skill_id}
use cairnline.MemoryStore.Assignments
use cairnline.MemoryStore.Lists
use cairnline.MemoryStore.Roles
use cairnline.MemoryStore.State.{Store}
use cairnline.MemoryStore.WorkItems
use cairnline.Service.Env.{Env}
use cairnline.Service.Normalize.{
  require_text, trimmed_or, stamp_or, contains_string_value, normalize_execution_mode,
  normalize_execution_ref, normalize_desired_agent, assignment_agent_kind_matches,
  assignment_skills_match,
}
use cairnline.Service.WorkItems.{validate_project_root}

-- `limit` is 0 where the request sets none.
pub record AssignmentCompatibilityFilter : Type 0 where
  pub status : String
  pub execution_modes : List String
  pub agent_kind : String
  pub skill_ids : List String
  pub filter_skills : Bool
  pub limit : ℕ

unfoldable pub list_assignments : Store → String → Result (List Assignment)
list_assignments s project_id = do
  require_text (trim_space project_id) "project_id is required"
  Lists.list_assignments s (trim_space project_id)

unfoldable pub get_assignment : Store → String → String → Result Assignment
get_assignment s project_id id = do
  require_text (trim_space project_id) "project_id is required"
  require_text (trim_space id) "assignment_id is required"
  Assignments.get_assignment s (trim_space project_id) (trim_space id)

-- The modes that the filter names, by default the one of MCP workers.
unfoldable pub wanted_modes : List String → List String
unfolding compact_strings
wanted_modes modes =
    let given = compact_strings modes in if is_nil given then "mcp_pull" ∷ [] else given

unfoldable pub validate_modes : List String → Result (Unit {0})
unfolding normalize_execution_mode
validate_modes [] = ok tt
validate_modes (mode ∷ rest) = do _ ← normalize_execution_mode mode false; validate_modes rest

module _ (to_lower : String → String) where
  -- The worker's skills; an id without a letter or digit is none.
  unfoldable pub skill_set : List String → List String
  unfolding compact_strings normalize_skill_id filter map
  skill_set ids =
      filter (λ id. not (id == "")) (map (normalize_skill_id to_lower) (compact_strings ids))

  -- The tests of the loop in `ListCompatibleAssignments`.
  unfoldable pub is_compatible : AssignmentCompatibilityFilter → Assignment → Bool
  unfolding skill_set wanted_modes assignment_agent_kind_matches assignment_skills_match
  is_compatible f item =
      status_text item.status == trimmed_or f.status "queued"
      && contains_string_value (wanted_modes f.execution_modes) item.execution_mode
      && assignment_agent_kind_matches item.desired_agent.kind f.agent_kind
      && (not f.filter_skills
          || assignment_skills_match to_lower item.desired_agent.skill_ids (skill_set f.skill_ids))

  unfoldable pub list_compatible_assignments :
      Store → String → AssignmentCompatibilityFilter → Result (List Assignment)
  unfolding wanted_modes validate_modes is_compatible filter take
  list_compatible_assignments s project_id f = do
    require_text (trim_space project_id) "project_id is required"
    validate_modes (wanted_modes f.execution_modes)
    items ← Lists.list_assignments s (trim_space project_id)
    let found = filter (is_compatible f) items
    ok (if f.limit == 0 then found else take f.limit found)

-- The assignment that `CreateAssignment` stores: queued, and without a claim.
unfoldable pub assignment_of : Env → String → String → Assignment → Assignment
unfolding normalize_desired_agent normalize_execution_ref
assignment_of env id execution_mode input =
    let created_at = stamp_or input.created_at env.now in
    record {
      id = id;
      project_id = trim_space input.project_id;
      work_item_id = trim_space input.work_item_id;
      role_id = trim_space input.role_id;
      root_id = trim_space input.root_id;
      execution_mode = execution_mode;
      status = queued;
      desired_agent = normalize_desired_agent input.desired_agent;
      claimed_by = "";
      claim = none;
      execution_ref = normalize_execution_ref input.execution_ref;
      context_snapshot_id = trim_space input.context_snapshot_id;
      created_at = created_at;
      updated_at = stamp_or input.updated_at created_at;
      started_at = input.started_at;
      completed_at = input.completed_at;
    }

unfoldable pub create_assignment : Env → Store → Assignment → Result (Assignment × Store)
unfolding validate_project_root normalize_execution_mode assignment_of
create_assignment env s input = do
  require_text (trim_space input.project_id) "project_id is required"
  require_text (trim_space input.work_item_id) "work_item_id is required"
  require_text (trim_space input.role_id) "role_id is required"
  validate_project_root s (trim_space input.project_id) (trim_space input.root_id)
  _ ← WorkItems.get_work_item s (trim_space input.project_id) (trim_space input.work_item_id)
  _ ← Roles.get_role s (trim_space input.project_id) (trim_space input.role_id)
  mode ← normalize_execution_mode input.execution_mode false
  Assignments.create_assignment s
      (assignment_of env (first_non_empty (trim_space input.id) (env.new_id "asgn" 0)) mode input)

-- `normalize` in `normalizeQueuedAssignmentUpdate`
unfoldable pub normalize_coordination : AssignmentCoordination → Result AssignmentCoordination
unfolding normalize_execution_mode normalize_desired_agent
normalize_coordination c = do
  require_text (trim_space c.work_item_id) "work_item_id is required"
  require_text (trim_space c.role_id) "role_id is required"
  mode ← normalize_execution_mode c.execution_mode false
  ok (record {
    work_item_id = trim_space c.work_item_id;
    role_id = trim_space c.role_id;
    root_id = trim_space c.root_id;
    execution_mode = mode;
    desired_agent = normalize_desired_agent c.desired_agent;
  })

unfoldable pub normalize_queued_assignment_update :
    QueuedAssignmentUpdate → Result QueuedAssignmentUpdate
unfolding normalize_coordination
normalize_queued_assignment_update update = do
  reject (is_zero update.expected_updated_at) (invalid "expected_updated_at is required")
  expected ← normalize_coordination update.expected
  replacement ← normalize_coordination update.replacement
  ok (record update { expected = expected; replacement = replacement })

unfoldable pub update_queued_assignment :
    Env → Store → String → String → QueuedAssignmentUpdate → Result (Assignment × Store)
unfolding normalize_queued_assignment_update validate_project_root
update_queued_assignment env s project_id id update = do
  require_text (trim_space project_id) "project_id is required"
  require_text (trim_space id) "assignment_id is required"
  normalized ← normalize_queued_assignment_update update
  validate_project_root s (trim_space project_id) normalized.replacement.root_id
  _ ← WorkItems.get_work_item s (trim_space project_id) normalized.replacement.work_item_id
  _ ← Roles.get_role s (trim_space project_id) normalized.replacement.role_id
  Assignments.update_queued_assignment s (trim_space project_id) (trim_space id) normalized env.now

unfoldable pub delete_assignment : Store → String → String → Result Store
delete_assignment s project_id id = do
  require_text (trim_space project_id) "project_id is required"
  require_text (trim_space id) "assignment_id is required"
  Assignments.delete_assignment s (trim_space project_id) (trim_space id)

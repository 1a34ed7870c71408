-- ===== src/Service/WorkItems.antt =====
-- Work items in internal/core/service.go: the root and the roles that one names must exist.
use cairnline.Base.{
  String, Result, ok, not_found, guard, List, [], ◌∷◌, if◌then◌else◌, ◌==◌, string_eq, ◌>>◌, ◌>>=◌,
}
use cairnline.Base.Lists.{any}
use cairnline.Base.Text.{first_non_empty}
use cairnline.Base.Texts.{compact_strings}
use cairnline.Base.Trim.{trim_space}
use cairnline.Model.Clock.{Time}
use cairnline.Model.Project.{Root}
use cairnline.Model.Work.{WorkItem}
use cairnline.MemoryStore.Lists
use cairnline.MemoryStore.Projects
use cairnline.MemoryStore.Roles
use cairnline.MemoryStore.State.{Store}
use cairnline.MemoryStore.WorkItems
use cairnline.Service.Env.{Env}
use cairnline.Service.Normalize.{require_text, trimmed_or}

-- `validateProjectRoot`
unfoldable pub validate_project_root : Store → String → String → Result (Unit {0})
validate_project_root s project_id root_id =
    let id = trim_space root_id in
    if id == "" then ok tt else (do
      project ← Projects.get_project s project_id
      guard (any (λ (root : Root). root.id == id) project.roots) not_found)

unfoldable pub validate_project_role_ref : Store → String → String → Result (Unit {0})
validate_project_role_ref s project_id role_id =
    let id = trim_space role_id in
    if id == "" then ok tt else (do _ ← Roles.get_role s project_id id; ok tt)

-- The loop over the reviewers in `validateProjectRoleRefs`.
unfoldable pub validate_role_refs : Store → String → List String → Result (Unit {0})
unfolding validate_project_role_ref
validate_role_refs s project_id [] = ok tt
validate_role_refs s project_id (role_id ∷ rest) = do
  validate_project_role_ref s project_id role_id
  validate_role_refs s project_id rest

unfoldable pub validate_project_role_refs :
    Store → String → String → List String → Result (Unit {0})
unfolding validate_role_refs validate_project_role_ref
validate_project_role_refs s project_id owner reviewers = do
  validate_project_role_ref s project_id owner
  validate_role_refs s project_id reviewers

unfoldable pub list_work_items : Store → String → Result (List WorkItem)
list_work_items s project_id = do
  require_text (trim_space project_id) "project_id is required"
  Lists.list_work_items s (trim_space project_id)

unfoldable pub get_work_item : Store → String → String → Result WorkItem
get_work_item s project_id id = do
  require_text (trim_space project_id) "project_id is required"
  require_text (trim_space id) "work_item_id is required"
  WorkItems.get_work_item s (trim_space project_id) (trim_space id)

-- The work item that a request stores.
unfoldable pub work_item_of : String → Time → Time → WorkItem → WorkItem
unfolding compact_strings
work_item_of id created_at updated_at input = record {
  id = id;
  project_id = trim_space input.project_id;
  title = trim_space input.title;
  brief = trim_space input.brief;
  status = trimmed_or input.status "ready";
  priority = trimmed_or input.priority "normal";
  owner_role_id = trim_space input.owner_role_id;
  reviewer_role_ids = compact_strings input.reviewer_role_ids;
  root_id = trim_space input.root_id;
  created_at = created_at;
  updated_at = updated_at;
}

-- The checks of the root and the roles that the request names.
unfoldable pub validate_work_item_refs : Store → WorkItem → Result (Unit {0})
unfolding validate_project_root validate_project_role_refs compact_strings
validate_work_item_refs s input = do
  validate_project_root s (trim_space input.project_id) (trim_space input.root_id)
  validate_project_role_refs s (trim_space input.project_id) (trim_space input.owner_role_id)
      (compact_strings input.reviewer_role_ids)

module _ (env : Env) where
  unfoldable pub create_work_item : Store → WorkItem → Result (WorkItem × Store)
  unfolding validate_work_item_refs work_item_of
  create_work_item s input = do
    require_text (trim_space input.project_id) "project_id is required"
    require_text (trim_space input.title) "work item title is required"
    validate_work_item_refs s input
    WorkItems.create_work_item s (
        work_item_of (first_non_empty (trim_space input.id) (env.new_id "work" 0)) env.now env.now
          input)

  unfoldable pub update_work_item : Store → WorkItem → Result (WorkItem × Store)
  unfolding validate_work_item_refs work_item_of
  update_work_item s input = do
    require_text (trim_space input.project_id) "project_id is required"
    require_text (trim_space input.id) "work_item_id is required"
    require_text (trim_space input.title) "work item title is required"
    existing ← WorkItems.get_work_item s (trim_space input.project_id) (trim_space input.id)
    validate_work_item_refs s input
    WorkItems.update_work_item s
        (work_item_of (trim_space input.id) existing.created_at env.now input)

unfoldable pub delete_work_item : Store → String → String → Result Store
delete_work_item s project_id id = do
  require_text (trim_space project_id) "project_id is required"
  require_text (trim_space id) "work_item_id is required"
  WorkItems.delete_work_item s (trim_space project_id) (trim_space id)

-- ===== src/Service/Roots.antt =====
-- The roots of a project in internal/core/service.go: each command reads the project, edits its list
-- of roots and hands the project to `UpdateProject`. `UpdateRoot` edits the list that the store holds,
-- the others a copy.
use cairnline.Base.{
  String, Bool, true, false, Result, ok, err, not_found, duplicate, reject, List, [], ◌∷◌, ◌++◌,
  if◌then◌else◌, ◌==◌, string_eq, not, ◌>>◌, ◌>>=◌,
}
use cairnline.Base.Lists.{any, filter}
use cairnline.Base.Text.{first_non_empty}
use cairnline.Base.Trim.{trim_space}
use cairnline.Model.Project.{Root, Project}
use cairnline.MemoryStore.State.{Store}
use cairnline.Service.Env.{Env}
use cairnline.Service.Normalize.{require_text}
use cairnline.Service.Projects.{root_of, get_project, update_project, Reply, commit, commit_shared}

unfoldable pub find_project_root : List Root → String → Result Root
find_project_root [] id = err not_found
find_project_root (root ∷ rest) id =
    let later = find_project_root rest id in
    if trim_space root.id == trim_space id then ok root else later

-- The first root with the id gives way to the other.
unfoldable pub replace_root : String → Root → List Root → List Root
replace_root id item [] = []
replace_root id item (root ∷ rest) =
    let later = replace_root id item rest in
    if trim_space root.id == id then item ∷ rest else root ∷ later

unfoldable pub list_roots : Store → String → Result (List Root)
unfolding get_project
list_roots s project_id = do project ← get_project s project_id; ok project.roots

unfoldable pub get_root : Store → String → String → Result Root
unfolding list_roots find_project_root
get_root s project_id id = do
  require_text (trim_space id) "root id is required"
  roots ← list_roots s project_id
  find_project_root roots (trim_space id)

module _ (env : Env) where
  unfoldable pub normalize_project_root : Root → Bool → Result Root
  unfolding root_of
  normalize_project_root input creating =
      let given = trim_space input.id in
      let id = if creating then first_non_empty given (env.new_id "root" 0) else given in
      do
        require_text id "root id is required"
        require_text (trim_space input.path) "root path is required"
        ok (root_of env id (trim_space input.path) input)

  -- What `CreateRoot` hands to `UpdateProject`, and where it finds its answer.
  unfoldable pub created_root : Store → String → Root → Result (Project × (Project → Result Root))
  unfolding get_project normalize_project_root find_project_root
  created_root s project_id input = do
    project ← get_project s project_id
    item ← normalize_project_root input true
    reject (any (λ (root : Root). trim_space root.id == item.id) project.roots) duplicate
    ok (
      record project { roots = project.roots ++ item ∷ [] },
      λ updated. find_project_root updated.roots item.id,
    )

  unfoldable pub create_root : Store → String → Root → Reply (Project × Root)
  unfolding created_root update_project
  create_root s project_id input = commit env s (created_root s project_id input)

  -- The project as `UpdateRoot` has edited it, in place, when it calls `UpdateProject`.
  unfoldable pub updated_root :
      Store → String → String → Root → Result (Project × (Project → Result Root))
  unfolding get_project normalize_project_root find_project_root replace_root
  updated_root s project_id id input = do
    require_text (trim_space id) "root id is required"
    project ← get_project s project_id
    _ ← find_project_root project.roots (trim_space id)
    item ← normalize_project_root (record input { id = trim_space id }) false
    ok (
      record project { roots = replace_root (trim_space id) item project.roots },
      λ updated. find_project_root updated.roots (trim_space id),
    )

  unfoldable pub update_root : Store → String → String → Root → Reply (Project × Root)
  unfolding updated_root update_project
  update_root s project_id id input =
      commit_shared env s (trim_space project_id) (updated_root s project_id id input)

-- The project without the root, as it is handed to `UpdateProject`.
unfoldable pub without_root : String → Project → Project
unfolding filter
without_root id project = record project {
  roots = filter (λ (root : Root). not (trim_space root.id == id)) project.roots;
  default_root_id =
      if trim_space project.default_root_id == id then "" else project.default_root_id;
}

-- `DeleteRoot` answers with the root that it found before.
unfoldable pub deleted_root : Store → String → String → Result (Project × (Project → Result Root))
unfolding get_project find_project_root without_root
deleted_root s project_id id = do
  require_text (trim_space id) "root id is required"
  project ← get_project s project_id
  deleted ← find_project_root project.roots (trim_space id)
  ok (without_root (trim_space id) project, λ updated. ok deleted)

unfoldable pub delete_root : Env → Store → String → String → Reply (Project × Root)
unfolding deleted_root update_project
delete_root env s project_id id = commit env s (deleted_root s project_id id)

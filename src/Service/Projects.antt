-- ===== src/Service/Projects.antt =====
-- Projects in internal/core/service.go. A request normalises the roots and the sources that it
-- carries, and the default root must be one of the roots.
use cairnline.Base.{
  ℕ, suc, String, Bool, not, ◌&&◌, Result, ok, err, not_found, List, [], ◌∷◌, Option, none, some,
  if◌then◌else◌, ◌==◌, string_eq, nat_eq, ◌>>◌, ◌>>=◌,
}
use cairnline.Base.Lists.{any}
use cairnline.Base.Table
use cairnline.Base.Text.{first_non_empty}
use cairnline.Base.Trim.{trim_space}
use cairnline.Model.Clock.{Time}
use cairnline.Model.Project.{Root, Source, Project}
use cairnline.MemoryStore.Projects
use cairnline.MemoryStore.State.{Store, key_eq}
use cairnline.Service.Env.{Env}
use cairnline.Service.Normalize.{require_text, stamp_or, normalize_string_map}

module _ (env : Env) where
  -- The root that is stored for an input with this id and this trimmed path.
  unfoldable pub root_of : String → String → Root → Root
  root_of id path input = record {
    id = id;
    path = env.clean path;
    kind = trim_space input.kind;
    git_remote = trim_space input.git_remote;
    git_branch = trim_space input.git_branch;
    active = input.active;
  }

  -- The loop of `normalizeRoots` from place `n`: a root without a path is dropped.
  unfoldable pub roots_from : ℕ → List Root → List Root
  unfolding root_of
  roots_from n [] = []
  roots_from n (value ∷ rest) =
      let more = roots_from (suc n) rest in
      let path = trim_space value.path in
      let id = first_non_empty (trim_space value.id) (env.new_id "root" n) in
      if path == "" then more else root_of id path value ∷ more

  unfoldable pub normalize_roots : List Root → List Root
  unfolding roots_from
  normalize_roots values = roots_from 0 values

-- The last of the sources with an id, as the map of `existingSourcesByID` holds it.
unfoldable pub existing_source : List Source → String → Option Source
existing_source [] id = none
existing_source (value ∷ rest) id = elim (existing_source rest id) [
  | some later ↦ some later
  | none ↦ if trim_space value.id == id && not (trim_space value.id == "") then some value else none
]

-- `if prior, ok := existing[id]; ok { createdAt = prior.CreatedAt }`
abbrev pub prior_stamp : Option Source → Time
prior_stamp none = 0
prior_stamp (some prior) = prior.created_at

module _ (env : Env) where
  -- The source that `normalizeSources` appends.
  unfoldable pub source_of : String → Source → List Source → Source
  unfolding existing_source normalize_string_map
  source_of id value existing = record {
    id = id;
    kind = trim_space value.kind;
    title = trim_space value.title;
    locator = trim_space value.locator;
    enabled = value.enabled;
    format = trim_space value.format;
    scope = trim_space value.scope;
    trust_label = trim_space value.trust_label;
    source_category = trim_space value.source_category;
    metadata = normalize_string_map value.metadata;
    created_at =
        stamp_or (stamp_or value.created_at (prior_stamp (existing_source existing id))) env.now;
    updated_at = stamp_or value.updated_at env.now;
  }

  -- `id == "" && kind == "" && title == "" && locator == ""`
  abbrev pub is_empty_source : Source → Bool
  is_empty_source value =
      trim_space value.id == ""
      && trim_space value.kind == ""
      && trim_space value.title == ""
      && trim_space value.locator == ""

  unfoldable pub sources_from : ℕ → List Source → List Source → List Source
  unfolding source_of
  sources_from n [] existing = []
  sources_from n (value ∷ rest) existing =
      let more = sources_from (suc n) rest existing in
      let id = first_non_empty (trim_space value.id) (env.new_id "src" n) in
      if is_empty_source value then more else source_of id value existing ∷ more

  unfoldable pub normalize_sources : List Source → List Source → List Source
  unfolding sources_from
  normalize_sources values existing = sources_from 0 values existing

unfoldable pub normalize_default_root_id : String → List Root → Result String
normalize_default_root_id value [] = if trim_space value == "" then ok "" else err not_found
normalize_default_root_id value (first ∷ rest) =
    let id = trim_space value in
    if id == ""
    then ok first.id
    else if any (λ (root : Root). root.id == id) (first ∷ rest)
    then ok id
    else err not_found

unfoldable pub get_project : Store → String → Result Project
get_project s id = do
  require_text (trim_space id) "project id is required"
  Projects.get_project s (trim_space id)

unfoldable pub delete_project : Store → String → Result Store
delete_project s id = do
  require_text (trim_space id) "project id is required"
  Projects.delete_project s (trim_space id)

module _ (env : Env) where
  -- The project that a request stores, once its default root is settled.
  unfoldable pub project_of : String → Project → List Source → Time → String → Project
  unfolding normalize_roots normalize_sources
  project_of id input existing created_at default_root_id = record {
    id = id;
    name = trim_space input.name;
    description = trim_space input.description;
    roots = normalize_roots env input.roots;
    default_root_id = default_root_id;
    context_sources = normalize_sources env input.context_sources existing;
    created_at = created_at;
    updated_at = env.now;
  }

  unfoldable pub create_project : Store → Project → Result (Project × Store)
  unfolding normalize_default_root_id project_of normalize_roots
  create_project s input = do
    require_text (trim_space input.name) "project name is required"
    default_root_id ←
        normalize_default_root_id input.default_root_id (normalize_roots env input.roots)
    Projects.create_project s (
        project_of (first_non_empty (trim_space input.id) (env.new_id "proj" 0)) input [] env.now
          default_root_id)

  unfoldable pub update_project : Store → Project → Result (Project × Store)
  unfolding normalize_default_root_id project_of normalize_roots
  update_project s input = do
    require_text (trim_space input.id) "project id is required"
    require_text (trim_space input.name) "project name is required"
    existing ← Projects.get_project s (trim_space input.id)
    default_root_id ←
        normalize_default_root_id input.default_root_id (normalize_roots env input.roots)
    Projects.update_project s (
        project_of (trim_space input.id) input existing.context_sources existing.created_at
          default_root_id)

-- An answer with the store that the request leaves: a command on a root or a source may fail after
-- it has written the project.
abbrev pub Reply : Type 0 → Type 0
Reply A = Result A × Store

abbrev pub picked : {A : Type 0} → Project → Result A → Result (Project × A)
picked project (ok a) = ok (project, a)
picked project (err e) = err e

-- `updated, err := s.UpdateProject(ctx, project)`, and what is then looked up in the updated project
abbrev pub updated_reply :
    {A : Type 0} → Store → Result (Project × Store) → (Project → Result A) → Reply (Project × A)
updated_reply s (err e) pick = (err e, s)
updated_reply s (ok (updated, t)) pick = (picked updated (pick updated), t)

-- The end of a command that has edited the project, or has failed to.
abbrev pub commit :
    {A : Type 0} → Env → Store → Result (Project × (Project → Result A)) → Reply (Project × A)
commit env s (err e) = (err e, s)
commit env s (ok (project, pick)) = updated_reply s (update_project env s project) pick

-- `project.Roots[idx] = item`, and the like for a source: the store's `GetProject` hands out its
-- project with the slices of roots and sources shared, so that the write changes the stored project
-- too, before `UpdateProject` is called.
abbrev pub write_through : String → Project → Store → Store
write_through id project s = record s { projects = Table.put id project s.projects }

-- The end of a command that has written into the project it was handed by the store.
abbrev pub commit_shared :
    {A : Type 0}
    → Env
    → Store
    → String
    → Result (Project × (Project → Result A))
    → Reply (Project × A)
commit_shared env s id (err e) = (err e, s)
commit_shared env s id (ok (project, pick)) =
    commit env (write_through id project s) (ok (project, pick))

-- ===== src/Service/Sources.antt =====
-- The context sources of a project in internal/core/service.go, edited the way its roots are.
use cairnline.Base.{
  String, Bool, true, false, Result, ok, err, not_found, duplicate, reject, List, [], ◌∷◌, ◌++◌,
  if◌then◌else◌, ◌==◌, string_eq, nat_eq, not, ◌>>◌, ◌>>=◌,
}
use cairnline.Base.Lists.{any, filter}
use cairnline.Base.Text.{first_non_empty}
use cairnline.Base.Trim.{trim_space}
use cairnline.Model.Clock.{Time}
use cairnline.Model.Project.{Source, Project}
use cairnline.MemoryStore.State.{Store}
use cairnline.Service.Env.{Env}
use cairnline.Service.Normalize.{require_text, trimmed_or, stamp_or, normalize_string_map}
use cairnline.Service.Projects.{get_project, update_project, Reply, commit, commit_shared}

unfoldable pub find_context_source : List Source → String → Result Source
find_context_source [] id = err not_found
find_context_source (source ∷ rest) id =
    let later = find_context_source rest id in
    if trim_space source.id == trim_space id then ok source else later

-- The first source with the id gives way to the other.
unfoldable pub replace_source : String → Source → List Source → List Source
replace_source id item [] = []
replace_source id item (source ∷ rest) =
    let later = replace_source id item rest in
    if trim_space source.id == id then item ∷ rest else source ∷ later

unfoldable pub list_context_sources : Store → String → Result (List Source)
unfolding get_project
list_context_sources s project_id = do
  project ← get_project s project_id
  ok project.context_sources

unfoldable pub get_context_source : Store → String → String → Result Source
unfolding list_context_sources find_context_source
get_context_source s project_id id = do
  require_text (trim_space id) "context source id is required"
  sources ← list_context_sources s project_id
  find_context_source sources (trim_space id)

module _ (env : Env) where
  -- `existing` is the time at which the source that is replaced was created, 0 for a new source.
  unfoldable pub normalize_context_source : Source → Time → Bool → Result Source
  unfolding normalize_string_map
  normalize_context_source input existing creating =
      let given = trim_space input.id in
      let id = if creating then first_non_empty given (env.new_id "src" 0) else given in
      let created_at = stamp_or (stamp_or input.created_at existing) env.now in
      do
        require_text id "context source id is required"
        require_text (trim_space input.locator) "context source locator is required"
        ok (record {
          id = id;
          kind = trimmed_or input.kind "doc";
          title = trim_space input.title;
          locator = trim_space input.locator;
          enabled = input.enabled;
          format = trim_space input.format;
          scope = trim_space input.scope;
          trust_label = trim_space input.trust_label;
          source_category = trim_space input.source_category;
          metadata = normalize_string_map input.metadata;
          created_at = created_at;
          updated_at = stamp_or input.updated_at (if creating then created_at else env.now);
        })

  -- What `CreateContextSource` hands to `UpdateProject`, and where it finds its answer.
  unfoldable pub created_source :
      Store → String → Source → Result (Project × (Project → Result Source))
  unfolding get_project normalize_context_source find_context_source
  created_source s project_id input = do
    project ← get_project s project_id
    item ← normalize_context_source input 0 true
    reject (any (λ (source : Source). trim_space source.id == item.id) project.context_sources)
        duplicate
    ok (
      record project { context_sources = project.context_sources ++ item ∷ [] },
      λ updated. find_context_source updated.context_sources item.id,
    )

  unfoldable pub create_context_source : Store → String → Source → Reply (Project × Source)
  unfolding created_source update_project
  create_context_source s project_id input = commit env s (created_source s project_id input)

  -- The project as `UpdateContextSource` has edited it, in place.
  unfoldable pub updated_source :
      Store → String → String → Source → Result (Project × (Project → Result Source))
  unfolding get_project normalize_context_source find_context_source replace_source
  updated_source s project_id id input = do
    require_text (trim_space id) "context source id is required"
    project ← get_project s project_id
    existing ← find_context_source project.context_sources (trim_space id)
    item ← normalize_context_source (record input { id = trim_space id }) existing.created_at false
    ok (
      record project {
        context_sources = replace_source (trim_space id) item project.context_sources;
      },
      λ updated. find_context_source updated.context_sources (trim_space id),
    )

  unfoldable pub update_context_source : Store → String → String → Source → Reply (Project × Source)
  unfolding updated_source update_project
  update_context_source s project_id id input =
      commit_shared env s (trim_space project_id) (updated_source s project_id id input)

-- `DeleteContextSource` answers with the source that it found before.
unfoldable pub deleted_source :
    Store → String → String → Result (Project × (Project → Result Source))
unfolding get_project find_context_source filter
deleted_source s project_id id = do
  require_text (trim_space id) "context source id is required"
  project ← get_project s project_id
  deleted ← find_context_source project.context_sources (trim_space id)
  ok (
    record project {
      context_sources =
          filter (λ (source : Source). not (trim_space source.id == trim_space id))
            project.context_sources;
    },
    λ updated. ok deleted,
  )

unfoldable pub delete_context_source : Env → Store → String → String → Reply (Project × Source)
unfolding deleted_source update_project
delete_context_source env s project_id id = commit env s (deleted_source s project_id id)

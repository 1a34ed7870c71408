-- ===== src/MemoryStore/Projects.antt =====
-- Projects of internal/core/memory_store.go: the methods that read, write and delete them.
use cairnline.Base.{String, Result, ok, require_absent, or_fail, not_found, ◌>>◌, ◌==◌, string_eq}
use cairnline.Base.Table
use cairnline.Base.Nested
use cairnline.Model.Project.{Project}
use cairnline.MemoryStore.State.{Store, project_at, require_project, key_eq}

-- The code hands out the project with its slices of roots and sources shared with the store: who
-- writes into them changes the stored project (Service.Projects.write_through).
unfoldable pub get_project : Store → String → Result Project
get_project s id = or_fail (project_at s id) not_found

unfoldable pub create_project : Store → Project → Result (Project × Store)
create_project s project = do
  require_absent (project_at s project.id)
  ok (project, record s { projects = Table.put project.id project s.projects })

unfoldable pub update_project : Store → Project → Result (Project × Store)
update_project s project = do
  require_project s project.id
  ok (project, record s { projects = Table.put project.id project s.projects })

-- What a project takes with it: every map of the project, its receipts and its proposals.
unfoldable pub without_project : String → Store → Store
without_project id s = record {
  projects = Table.delete id s.projects;
  skills = Nested.delete_all id s.skills;
  work_items = Nested.delete_all id s.work_items;
  roles = Nested.delete_all id s.roles;
  assignments = Nested.delete_all id s.assignments;
  artifacts = Nested.delete_all id s.artifacts;
  evidence = Nested.delete_all id s.evidence;
  reviews = Nested.delete_all id s.reviews;
  handoffs = Nested.delete_all id s.handoffs;
  entries = Nested.delete_all id s.entries;
  memory = Nested.delete_all id s.memory;
  assistant = Table.delete_where (λ _ proposal. proposal.project_id == id) s.assistant;
  receipts = Table.delete_where (λ _ receipt. receipt.result.handoff.project_id == id) s.receipts;
}

unfoldable pub delete_project : Store → String → Result Store
delete_project s id = do require_project s id; ok (without_project id s)

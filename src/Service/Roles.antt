-- ===== src/Service/Roles.antt =====
-- Roles in internal/core/service.go.
use cairnline.Base.{String, true, Result, List, string_eq, ◌>>◌, ◌>>=◌}
use cairnline.Base.Text.{first_non_empty}
use cairnline.Base.Texts.{compact_strings}
use cairnline.Base.Trim.{trim_space}
use cairnline.Model.Work.{Role}
use cairnline.MemoryStore.Lists
use cairnline.MemoryStore.Roles
use cairnline.MemoryStore.State.{Store}
use cairnline.Service.Env.{Env}
use cairnline.Service.Normalize.{require_text, normalize_execution_mode}

unfoldable pub list_roles : Store → String → Result (List Role)
list_roles s project_id = do
  require_text (trim_space project_id) "project_id is required"
  Lists.list_roles s (trim_space project_id)

-- The role that a request stores.
unfoldable pub role_of : String → String → Role → Role
unfolding compact_strings
role_of id execution_mode input = record {
  id = id;
  project_id = trim_space input.project_id;
  name = trim_space input.name;
  description = trim_space input.description;
  instructions = trim_space input.instructions;
  default_skill_ids = compact_strings input.default_skill_ids;
  default_execution_mode = execution_mode;
}

unfoldable pub create_role : Env → Store → Role → Result (Role × Store)
unfolding normalize_execution_mode role_of
create_role env s input = do
  require_text (trim_space input.project_id) "project_id is required"
  require_text (trim_space input.name) "role name is required"
  mode ← normalize_execution_mode input.default_execution_mode true
  Roles.create_role s
      (role_of (first_non_empty (trim_space input.id) (env.new_id "role" 0)) mode input)

unfoldable pub update_role : Store → Role → Result (Role × Store)
unfolding normalize_execution_mode role_of
update_role s input = do
  require_text (trim_space input.project_id) "project_id is required"
  require_text (trim_space input.id) "role_id is required"
  require_text (trim_space input.name) "role name is required"
  _ ← Roles.get_role s (trim_space input.project_id) (trim_space input.id)
  mode ← normalize_execution_mode input.default_execution_mode true
  Roles.update_role s (role_of (trim_space input.id) mode input)

unfoldable pub delete_role : Store → String → String → Result Store
delete_role s project_id id = do
  require_text (trim_space project_id) "project_id is required"
  require_text (trim_space id) "role_id is required"
  Roles.delete_role s (trim_space project_id) (trim_space id)

-- ===== src/MemoryStore/Roles.antt =====
-- Roles of internal/core/memory_store.go. Their deletion writes the map of roles alone.
use cairnline.Base.{String, Result, ok, require, require_absent, or_fail, not_found, ◌>>◌}
use cairnline.Base.Nested
use cairnline.Model.Work.{Role}
use cairnline.MemoryStore.State.{Store, require_project}

unfoldable pub get_role : Store → String → String → Result Role
get_role s p id = do require_project s p; or_fail (Nested.get p id s.roles) not_found

abbrev pub store_role : Store → Role → Store
store_role s r = record s { roles = Nested.put r.project_id r.id r s.roles }

unfoldable pub create_role : Store → Role → Result (Role × Store)
create_role s role = do
  require_project s role.project_id
  require_absent (Nested.get role.project_id role.id s.roles)
  ok (role, store_role s role)

unfoldable pub update_role : Store → Role → Result (Role × Store)
update_role s role = do
  require_project s role.project_id
  require (Nested.get role.project_id role.id s.roles)
  ok (role, store_role s role)

unfoldable pub delete_role : Store → String → String → Result Store
delete_role s p id = do
  require_project s p
  require (Nested.get p id s.roles)
  ok (record s { roles = Nested.delete p id s.roles })

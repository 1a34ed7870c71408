-- ===== src/MemoryStore/Skills.antt =====
-- Project skills of internal/core/memory_store.go.
use cairnline.Base.{String, Result, ok, require, require_absent, or_fail, not_found, ◌>>◌}
use cairnline.Base.Nested
use cairnline.Model.Project.{ProjectSkill}
use cairnline.MemoryStore.State.{Store, require_project}

unfoldable pub get_project_skill : Store → String → String → Result ProjectSkill
get_project_skill s p id = do require_project s p; or_fail (Nested.get p id s.skills) not_found

abbrev store_skill : Store → ProjectSkill → Store
store_skill s k = record s { skills = Nested.put k.project_id k.id k s.skills }

unfoldable pub create_project_skill : Store → ProjectSkill → Result (ProjectSkill × Store)
create_project_skill s skill = do
  require_project s skill.project_id
  require_absent (Nested.get skill.project_id skill.id s.skills)
  ok (skill, store_skill s skill)

unfoldable pub update_project_skill : Store → ProjectSkill → Result (ProjectSkill × Store)
update_project_skill s skill = do
  require_project s skill.project_id
  require (Nested.get skill.project_id skill.id s.skills)
  ok (skill, store_skill s skill)

-- ===== src/MemoryStore/Records.antt =====
-- Artifacts, evidence and reviews of internal/core/memory_store.go.
use cairnline.Base.{
  String, not, Option, none, some, Result, ok, err, require_absent, or_fail, not_found, reject,
  ◌>>=◌, ◌>>◌, if◌then◌else◌, ◌==◌, string_eq,
}
use cairnline.Base.Nested
use cairnline.Model.Assignment.{Assignment}
use cairnline.Model.Collaboration.{Artifact, Evidence, Review}
use cairnline.MemoryStore.State.{Store, require_work_item, require_ref}

-- The assignment exists and belongs to the work item.
abbrev pub require_under : String → Option Assignment → Result (Unit {0})
require_under w none = err not_found
require_under w (some a) = reject (not (a.work_item_id == w)) not_found

-- `if id != "" { a, ok := m[p][id]; if !ok || a.WorkItemID != w { return ErrNotFound } }`
abbrev pub require_assignment_ref : Store → String → String → String → Result (Unit {0})
require_assignment_ref s p w id =
    if id == "" then ok tt else require_under w (Nested.get p id s.assignments)

unfoldable pub get_artifact : Store → String → String → String → Result Artifact
get_artifact s p w id = do
  require_work_item s p w
  item ← or_fail (Nested.get p id s.artifacts) not_found
  reject (not (item.work_item_id == w)) not_found
  ok item

unfoldable pub create_artifact : Store → Artifact → Result (Artifact × Store)
create_artifact s a = do
  require_work_item s a.project_id a.work_item_id
  require_assignment_ref s a.project_id a.work_item_id a.assignment_id
  require_ref a.author_role_id (Nested.get a.project_id a.author_role_id s.roles)
  require_absent (Nested.get a.project_id a.id s.artifacts)
  ok (a, record s { artifacts = Nested.put a.project_id a.id a s.artifacts })

unfoldable pub get_evidence : Store → String → String → String → Result Evidence
get_evidence s p w id = do
  require_work_item s p w
  item ← or_fail (Nested.get p id s.evidence) not_found
  reject (not (item.work_item_id == w)) not_found
  ok item

unfoldable pub create_evidence : Store → Evidence → Result (Evidence × Store)
create_evidence s e = do
  require_work_item s e.project_id e.work_item_id
  require_assignment_ref s e.project_id e.work_item_id e.assignment_id
  require_absent (Nested.get e.project_id e.id s.evidence)
  ok (e, record s { evidence = Nested.put e.project_id e.id e s.evidence })

unfoldable pub get_review : Store → String → String → String → Result Review
get_review s p w id = do
  require_work_item s p w
  item ← or_fail (Nested.get p id s.reviews) not_found
  reject (not (item.work_item_id == w)) not_found
  ok item

unfoldable pub create_review : Store → Review → Result (Review × Store)
create_review s r = do
  require_work_item s r.project_id r.work_item_id
  require_assignment_ref s r.project_id r.work_item_id r.assignment_id
  require_ref r.reviewer_role_id (Nested.get r.project_id r.reviewer_role_id s.roles)
  require_absent (Nested.get r.project_id r.id s.reviews)
  ok (r, record s { reviews = Nested.put r.project_id r.id r s.reviews })

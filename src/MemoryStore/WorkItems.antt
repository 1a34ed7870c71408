-- ===== src/MemoryStore/WorkItems.antt =====
-- Work items of internal/core/memory_store.go, and the cascade of their deletion.
use cairnline.Base.{
  String, ◌||◌, Result, ok, require, require_absent, or_fail, not_found, ◌>>◌, ◌==◌, string_eq,
}
use cairnline.Base.Nested
use cairnline.Model.Work.{WorkItem}
use cairnline.MemoryStore.State.{Store, require_project}

unfoldable pub get_work_item : Store → String → String → Result WorkItem
get_work_item s p id = do require_project s p; or_fail (Nested.get p id s.work_items) not_found

abbrev pub store_work_item : Store → WorkItem → Store
store_work_item s w = record s { work_items = Nested.put w.project_id w.id w s.work_items }

unfoldable pub create_work_item : Store → WorkItem → Result (WorkItem × Store)
create_work_item s item = do
  require_project s item.project_id
  require_absent (Nested.get item.project_id item.id s.work_items)
  ok (item, store_work_item s item)

unfoldable pub update_work_item : Store → WorkItem → Result (WorkItem × Store)
update_work_item s item = do
  require_project s item.project_id
  require (Nested.get item.project_id item.id s.work_items)
  ok (item, store_work_item s item)

-- The item and everything that is recorded under it; a handoff goes with either of its ends.
unfoldable pub without_work_item : String → String → Store → Store
without_work_item p id s = record s {
  work_items = Nested.delete p id s.work_items;
  assignments = Nested.delete_where p (λ a. a.work_item_id == id) s.assignments;
  evidence = Nested.delete_where p (λ e. e.work_item_id == id) s.evidence;
  artifacts = Nested.delete_where p (λ a. a.work_item_id == id) s.artifacts;
  reviews = Nested.delete_where p (λ r. r.work_item_id == id) s.reviews;
  handoffs =
      Nested.delete_where p (λ h. h.work_item_id == id || h.target_work_item_id == id) s.handoffs;
}

unfoldable pub delete_work_item : Store → String → String → Result Store
delete_work_item s p id = do
  require_project s p
  require (Nested.get p id s.work_items)
  ok (without_work_item p id s)

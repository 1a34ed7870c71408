-- ===== src/MemoryStore/Handoffs.antt =====
-- Handoffs of internal/core/memory_store.go: creation, compare-and-swap edits and deletion.
use cairnline.Base.{
  String, not, ◌&&◌, Option, none, some, Result, ok, err, require_absent, or_fail, not_found,
  conflict, reject, ◌>>=◌, ◌>>◌, if◌then◌else◌, ◌==◌, string_eq, nat_eq,
}
use cairnline.Base.Nested
use cairnline.Model.Clock.{Time, is_zero, before, tick}
use cairnline.Model.Assignment.{Assignment}
use cairnline.Model.Handoff.{Handoff, HandoffUpdate, HandoffDelete, status_eq}
use cairnline.Model.Patch.{apply_patch, same_content}
use cairnline.Lifecycle.Stamp.{raise_to}
use cairnline.MemoryStore.State.{Store, require_work_item, require_ref}
use cairnline.MemoryStore.Records.{require_assignment_ref}

-- `handoffTransitionTime`: no earlier than any stamp of the handoff, and later than its last update.
unfoldable pub handoff_transition_time : Handoff → Time → Time
handoff_transition_time h now =
    let raised = raise_to h.status_changed_at (raise_to h.updated_at (raise_to h.created_at now)) in
    if before h.updated_at raised then raised else tick h.updated_at

-- The target assignment exists, and stands under the target work item if one is named.
abbrev pub require_target : String → Option Assignment → Result (Unit {0})
require_target w none = err not_found
require_target w (some a) = reject (not (w == "") && not (a.work_item_id == w)) not_found

-- `validateHandoffLocked`
unfoldable pub validate_handoff : Store → Handoff → Result (Unit {0})
validate_handoff s h = do
  require_work_item s h.project_id h.work_item_id
  require_ref h.from_role_id (Nested.get h.project_id h.from_role_id s.roles)
  require_ref h.to_role_id (Nested.get h.project_id h.to_role_id s.roles)
  require_assignment_ref s h.project_id h.work_item_id h.source_assignment_id
  if h.target_assignment_id == ""
      then ok tt
      else require_target h.target_work_item_id
          (Nested.get h.project_id h.target_assignment_id s.assignments)
  require_ref h.target_work_item_id (Nested.get h.project_id h.target_work_item_id s.work_items)

-- `s.handoffs[p][id] = handoff`
abbrev pub store_handoff : String → String → Handoff → Store → Store
store_handoff p id h s = record s { handoffs = Nested.put p id h s.handoffs }

-- A handoff is found by its id, and only under its own work item.
unfoldable pub find_handoff : Store → String → String → String → Result Handoff
find_handoff s p w id = do
  item ← or_fail (Nested.get p id s.handoffs) not_found
  reject (not (item.work_item_id == w)) not_found
  ok item

unfoldable pub get_handoff : Store → String → String → String → Result Handoff
get_handoff s p w id = do require_work_item s p w; find_handoff s p w id

unfoldable pub create_handoff : Store → Handoff → Result (Handoff × Store)
create_handoff s h = do
  validate_handoff s h
  require_absent (Nested.get h.project_id h.id s.handoffs)
  ok (h, store_handoff h.project_id h.id h s)

unfoldable pub restore_handoff_snapshot : Store → Handoff → Result (Handoff × Store)
restore_handoff_snapshot s h = do
  validate_handoff s h
  existing ← find_handoff s h.project_id h.work_item_id h.id
  ok (h, store_handoff h.project_id h.id h s)

-- The stamps of an edited handoff.
unfoldable pub restamped : Handoff → Handoff → Time → Handoff
restamped current replacement now =
    let stamp = handoff_transition_time current now in
    let changed =
      if is_zero current.status_changed_at then current.created_at else current.status_changed_at in
    record replacement {
      created_at = current.created_at;
      updated_at = stamp;
      status_changed_at = if replacement.status == current.status then changed else stamp;
    }

-- The edit of the handoff that was found.
unfoldable pub edit_handoff :
    Store → String → String → HandoffUpdate → Time → Handoff → Result (Handoff × Store)
edit_handoff s p id update now current = do
  reject (not (current.updated_at == update.expected_updated_at)) conflict
  let replacement = apply_patch update.patch current
  let stamped = restamped current replacement now
  if same_content current replacement
      then ok (current, s)
      else do validate_handoff s replacement; ok (stamped, store_handoff p id stamped s)

unfoldable pub update_handoff :
    Store → String → String → String → HandoffUpdate → Time → Result (Handoff × Store)
update_handoff s p w id update now = do
  require_work_item s p w
  current ← find_handoff s p w id
  edit_handoff s p id update now current

unfoldable pub delete_handoff : Store → String → String → String → HandoffDelete → Result Store
delete_handoff s p w id deletion = do
  require_work_item s p w
  item ← find_handoff s p w id
  reject (not (item.updated_at == deletion.expected_updated_at)) conflict
  ok (record s { handoffs = Nested.delete p id s.handoffs })

-- ===== src/MemoryStore/Memory.antt =====
-- Accepted memory and its candidates (internal/core/memory_store.go).
use cairnline.Base.{
  String, Bool, not, ◌&&◌, Result, ok, require, require_absent, or_fail, not_found, conflict,
  reject, ◌>>=◌, ◌>>◌, if◌then◌else◌, ◌==◌, string_eq,
}
use cairnline.Base.Nested
use cairnline.Model.Memory.{MemoryEntry, MemoryCandidate, CandidateStatus, status_eq}
use cairnline.MemoryStore.State.{Store, require_project}

unfoldable pub get_memory_entry : Store → String → String → Result MemoryEntry
get_memory_entry s p id = do require_project s p; or_fail (Nested.get p id s.entries) not_found

abbrev pub store_entry : String → MemoryEntry → Store → Store
store_entry p e s = record s { entries = Nested.put p e.id e s.entries }

unfoldable pub create_memory_entry : Store → MemoryEntry → Result (MemoryEntry × Store)
create_memory_entry s e = do
  require_project s e.project_id
  require_absent (Nested.get e.project_id e.id s.entries)
  ok (e, store_entry e.project_id e s)

-- The time of creation is the stored one.
unfoldable pub update_memory_entry : Store → MemoryEntry → Result (MemoryEntry × Store)
update_memory_entry s e = do
  require_project s e.project_id
  existing ← or_fail (Nested.get e.project_id e.id s.entries) not_found
  let kept = record e { created_at = existing.created_at }
  ok (kept, store_entry e.project_id kept s)

unfoldable pub delete_memory_entry : Store → String → String → Result Store
delete_memory_entry s p id = do
  require_project s p
  require (Nested.get p id s.entries)
  ok (record s { entries = Nested.delete p id s.entries })

unfoldable pub get_memory_candidate : Store → String → String → Result MemoryCandidate
get_memory_candidate s p id = do require_project s p; or_fail (Nested.get p id s.memory) not_found

abbrev pub store_candidate : String → String → MemoryCandidate → Store → Store
store_candidate p id c s = record s { memory = Nested.put p id c s.memory }

unfoldable pub create_memory_candidate : Store → MemoryCandidate → Result (MemoryCandidate × Store)
create_memory_candidate s c = do
  require_project s c.project_id
  require_absent (Nested.get c.project_id c.id s.memory)
  ok (c, store_candidate c.project_id c.id c s)

unfoldable pub update_memory_candidate : Store → MemoryCandidate → Result (MemoryCandidate × Store)
update_memory_candidate s c = do
  require_project s c.project_id
  existing ← or_fail (Nested.get c.project_id c.id s.memory) not_found
  let kept = record c { created_at = existing.created_at }
  ok (kept, store_candidate c.project_id c.id kept s)

unfoldable pub delete_memory_candidate : Store → String → String → Result Store
delete_memory_candidate s p id = do
  require_project s p
  require (Nested.get p id s.memory)
  ok (record s { memory = Nested.delete p id s.memory })

abbrev pub is_promoted : MemoryCandidate → Bool
is_promoted c = c.status == CandidateStatus.promoted && not (c.promoted_memory_id == "")

unfoldable pub promoted_by : MemoryEntry → MemoryCandidate → MemoryCandidate
promoted_by e c = record c {
  status = CandidateStatus.promoted;
  status_reason = "";
  promoted_memory_id = e.id;
  updated_at = e.updated_at;
}

-- The first promotion writes the entry; a later one returns the entry that stands.
unfoldable pub promote_memory_candidate :
    Store → String → String → MemoryEntry → Result (MemoryCandidate × MemoryEntry × Store)
promote_memory_candidate s p id entry = do
  require_project s p
  candidate ← or_fail (Nested.get p id s.memory) not_found
  if is_promoted candidate
      then (do
        standing ← or_fail (Nested.get p candidate.promoted_memory_id s.entries) not_found
        ok (candidate, standing, s))
      else (do
        reject (not (candidate.status == CandidateStatus.pending)) conflict
        require_absent (Nested.get p entry.id s.entries)
        let promoted = promoted_by entry candidate
        ok (promoted, entry, store_candidate p id promoted (store_entry p entry s)))

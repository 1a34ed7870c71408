-- ===== src/MemoryStore/Promotion.antt =====
-- `PromoteMemoryCandidate`, called more than once.
use cairnline.Base.{
  String, true, some, none, ◌≡◌, ◌≢◌, inl, inr, refl, arith, ok, eq_iff, string_eq, Bool-cases,
  Option-cases, is_some,
}
use cairnline.Base.Nested
use cairnline.Model.Memory.{MemoryEntry, MemoryCandidate, CandidateStatus, status_eq}
use cairnline.MemoryStore.State.{Store, project_at}
use cairnline.MemoryStore.Memory.{
  promote_memory_candidate, promoted_by, store_entry, store_candidate, is_promoted,
}

-- What a promotion that succeeds has found and done: either the candidate was promoted before and
-- nothing is written, or it was pending, the id of the entry was free, and both records are written.
data Promoted (s : Store) (p id : String) (entry : MemoryEntry) (c : MemoryCandidate)
    (m : MemoryEntry) (t : Store) : Type 0 where
  again :
      t ≡ s
      → Nested.get p id s.memory ≡ some c
      → is_promoted c ≡ true
      → Nested.get p c.promoted_memory_id s.entries ≡ some m
      → Promoted s p id entry c m t
  first :
      (old : MemoryCandidate)
      → Nested.get p id s.memory ≡ some old
      → old.status ≡ CandidateStatus.pending
      → Nested.get p entry.id s.entries ≡ none
      → c ≡ promoted_by entry old
      → m ≡ entry
      → t ≡ store_candidate p id c (store_entry p entry s)
      → Promoted s p id entry c m t

promote-Promoted :
    (s : Store) (p id : String) (entry : MemoryEntry) (c : MemoryCandidate) (m : MemoryEntry)
    (t : Store)
    → promote_memory_candidate s p id entry ≡ ok (c, m, t)
    → Promoted s p id entry c m t
unfolding promote_memory_candidate
promote-Promoted s p id entry c m t e = elim (Option-cases (Nested.get p id s.memory)) [
  | inl absent ↦ ground arith
  | inr (old, found) ↦ elim (Bool-cases (is_promoted old)) [
    | inl yes_promoted ↦ again (ground arith) (ground arith) (ground arith) (ground arith)
    | inr fresh ↦
        first old found (ground arith) (ground arith) (ground arith) (ground arith) (ground arith)
  ]
]

promote_standing :
    (t : Store) (p id : String) (other : MemoryEntry) (c : MemoryCandidate) (m : MemoryEntry)
    → is_some (project_at t p) ≡ true
    → Nested.get p id t.memory ≡ some c
    → is_promoted c ≡ true
    → Nested.get p c.promoted_memory_id t.entries ≡ some m
    → promote_memory_candidate t p id other ≡ ok (c, m, t)
unfolding promote_memory_candidate
promote_standing t p id other c m k f y g = ground arith

promote-project :
    (s : Store) (p id : String) (entry : MemoryEntry) (c : MemoryCandidate) (m : MemoryEntry)
    (t : Store)
    → promote_memory_candidate s p id entry ≡ ok (c, m, t)
    → is_some (project_at s p) ≡ true
unfolding promote_memory_candidate
promote-project s p id entry c m t e = ground arith

stays_promoted :
    (entry : MemoryEntry) (old : MemoryCandidate)
    → entry.id ≢ ""
    → (is_promoted (promoted_by entry old) ≡ true)
      × ((promoted_by entry old).promoted_memory_id ≡ entry.id)
unfolding promoted_by
stays_promoted entry old named = (ground (arith, eq_iff entry.id ""), refl)

-- What the first promotion has left in the store.
written_store :
    (s : Store) (p id : String) (entry : MemoryEntry) (c : MemoryCandidate)
    → (Nested.get p id (store_candidate p id c (store_entry p entry s)).memory ≡ some c)
      × (Nested.get p entry.id (store_candidate p id c (store_entry p entry s)).entries
          ≡ some entry)
written_store s p id entry c = (
  rw (Nested.get-put p id p id c s.memory) (ground (arith, eq_iff p p, eq_iff id id)),
  rw (Nested.get-put p entry.id p entry.id entry s.entries)
      (ground (arith, eq_iff p p, eq_iff entry.id entry.id)),
)

once :
    (s : Store) (p id : String) (entry other : MemoryEntry) (c : MemoryCandidate) (m : MemoryEntry)
    (t : Store)
    → entry.id ≢ ""
    → is_some (project_at s p) ≡ true
    → Promoted s p id entry c m t
    → promote_memory_candidate t p id other ≡ ok (c, m, t)
once s p id entry other c m t named known (again same found done standing) =
    promote_standing t p id other c m (rw same known) (rw same found) done (rw same standing)
once s p id entry other c m t named known (first old _ _ _ made given stored) =
    let wrote = written_store s p id entry c in
    let done = stays_promoted entry old named in
    promote_standing t p id other c m (rw stored known) (rw stored wrote.0) (rw made done.0)
      (rw (stored, made, done.1, given) (ground (arith, wrote.1)))

-- Promotion happens once: after one that succeeds, with an entry that has an id, every further
-- promotion of the candidate, whatever entry it brings, answers with the same candidate and the
-- same entry, and writes nothing.
pub promote_once :
    (s : Store) (p id : String) (entry other : MemoryEntry) (c : MemoryCandidate) (m : MemoryEntry)
    (t : Store)
    → entry.id ≢ ""
    → promote_memory_candidate s p id entry ≡ ok (c, m, t)
    → promote_memory_candidate t p id other ≡ ok (c, m, t)
promote_once s p id entry other c m t named e =
    once s p id entry other c m t named (promote-project s p id entry c m t e)
      (promote-Promoted s p id entry c m t e)

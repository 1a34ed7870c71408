-- ===== src/MemoryStore/Lists.antt =====
-- The List methods of internal/core/memory_store.go. Go ranges over a map in any order, and
-- `slices.SortFunc` may swap equal items: of the answers that the code may give this is one.
use Prim.Native.Nat.{compare, Ordering}
use cairnline.Base.{
  String, Bool, true, false, ◌||◌, List, Result, ok, ◌>>◌, if◌then◌else◌, ◌==◌, string_eq, ℕ,
}
use cairnline.Base.Lists.{filter}
use cairnline.Base.Nested
use cairnline.Base.Nested.{Nested}
use cairnline.Base.Order.{then_by, compare_string}
use cairnline.Base.Sorting.{sort}
use cairnline.Base.Table
use cairnline.Model.Assignment.{Assignment}
use cairnline.Model.Assistant.{AssistantProposalRecord}
use cairnline.Model.Clock.{Time}
use cairnline.Model.Collaboration.{Artifact, Evidence, Review}
use cairnline.Model.Handoff.{Handoff}
use cairnline.Model.Memory.{
  MemoryEntry, CandidateStatus, MemoryCandidate, MemoryCandidateFilter, status_eq, status_text,
}
use cairnline.Model.Project.{Project, ProjectSkill}
use cairnline.Model.Work.{Role, WorkItem}
use cairnline.MemoryStore.State.{Store, require_project, require_work_item}

-- `for _, item := range m[p] { if test(item) { … } }`, sorted.
unfoldable pub listing {ℓ} :
    {V : Type ℓ} → (V → V → Ordering) → (V → Bool) → String → Nested V → List V
unfolding Nested.within Table.values
listing cmp test p m = sort cmp (filter test (Table.values (Nested.within p m)))

-- `b.UpdatedAt.Compare(a.UpdatedAt)`
abbrev pub latest : Time → Time → Ordering
latest a b = compare b a

abbrev pub any_item {ℓ} : {V : Type ℓ} → V → Bool
any_item v = true

unfoldable list_projects : Store → List Project
list_projects s = sort (λ a b. latest a.updated_at b.updated_at) (Table.values s.projects)

unfoldable pub list_project_skills : Store → String → Result (List ProjectSkill)
list_project_skills s p = do
  require_project s p
  ok (listing (λ a b. compare_string a.id b.id) any_item p s.skills)

unfoldable pub list_work_items : Store → String → Result (List WorkItem)
list_work_items s p = do
  require_project s p
  ok (listing (λ a b. latest a.updated_at b.updated_at) any_item p s.work_items)

unfoldable pub list_roles : Store → String → Result (List Role)
list_roles s p = do
  require_project s p
  ok (listing (λ a b. compare_string a.name b.name) any_item p s.roles)

unfoldable pub list_assignments : Store → String → Result (List Assignment)
list_assignments s p = do
  require_project s p
  ok (listing (λ a b. latest a.updated_at b.updated_at) any_item p s.assignments)

unfoldable pub compare_artifacts : Artifact → Artifact → Ordering
compare_artifacts a b = then_by (compare a.created_at b.created_at) (compare_string a.id b.id)

unfoldable pub list_artifacts : Store → String → String → Result (List Artifact)
list_artifacts s p w = do
  require_work_item s p w
  ok (listing compare_artifacts (λ a. a.work_item_id == w) p s.artifacts)

unfoldable pub list_evidence : Store → String → String → Result (List Evidence)
list_evidence s p w = do
  require_work_item s p w
  ok (listing (λ a b. latest a.updated_at b.updated_at) (λ e. e.work_item_id == w) p s.evidence)

unfoldable pub list_reviews : Store → String → String → Result (List Review)
list_reviews s p w = do
  require_work_item s p w
  ok (listing (λ a b. latest a.updated_at b.updated_at) (λ r. r.work_item_id == w) p s.reviews)

unfoldable pub list_handoffs : Store → String → String → Result (List Handoff)
list_handoffs s p w = do
  require_work_item s p w
  ok (listing (λ a b. latest a.updated_at b.updated_at) (λ h. h.work_item_id == w) p s.handoffs)

-- Enabled entries come first.
abbrev pub compare_enabled : Bool → Bool → Ordering
compare_enabled true false = Ordering.lt
compare_enabled false true = Ordering.gt
compare_enabled _ _ = Ordering.eq

-- `compareMemoryEntries`
unfoldable pub compare_memory_entries : MemoryEntry → MemoryEntry → Ordering
compare_memory_entries a b = then_by (compare_enabled a.enabled b.enabled) (
    then_by (latest a.updated_at b.updated_at)
      (then_by (compare_string a.title b.title) (compare_string a.id b.id)))

unfoldable pub list_memory_entries : Store → String → Bool → Result (List MemoryEntry)
list_memory_entries s p include_disabled = do
  require_project s p
  ok (listing compare_memory_entries (λ e. include_disabled || e.enabled) p s.entries)

-- `memoryCandidateSortRank`
abbrev memory_candidate_sort_rank : CandidateStatus → ℕ
memory_candidate_sort_rank CandidateStatus.pending = 0
memory_candidate_sort_rank CandidateStatus.promoted = 1
memory_candidate_sort_rank CandidateStatus.rejected = 2
memory_candidate_sort_rank (CandidateStatus.other s) = 3

-- `compareMemoryCandidates`: two different statuses of the last rank count as equal.
unfoldable pub compare_memory_candidates : MemoryCandidate → MemoryCandidate → Ordering
compare_memory_candidates a b =
    if a.status == b.status
    then then_by (latest a.updated_at b.updated_at)
        (then_by (compare_string a.title b.title) (compare_string a.id b.id))
    else compare (memory_candidate_sort_rank a.status) (memory_candidate_sort_rank b.status)

-- A filter by status, by default the pending ones.
unfoldable pub candidate_passes : MemoryCandidateFilter → MemoryCandidate → Bool
candidate_passes f c =
    if f.status == ""
    then f.include_resolved || c.status == CandidateStatus.pending
    else status_text c.status == f.status

unfoldable pub list_memory_candidates :
    Store → MemoryCandidateFilter → Result (List MemoryCandidate)
list_memory_candidates s f = do
  require_project s f.project_id
  ok (listing compare_memory_candidates (candidate_passes f) f.project_id s.memory)

-- An empty project id lists the proposals of all projects.
unfoldable list_assistant_proposals : Store → String → List AssistantProposalRecord
list_assistant_proposals s p =
    sort (λ a b. latest a.updated_at b.updated_at)
      (filter (λ r. p == "" || r.project_id == p) (Table.values s.assistant))

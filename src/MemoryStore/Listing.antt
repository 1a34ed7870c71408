-- ===== src/MemoryStore/Listing.antt =====
-- What the List methods of internal/core/memory_store.go give.
use Prim.Native.Nat.{Ordering, compare}
use cairnline.Base.{
  String, Bool, true, sym, subst, ◌≡◌, ◌≢◌, ◌⊎◌, ◌↔◌, eq_iff, ◌==◌, string_eq, refl, arith, some,
  List, ok,
}
use cairnline.Base.Lists.{filter, filter-Has}
use cairnline.Base.Nested
use cairnline.Base.Nested.{Nested}
use cairnline.Base.Order.{IsComparator, descending-IsComparator, compare-IsComparator}
use cairnline.Base.Sorting.{Has, sort-Has, IsSorted, sort-IsSorted}
use cairnline.Base.Table
use cairnline.Model.Assignment.{Assignment}
use cairnline.Model.Handoff.{Handoff}
use cairnline.Model.Memory.{
  MemoryEntry, CandidateStatus, status_eq, status_text, MemoryCandidate, MemoryCandidateFilter,
}
use cairnline.Model.Project.{Project, ProjectSkill}
use cairnline.Model.Work.{Role, WorkItem}
use cairnline.MemoryStore.State.{Store, project_at, require_work_item}
use cairnline.MemoryStore.Lists.{
  list_project_skills, list_work_items, list_roles, list_assignments, list_memory_entries,
  list_memory_candidates, list_handoffs, latest, listing, any_item, compare_memory_candidates,
  candidate_passes,
}

-- The lists of a project that exists are given.
module _ (s : Store) (p : String) (project : Project) (found : project_at s p ≡ some project) where
  pub list_project_skills-ok : (out : List ProjectSkill) × (list_project_skills s p ≡ ok out)
  unfolding list_project_skills
  list_project_skills-ok = rw found (_, refl)

  pub list_work_items-ok : (out : List WorkItem) × (list_work_items s p ≡ ok out)
  unfolding list_work_items
  list_work_items-ok = rw found (_, refl)

  pub list_roles-ok : (out : List Role) × (list_roles s p ≡ ok out)
  unfolding list_roles
  list_roles-ok = rw found (_, refl)

  pub list_assignments-ok : (out : List Assignment) × (list_assignments s p ≡ ok out)
  unfolding list_assignments
  list_assignments-ok = rw found (_, refl)

  pub list_memory_entries-ok :
      (include_disabled : Bool)
      → (out : List MemoryEntry) × (list_memory_entries s p include_disabled ≡ ok out)
  unfolding list_memory_entries
  list_memory_entries-ok include_disabled = rw found (_, refl)

  pub list_memory_candidates-ok :
      (status : String) (include_resolved : Bool)
      → (out : List MemoryCandidate) × (list_memory_candidates s
            (record { project_id = p; status = status; include_resolved = include_resolved })
          ≡ ok out)
  unfolding list_memory_candidates
  list_memory_candidates-ok status include_resolved = rw found (_, refl)

module _ {V : Type 0} (cmp : V → V → Ordering) (test : V → Bool) (p : String) (m : Nested V) where
  pub listing-Has :
      (v : V)
      → Has v (listing cmp test p m)
        ↔ (((id : String) × (Nested.get p id m ≡ some v)) × (test v ≡ true))
  unfolding listing Nested.get
  listing-Has v =
      let inner = Nested.within p m in
      ground (
        arith,
        sort-Has cmp v (filter test (Table.values inner)),
        filter-Has test v (Table.values inner),
        Table.values-Has v inner,
      )

  pub listing-IsSorted : IsComparator cmp → IsSorted cmp (listing cmp test p m)
  unfolding listing
  listing-IsSorted c = sort-IsSorted cmp c (filter test (Table.values (Nested.within p m)))

pub list_work_items-Has :
    (s : Store) (p : String) (project : Project) (out : List WorkItem) (w : WorkItem)
    → project_at s p ≡ some project
    → list_work_items s p ≡ ok out
    → Has w out
    → (id : String) × (Nested.get p id s.work_items ≡ some w)
unfolding list_work_items
list_work_items-Has s p project out w found listed h =
    let cmp : WorkItem → WorkItem → Ordering = λ a b. latest a.updated_at b.updated_at in
    let given : ok (listing cmp any_item p s.work_items) ≡ ok out = rw found at listed in
    let same : listing cmp any_item p s.work_items ≡ out = cc given in
    ((listing-Has cmp any_item p s.work_items w).0 (subst (Has w) (sym same) h)).0

-- For a work item that exists, its handoffs are listed: a handoff is in the list exactly when the
-- store has it in the project and it names the work item, and the latest stand first.
pub list_handoffs-exact :
    (s : Store) (p w : String)
    → require_work_item s p w ≡ ok tt
    → (out : List Handoff) × (list_handoffs s p w ≡ ok out)
      × ((h : Handoff)
          → Has h out
            ↔ (((id : String) × (Nested.get p id s.handoffs ≡ some h)) × (h.work_item_id ≡ w)))
      × IsSorted (λ a b. latest a.updated_at b.updated_at) out
unfolding list_handoffs
list_handoffs-exact s p w found =
    let cmp : Handoff → Handoff → Ordering = λ a b. latest a.updated_at b.updated_at in
    let test : Handoff → Bool = λ h. h.work_item_id == w in
    rw found (
      listing cmp test p s.handoffs,
      refl,
      λ h. ground (arith, listing-Has cmp test p s.handoffs h, eq_iff h.work_item_id w),
      listing-IsSorted cmp test p s.handoffs
          (descending-IsComparator (λ (h : Handoff). h.updated_at) compare compare-IsComparator),
    )

candidate_passes-meaning :
    (f : MemoryCandidateFilter) (c : MemoryCandidate)
    → (candidate_passes f c ≡ true) ↔ (
        ((f.status ≡ "") × ((f.include_resolved ≡ true) ⊎ (c.status ≡ CandidateStatus.pending)))
        ⊎ ((f.status ≢ "") × (status_text c.status ≡ f.status)))
unfolding candidate_passes
candidate_passes-meaning f c = ground (
  arith,
  eq_iff f.status "",
  eq_iff (status_text c.status) f.status,
  status_eq.beq_iff c.status CandidateStatus.pending,
)

-- For a project that exists, the memory candidates are listed: one is in the list exactly when the
-- store has it in the project and its status is the filter's, or, where the filter names none, it
-- is pending or the filter includes the resolved ones.
pub list_memory_candidates-exact :
    (s : Store) (f : MemoryCandidateFilter) (project : Project)
    → project_at s f.project_id ≡ some project
    → (out : List MemoryCandidate) × (list_memory_candidates s f ≡ ok out)
      × ((c : MemoryCandidate)
          → Has c out ↔ (
              ((id : String) × (Nested.get f.project_id id s.memory ≡ some c))
              × (((f.status ≡ "")
                    × ((f.include_resolved ≡ true) ⊎ (c.status ≡ CandidateStatus.pending)))
                  ⊎ ((f.status ≢ "") × (status_text c.status ≡ f.status)))))
unfolding list_memory_candidates
list_memory_candidates-exact s f project found = rw found (
  listing compare_memory_candidates (candidate_passes f) f.project_id s.memory,
  refl,
  λ c. ground (
    arith,
    listing-Has compare_memory_candidates (candidate_passes f) f.project_id s.memory c,
    candidate_passes-meaning f c,
  ),
)

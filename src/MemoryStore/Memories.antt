-- ===== src/MemoryStore/Memories.antt =====
-- What ListMemoryEntries of internal/core/memory_store.go gives.
use Prim.Native.Nat.{compare, Ordering}
use cairnline.Base.{
  String, Bool, true, ◌||◌, ◌≡◌, ◌⊎◌, ◌↔◌, ◌≢◌, ◌<◌, false, refl, arith, some, List, ok,
}
use cairnline.Base.Nested
use cairnline.Base.Order.{
  IsComparator, compare_string, then_by-IsComparator, key-IsComparator, descending-IsComparator,
  compare-IsComparator, compare_string-IsComparator,
}
use cairnline.Base.Sorting.{Has, IsOrdered, IsSorted-IsOrdered}
use cairnline.Model.Memory.{MemoryEntry}
use cairnline.Model.Project.{Project}
use cairnline.MemoryStore.State.{Store, project_at}
use cairnline.MemoryStore.Lists.{
  compare_enabled, compare_memory_entries, list_memory_entries, listing,
}
use cairnline.MemoryStore.Listing.{listing-Has, listing-IsSorted}

compare_enabled-IsComparator : IsComparator compare_enabled
compare_enabled-IsComparator = record {
  flips = λ a b. ground arith;
  trans = λ a b c h k e. ground arith;
}

compare_memory_entries-IsComparator : IsComparator compare_memory_entries
unfolding compare_memory_entries
compare_memory_entries-IsComparator =
    then_by-IsComparator _ _
      (key-IsComparator (λ (e : MemoryEntry). e.enabled) compare_enabled
        compare_enabled-IsComparator)
      (then_by-IsComparator _ _
        (descending-IsComparator (λ (e : MemoryEntry). e.updated_at) compare compare-IsComparator)
        (then_by-IsComparator _ _
          (key-IsComparator (λ (e : MemoryEntry). e.title) compare_string
            compare_string-IsComparator)
          (key-IsComparator (λ (e : MemoryEntry). e.id) compare_string
            compare_string-IsComparator)))

-- `a` comes before `b` in the list of memory: it is enabled and `b` is not; or both are or neither
-- is, and it was updated later; or at the same time, and its title is before the other's; or the
-- titles are the same, and its id is before the other's or the same.
abbrev pub IsListedBefore : MemoryEntry → MemoryEntry → Type 0
IsListedBefore a b =
    ((a.enabled ≡ true) × (b.enabled ≡ false))
    ⊎ ((a.enabled ≡ b.enabled)
        × ((b.updated_at < a.updated_at)
            ⊎ ((a.updated_at ≡ b.updated_at)
                × ((compare_string a.title b.title ≡ Ordering.lt)
                    ⊎ ((compare_string a.title b.title ≡ Ordering.eq)
                        × (compare_string a.id b.id ≢ Ordering.gt))))))

compare_memory_entries-IsListedBefore :
    (a b : MemoryEntry) → compare_memory_entries a b ≢ Ordering.gt → IsListedBefore a b
unfolding compare_memory_entries
compare_memory_entries-IsListedBefore a b h = ground arith

-- For a project that exists, its memory is listed: an entry is in the list exactly when the store
-- has it in the project and it is enabled or disabled ones are asked for, and of two entries
-- of the list the first is enabled and the other is not, or, where they agree in this, the first was
-- updated later, or, at the same time, its title is the lesser, or, with one title, the first has
-- the lesser id or the same.
pub list_memory_entries-exact :
    (s : Store) (p : String) (include_disabled : Bool) (project : Project)
    → project_at s p ≡ some project
    → (out : List MemoryEntry) × (list_memory_entries s p include_disabled ≡ ok out)
      × ((e : MemoryEntry)
          → Has e out ↔ (
              ((id : String) × (Nested.get p id s.entries ≡ some e))
              × ((include_disabled ≡ true) ⊎ (e.enabled ≡ true))))
      × IsOrdered IsListedBefore out
unfolding list_memory_entries
list_memory_entries-exact s p include_disabled project found =
    let test : MemoryEntry → Bool = λ e. include_disabled || e.enabled in
    rw found (
      listing compare_memory_entries test p s.entries,
      refl,
      λ e. ground (arith, listing-Has compare_memory_entries test p s.entries e),
      IsSorted-IsOrdered compare_memory_entries IsListedBefore compare_memory_entries-IsListedBefore
          (listing compare_memory_entries test p s.entries)
          (listing-IsSorted compare_memory_entries test p s.entries
            compare_memory_entries-IsComparator),
    )

-- ===== src/Reports/Operations/Sound.antt =====
-- The operations brief is given, and agrees with itself.
use cairnline.Base.{
  ℕ, String, false, ◌<◌, ◌≢◌, ◌⊎◌, ◌≡◌, ◌↔◌, refl, eq_iff, arith, List, [], ◌∷◌, Option, none, some,
  ok, inl, inr, ◌==◌, string_eq,
}
use Prim.Native.Nat.{compare, Ordering}
use cairnline.Base.Lists.{count-sort, filter}
use cairnline.Base.Order.{
  compare_string, IsComparator, then_by-IsComparator, key-IsComparator, descending-IsComparator,
  compare-IsComparator, compare_string-IsComparator,
}
use cairnline.Base.Sorting.{sort, Has, sort-IsSorted, IsOrdered, IsSorted-IsOrdered}
use cairnline.Base.Trim.{trim_space, is_blank}
use cairnline.Model.Assignment.{Assignment}
use cairnline.Model.Clock.{Time}
use cairnline.Model.Project.{Project}
use cairnline.Model.Memory.{MemoryCandidate, CandidateStatus, status_eq}
use cairnline.Model.Work.{WorkItem}
use cairnline.MemoryStore.Integrity.Filed.{IsFiled}
use cairnline.MemoryStore.State.{Store, project_at, require_work_item}
use cairnline.MemoryStore.Projects.{get_project}
use cairnline.MemoryStore.Lists.{list_work_items, list_evidence, list_reviews, list_handoffs}
use cairnline.MemoryStore.Listing.{
  list_work_items-ok, list_assignments-ok, list_memory_candidates-ok, list_work_items-Has,
}
use cairnline.Reports.Closeout.{WorkItemCloseoutReadiness, filter_assignments_by_work_item}
use cairnline.Reports.Operations.Types.{
  OperationKind, Severity, ProjectOperationItem, ProjectOperationsBrief,
}
use cairnline.Reports.Operations.Items.{compare_operations, rank_of, operation_rank, candidate_item}
use cairnline.Reports.Operations.Brief.{
  add_each, count_candidate, add_work_item, add_work_items, announce, with_headline,
  evaluate_operations_readiness, project_operations_brief, clear_brief,
}
use cairnline.Reports.Operations.Tally.{Tallied, IsDraft}
use cairnline.Reports.Operations.Draft.{
  candidates-IsDraft, add_work_item-IsDraft, clear_brief-IsDraft,
}

abbrev first_of : List ProjectOperationItem → Option ProjectOperationItem
first_of [] = none
first_of (i ∷ rest) = some i

-- How urgent an item is, the most urgent first: a blocked assignment, missing evidence, a review's
-- follow-up, a handoff, a memory candidate, any other assignment, a closeout, the rest.
abbrev pub urgency : OperationKind → Severity → ℕ
urgency OperationKind.assignment Severity.blocked = 10
urgency OperationKind.missing_evidence severity = 20
urgency OperationKind.review_follow_up severity = 30
urgency OperationKind.handoff severity = 35
urgency OperationKind.memory_candidate severity = 40
urgency OperationKind.assignment severity = 50
urgency OperationKind.closeout_ready severity = 60
urgency OperationKind.work_item severity = 70
urgency OperationKind.project_setup severity = 100
urgency OperationKind.skill severity = 100

-- `a` comes before `b`: it is more urgent; or as urgent, and updated later; or at the same time, and
-- its title is the lesser or the same.
abbrev pub IsMoreUrgent : ProjectOperationItem → ProjectOperationItem → Type 0
IsMoreUrgent a b =
    (urgency a.kind a.severity < urgency b.kind b.severity)
    ⊎ ((urgency a.kind a.severity ≡ urgency b.kind b.severity)
        × ((b.updated_at < a.updated_at)
            ⊎ ((a.updated_at ≡ b.updated_at) × (compare_string a.title b.title ≢ Ordering.gt))))

pub record IsBrief (b : ProjectOperationsBrief) : Type 0 where
  pub tallied : Tallied b.counts b.items
  pub sorted : IsOrdered IsMoreUrgent b.items
  pub next : b.next ≡ first_of b.items
  pub clear : (b.status ≡ "clear") ↔ (b.items ≡ [])

compare_operations-IsComparator : IsComparator compare_operations
unfolding compare_operations
compare_operations-IsComparator =
    then_by-IsComparator _ _ (key-IsComparator operation_rank compare compare-IsComparator) (
      then_by-IsComparator _ _
        (descending-IsComparator (λ (i : ProjectOperationItem). i.updated_at) compare
          compare-IsComparator)
        (key-IsComparator (λ (i : ProjectOperationItem). i.title) compare_string
          compare_string-IsComparator))

rank-urgency :
    (kind : OperationKind) (severity : Severity) → rank_of kind severity ≡ urgency kind severity
rank-urgency OperationKind.assignment Severity.blocked = refl
rank-urgency OperationKind.assignment severity = ground arith
rank-urgency kind severity = ground arith

operation_rank-urgency : (i : ProjectOperationItem) → operation_rank i ≡ urgency i.kind i.severity
operation_rank-urgency i = rank-urgency i.kind i.severity

compare_operations-IsMoreUrgent :
    (a b : ProjectOperationItem) → compare_operations a b ≢ Ordering.gt → IsMoreUrgent a b
unfolding compare_operations
compare_operations-IsMoreUrgent a b h =
    ground (arith, operation_rank-urgency a, operation_rank-urgency b)

sort-IsMoreUrgent :
    (items : List ProjectOperationItem) → IsOrdered IsMoreUrgent (sort compare_operations items)
sort-IsMoreUrgent items =
    IsSorted-IsOrdered compare_operations IsMoreUrgent compare_operations-IsMoreUrgent
      (sort compare_operations items)
      (sort-IsSorted compare_operations compare_operations-IsComparator items)

sort-Tallied :
    (b : ProjectOperationsBrief)
    → Tallied b.counts b.items
    → Tallied b.counts (sort compare_operations b.items)
sort-Tallied b t = record {
  candidates = rw (count-sort compare_operations _ b.items) t.candidates;
  missing = rw (count-sort compare_operations _ b.items) t.missing;
  follow_ups = rw (count-sort compare_operations _ b.items) t.follow_ups;
  handoffs = rw (count-sort compare_operations _ b.items) t.handoffs;
  closeouts = rw (count-sort compare_operations _ b.items) t.closeouts;
  blocked = rw (count-sort compare_operations _ b.items) t.blocked;
  active = rw (count-sort compare_operations _ b.items) t.active;
}

announce-IsBrief :
    (items : List ProjectOperationItem) (b : ProjectOperationsBrief)
    → b.items ≡ items
    → b.status ≡ "clear"
    → b.next ≡ none
    → Tallied b.counts b.items
    → IsOrdered IsMoreUrgent b.items
    → IsBrief (announce items b)
announce-IsBrief [] b same status next t sorted = record {
  tallied = t;
  sorted = sorted;
  next = rw (same, next) refl;
  clear = ground (arith, same, status);
}
announce-IsBrief (i ∷ rest) b same status next t sorted = record {
  tallied = t;
  sorted = sorted;
  next = rw same refl;
  clear = ground (arith, same, eq_iff "attention" "clear");
}

with_headline-IsBrief : (b : ProjectOperationsBrief) → IsDraft b → IsBrief (with_headline b)
unfolding with_headline
with_headline-IsBrief b d =
    announce-IsBrief (sort compare_operations b.items)
      (record b { items = sort compare_operations b.items }) refl d.status d.next
      (sort-Tallied b d.tallied) (sort-IsMoreUrgent b.items)

module _ (quote : String → String) (s : Store) where
  evaluate-ok :
      (w : WorkItem) (own : List Assignment)
      → require_work_item s w.project_id w.id ≡ ok tt
      → (r : WorkItemCloseoutReadiness) × (evaluate_operations_readiness quote s w own ≡ ok r)
  unfolding evaluate_operations_readiness list_evidence list_reviews list_handoffs
  evaluate-ok w own found = rw found (_, refl)

  -- The loop comes to its end when each work item is where it says that it is.
  add_work_items-ok :
      (now : Time) (assignments : List Assignment) (work_items : List WorkItem)
      (b : ProjectOperationsBrief)
      → ((w : WorkItem) → Has w work_items → require_work_item s w.project_id w.id ≡ ok tt)
      → IsDraft b
      → (c : ProjectOperationsBrief) × (add_work_items quote s now assignments work_items b ≡ ok c)
        × IsDraft c
  unfolding add_work_items
  add_work_items-ok now assignments [] b found d = (b, refl, d)
  add_work_items-ok now assignments (w ∷ rest) b found d =
      let own = filter_assignments_by_work_item assignments w.id in
      let r = evaluate-ok w own (found w (inl refl)) in
      let c =
        add_work_items-ok now assignments rest (add_work_item w now own r.0 b)
          (λ v h. found v (inr h)) (add_work_item-IsDraft w now own r.0 b d) in
      (c.0, rw r.1 c.1, c.2)

  -- The work items that the store lists are where they say that they are.
  listed-found :
      (p : String) (project : Project) (work_items : List WorkItem)
      → project_at s p ≡ some project
      → IsFiled s
      → list_work_items s p ≡ ok work_items
      → (w : WorkItem) → Has w work_items
      → require_work_item s w.project_id w.id ≡ ok tt
  unfolding require_work_item
  listed-found p project work_items found filed listed w h =
      let stored = list_work_items-Has s p project work_items w found listed h in
      let names = filed p stored.0 w stored.1 in
      rw (names.project_id, names.own_id, found, stored.1) refl

  -- For a project that exists, in a store that files each work item under its own ids, the
  -- operations brief is given, and it is consistent: each of its counts of pending candidates,
  -- missing evidence, review follow-ups, open handoffs, closeouts, and blocked and active
  -- assignments is the number of its items of that kind; an item stands before those
  -- that are less urgent, that is, blocked assignments, missing evidence, review follow-ups,
  -- handoffs, memory candidates, other assignments, closeouts, other items, in this order; before
  -- those as urgent that were updated earlier; and before those also updated at the same time that
  -- have a greater title; the next item is the first of the items, and the status is "clear" exactly
  -- when there is none.
  pub operations-IsBrief :
      (now : Time) (project_id : String) (project : Project)
      → is_blank project_id ≡ false
      → project_at s (trim_space project_id) ≡ some project
      → IsFiled s
      → (b : ProjectOperationsBrief) × (project_operations_brief quote s now project_id ≡ ok b)
        × IsBrief b
  unfolding project_operations_brief get_project
  operations-IsBrief now project_id project named found filed =
      let p = trim_space project_id in
      let work_items = list_work_items-ok s p project found in
      let assignments = list_assignments-ok s p project found in
      let candidates = list_memory_candidates-ok s p project found "" false in
      let pending =
        filter (λ (c : MemoryCandidate). c.status == CandidateStatus.pending) candidates.0 in
      let start = clear_brief p now work_items.0 assignments.0 in
      let c =
        add_work_items-ok now assignments.0 work_items.0
          (add_each count_candidate candidate_item pending start)
          (listed-found p project work_items.0 found filed work_items.1)
          (candidates-IsDraft pending start
            (clear_brief-IsDraft p now work_items.0 assignments.0)) in
      rw (named, found, work_items.1, assignments.1, candidates.1, c.1)
        (with_headline c.0, refl, with_headline-IsBrief c.0 c.2)

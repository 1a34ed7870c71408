-- ===== src/Reports/Buckets.antt =====
-- The counts and buckets of a project's activity agree with its items.
use Prim.Native.Nat.{compare, Ordering}
use cairnline.Base.{◌+◌, ◌<◌, ◌≢◌, ◌⊎◌, String, false, ◌≡◌, refl, arith, List, [], ◌∷◌, some, ok}
use cairnline.Base.Lists.{length, length-sort}
use cairnline.Base.Order.{
  compare_string, IsComparator, then_by-IsComparator, key-IsComparator, descending-IsComparator,
  compare-IsComparator, compare_string-IsComparator,
}
use cairnline.Base.Sorting.{sort, sort-Has, sort-IsSorted, IsOrdered, IsSorted-IsOrdered}
use cairnline.Model.Assignment.{Assignment}
use cairnline.Base.Trim.{trim_space, is_blank}
use cairnline.Model.Clock.{Time}
use cairnline.Model.Project.{Project}
use cairnline.Model.Work.{Role, WorkItem}
use cairnline.MemoryStore.State.{Store, project_at}
use cairnline.MemoryStore.Projects.{get_project}
use cairnline.MemoryStore.Lists.{list_assignments}
use cairnline.MemoryStore.Listing.{list_work_items-ok, list_roles-ok, list_assignments-ok}
use cairnline.Reports.Activity.{
  Bucket, ProjectActivityItem, ProjectActivity, note_item, note_items, sort_activity, no_activity,
  sort_activity_items, compare_activity_items, project_activity, activity_of, view_of,
}
use cairnline.Reports.Shares.{items_of, Agrees, length-add, note_items-Agrees, no_activity-Agrees}

items_of-sort :
    (b : Bucket) (act : ProjectActivity)
    → items_of b (sort_activity act).buckets ≡ sort compare_activity_items (items_of b act.buckets)
unfolding sort_activity sort_activity_items
items_of-sort Bucket.active act = refl
items_of-sort Bucket.blocked act = refl
items_of-sort Bucket.completed act = refl
items_of-sort Bucket.other act = refl

sort_activity-Agrees : (act : ProjectActivity) → Agrees act → Agrees (sort_activity act)
unfolding sort_activity sort_activity_items
sort_activity-Agrees act g =
    let same = length-sort compare_activity_items in
    record {
      held = λ b i. rw (items_of-sort b act) (
          ground (
            arith,
            sort-Has compare_activity_items i (items_of b act.buckets),
            sort-Has compare_activity_items i act.items,
            g.held b i,
          ));
      recent = λ i. ground (
        arith,
        sort-Has compare_activity_items i act.buckets.recent,
        sort-Has compare_activity_items i act.items,
        g.recent i,
      );
      total = rw (same act.items) g.total;
      statuses = g.statuses;
      active = rw (same act.buckets.active) g.active;
      blocked = rw (same act.buckets.blocked) g.blocked;
      parts =
          rw
            (
              same act.buckets.active,
              same act.buckets.blocked,
              same act.buckets.completed,
              same act.buckets.other,
            )
            g.parts;
    }

compare_activity_items-IsComparator : IsComparator compare_activity_items
unfolding compare_activity_items
compare_activity_items-IsComparator =
    then_by-IsComparator _ _
      (descending-IsComparator (λ (i : ProjectActivityItem). i.updated_at) compare
        compare-IsComparator)
      (then_by-IsComparator _ _
        (descending-IsComparator (λ (i : ProjectActivityItem). i.created_at) compare
          compare-IsComparator)
        (key-IsComparator (λ (i : ProjectActivityItem). i.assignment_id) compare_string
          compare_string-IsComparator))

-- `a` comes before `b` in the lists: it was updated later; or at the same time, and created later; or
-- also at the same time, and its assignment's id is the lesser or the same.
abbrev pub IsNewer : ProjectActivityItem → ProjectActivityItem → Type 0
IsNewer a b =
    (b.updated_at < a.updated_at)
    ⊎ ((a.updated_at ≡ b.updated_at)
        × ((b.created_at < a.created_at)
            ⊎ ((a.created_at ≡ b.created_at)
                × (compare_string a.assignment_id b.assignment_id ≢ Ordering.gt))))

compare_activity_items-IsNewer :
    (a b : ProjectActivityItem) → compare_activity_items a b ≢ Ordering.gt → IsNewer a b
unfolding compare_activity_items
compare_activity_items-IsNewer a b h = ground arith

sort-IsNewer :
    (items : List ProjectActivityItem) → IsOrdered IsNewer (sort compare_activity_items items)
sort-IsNewer items =
    IsSorted-IsOrdered compare_activity_items IsNewer compare_activity_items-IsNewer
      (sort compare_activity_items items)
      (sort-IsSorted compare_activity_items compare_activity_items-IsComparator items)

-- The answer: it agrees with itself, and each of its lists is sorted.
pub record IsReport (act : ProjectActivity) : Type 0 where
  pub agrees : Agrees act
  pub items_sorted : IsOrdered IsNewer act.items
  pub buckets_sorted : (b : Bucket) → IsOrdered IsNewer (items_of b act.buckets)
  pub recent_sorted : IsOrdered IsNewer act.buckets.recent

sort_activity-IsReport : (act : ProjectActivity) → Agrees act → IsReport (sort_activity act)
unfolding sort_activity sort_activity_items
sort_activity-IsReport act g = record {
  agrees = sort_activity-Agrees act g;
  items_sorted = sort-IsNewer act.items;
  buckets_sorted = λ b. rw (items_of-sort b act) (sort-IsNewer (items_of b act.buckets));
  recent_sorted = sort-IsNewer act.buckets.recent;
}

note_items-length :
    (view : Assignment → ProjectActivityItem) (assignments : List Assignment)
    (act : ProjectActivity)
    → length (note_items view assignments act).items ≡ length act.items + length assignments
unfolding note_items note_item
note_items-length view [] act = omega arith
note_items-length view (a ∷ rest) act =
    omega
      (arith, note_items-length view rest (note_item (view a) act), length-add act.items (view a))

module _ (now : Time) (p : String) (work_items : List WorkItem) (roles : List Role)
    (assignments : List Assignment) where
  activity_of-IsReport : IsReport (activity_of now p work_items roles assignments)
  unfolding activity_of
  activity_of-IsReport =
      sort_activity-IsReport
        (note_items (view_of now work_items roles) assignments (no_activity p now))
        (note_items-Agrees (view_of now work_items roles) assignments (no_activity p now)
          (no_activity-Agrees p now))

  activity_of-length :
      length (activity_of now p work_items roles assignments).items ≡ length assignments
  unfolding activity_of sort_activity sort_activity_items no_activity
  activity_of-length = omega (
    arith,
    length-sort compare_activity_items
        (note_items (view_of now work_items roles) assignments (no_activity p now)).items,
    note_items-length (view_of now work_items roles) assignments (no_activity p now),
  )

-- For a project that exists, the activity report is given, with an item for each assignment, and
-- it is consistent: each bucket holds exactly the items that carry its name, the recent list holds
-- all items, the counts by status add up to the number of items, the active and the blocked count
-- are the lengths of these buckets, the four buckets together are as long as the items, and in each
-- list (the items, the four buckets, the recent ones) an item stands before those that were updated
-- earlier, or at the same time and created earlier, or both at the same time with a greater
-- assignment id.
pub activity-IsReport :
    (s : Store) (now : Time) (project_id : String) (project : Project)
    → is_blank project_id ≡ false
    → project_at s (trim_space project_id) ≡ some project
    → (act : ProjectActivity) × (assignments : List Assignment) × (project_activity s now project_id
        ≡ ok act)
      × (list_assignments s (trim_space project_id) ≡ ok assignments)
      × (length act.items ≡ length assignments)
      × IsReport act
unfolding project_activity get_project
activity-IsReport s now project_id project named found =
    let p = trim_space project_id in
    let work_items = list_work_items-ok s p project found in
    let roles = list_roles-ok s p project found in
    let assignments = list_assignments-ok s p project found in
    rw (named, found, work_items.1, roles.1, assignments.1)
      (
        activity_of now p work_items.0 roles.0 assignments.0,
        assignments.0,
        refl,
        refl,
        activity_of-length now p work_items.0 roles.0 assignments.0,
        activity_of-IsReport now p work_items.0 roles.0 assignments.0,
      )

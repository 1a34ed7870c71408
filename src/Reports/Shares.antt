-- ===== src/Reports/Shares.antt =====
-- The counts and buckets of a project's activity, one item after another.
use cairnline.Base.{ℕ, ◌+◌, String, ◌≡◌, ◌↔◌, ◌⊎◌, refl, ap, arith, List, [], ◌∷◌, ◌++◌}
use cairnline.Base.Lists.{length, append-Has}
use cairnline.Base.Sorting.{Has}
use cairnline.Model.Assignment.{Assignment, AssignmentStatus}
use cairnline.Model.Clock.{Time}
use cairnline.Reports.Activity.{
  Bucket, ProjectActivityItem, ProjectActivityBuckets, ProjectActivityCounts, ProjectActivity,
  note_item, note_items, no_activity, count_bucket, count_activity_status, add_to_bucket,
}

-- The bucket of a name.
abbrev pub items_of : Bucket → ProjectActivityBuckets → List ProjectActivityItem
items_of Bucket.active b = b.active
items_of Bucket.blocked b = b.blocked
items_of Bucket.completed b = b.completed
items_of Bucket.other b = b.other

abbrev total_of_statuses : ProjectActivityCounts → ℕ
total_of_statuses c =
    c.queued + c.claimed + c.running + c.awaiting_approval + c.awaiting_review + c.completed
    + c.failed + c.cancelled + c.other

pub record Agrees (act : ProjectActivity) : Type 0 where
  -- Each bucket holds the items that name it, and the recent ones are all items.
  pub held :
      (b : Bucket) (i : ProjectActivityItem)
      → Has i (items_of b act.buckets) ↔ (Has i act.items × (i.bucket ≡ b))
  pub recent : (i : ProjectActivityItem) → Has i act.buckets.recent ↔ Has i act.items
  pub total : length act.items ≡ act.counts.assignments
  pub statuses : total_of_statuses act.counts ≡ act.counts.assignments
  pub active : length act.buckets.active ≡ act.counts.active
  pub blocked : length act.buckets.blocked ≡ act.counts.blocked
  pub parts :
      length act.buckets.active
        + length act.buckets.blocked
        + length act.buckets.completed
        + length act.buckets.other
      ≡ act.counts.assignments

abbrev total_length : ProjectActivityBuckets → ℕ
total_length b = length b.active + length b.blocked + length b.completed + length b.other

pub length-add : {A : Type 0} (xs : List A) (x : A) → length (xs ++ x ∷ []) ≡ length xs + 1
length-add [] x = refl
length-add (y ∷ ys) x = omega (arith, length-add ys x)

items_of-add :
    (b c : Bucket) (i j : ProjectActivityItem) (bs : ProjectActivityBuckets)
    → Has j (items_of b (add_to_bucket c i bs)) ↔ (Has j (items_of b bs) ⊎ ((i ≡ j) × (c ≡ b)))
items_of-add Bucket.active c i j bs = ground (arith, append-Has j bs.active (i ∷ []))
items_of-add Bucket.blocked c i j bs = ground (arith, append-Has j bs.blocked (i ∷ []))
items_of-add Bucket.completed c i j bs = ground (arith, append-Has j bs.completed (i ∷ []))
items_of-add Bucket.other c i j bs = ground (arith, append-Has j bs.other (i ∷ []))

items_of-recent :
    (b : Bucket) (bs : ProjectActivityBuckets) (recent : List ProjectActivityItem)
    → items_of b (record bs { recent = recent }) ≡ items_of b bs
items_of-recent Bucket.active bs recent = refl
items_of-recent Bucket.blocked bs recent = refl
items_of-recent Bucket.completed bs recent = refl
items_of-recent Bucket.other bs recent = refl

recent-add :
    (c : Bucket) (i : ProjectActivityItem) (bs : ProjectActivityBuckets)
    → (add_to_bucket c i bs).recent ≡ bs.recent
recent-add c i bs = ground arith

note_item-held :
    (i : ProjectActivityItem) (act : ProjectActivity)
    → Agrees act
    → (b : Bucket) (j : ProjectActivityItem)
    → Has j (items_of b (note_item i act).buckets)
      ↔ (Has j (note_item i act).items × (j.bucket ≡ b))
unfolding note_item
note_item-held i act g b j = rw (items_of-recent b (add_to_bucket i.bucket i act.buckets) _) (
    ground (
      arith,
      items_of-add b i.bucket i j act.buckets,
      append-Has j act.items (i ∷ []),
      g.held b j,
      λ (same : i ≡ j). ap (λ k. k.bucket) same,
    ))

-- What a round adds to the counts.
statuses-count :
    (b : Bucket) (s : AssignmentStatus) (c : ProjectActivityCounts)
    → (total_of_statuses (count_bucket b (count_activity_status s c)) ≡ total_of_statuses c + 1)
      × ((count_bucket b (count_activity_status s c)).assignments ≡ c.assignments)
statuses-count b s c = ground arith

buckets-count :
    (b : Bucket) (s : AssignmentStatus) (c : ProjectActivityCounts) (i : ProjectActivityItem)
    (bs : ProjectActivityBuckets)
    → length bs.active ≡ c.active
    → length bs.blocked ≡ c.blocked
    → (length (add_to_bucket b i bs).active ≡ (count_bucket b (count_activity_status s c)).active)
      × (length (add_to_bucket b i bs).blocked
          ≡ (count_bucket b (count_activity_status s c)).blocked)
buckets-count b s c i bs h k = ground (arith, length-add bs.active i, length-add bs.blocked i)

parts-add :
    (b : Bucket) (i : ProjectActivityItem) (bs : ProjectActivityBuckets)
    → total_length (add_to_bucket b i bs) ≡ total_length bs + 1
parts-add Bucket.active i bs = ground (arith, length-add bs.active i)
parts-add Bucket.blocked i bs = ground (arith, length-add bs.blocked i)
parts-add Bucket.completed i bs = ground (arith, length-add bs.completed i)
parts-add Bucket.other i bs = ground (arith, length-add bs.other i)

note_item-Agrees :
    (i : ProjectActivityItem) (act : ProjectActivity) → Agrees act → Agrees (note_item i act)
unfolding note_item
note_item-Agrees i act g =
    let total = record act.counts { assignments = act.counts.assignments + 1 } in
    let counted = statuses-count i.bucket i.status total in
    let filled = buckets-count i.bucket i.status total i act.buckets g.active g.blocked in
    record {
      held = note_item-held i act g;
      recent = λ j. rw (recent-add i.bucket i act.buckets) (
          ground (
            arith,
            append-Has j act.buckets.recent (i ∷ []),
            append-Has j act.items (i ∷ []),
            g.recent j,
          ));
      total = omega (arith, length-add act.items i, counted.1, g.total);
      statuses = omega (arith, counted.0, counted.1, g.statuses);
      active = filled.0;
      blocked = filled.1;
      parts = omega (arith, counted.1, parts-add i.bucket i act.buckets, g.parts);
    }

pub note_items-Agrees :
    (view : Assignment → ProjectActivityItem) (assignments : List Assignment)
    (act : ProjectActivity)
    → Agrees act
    → Agrees (note_items view assignments act)
unfolding note_items
note_items-Agrees view [] act g = g
note_items-Agrees view (a ∷ rest) act g =
    note_items-Agrees view rest (note_item (view a) act) (note_item-Agrees (view a) act g)

pub no_activity-Agrees : (p : String) (now : Time) → Agrees (no_activity p now)
unfolding no_activity
no_activity-Agrees p now = record {
  held = λ b i. ground arith;
  recent = λ i. ground arith;
  total = refl;
  statuses = refl;
  active = refl;
  blocked = refl;
  parts = refl;
}

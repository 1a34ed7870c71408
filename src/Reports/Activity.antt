-- ===== src/Reports/Activity.antt =====
-- internal/core/activity.go: a project's assignments, counted by status and sorted into buckets.
-- `now` is the reading of the service's clock.
mod Types
pub use Types.*
use Prim.Native.Nat.{Ordering}
use cairnline.Base.{
  ℕ, ◌+◌, String, Bool, true, false, not, ◌&&◌, ◌≡◌, ◌↔◌, arith, List, [], ◌∷◌, ◌++◌, Option, none,
  some, Result, ok, invalid, reject, ◌>>◌, ◌>>=◌, if◌then◌else◌, Eq, ◌==◌, nat_eq, string_eq,
}
use cairnline.Base.Order.{then_by, compare_string}
use cairnline.Base.Sorting.{sort}
use cairnline.Base.Table
use cairnline.Base.Table.{Table}
use cairnline.Base.Trim.{trim_space}
use cairnline.Model.Assignment.{
  Assignment, AssignmentStatus, AssignmentClaimLease, ExecutionRef, trimmed_status, status_eq,
}
use cairnline.Model.Clock.{Time, is_zero, before}
use cairnline.Model.Work.{Role, WorkItem}
use cairnline.MemoryStore.State.{Store}
use cairnline.MemoryStore.Projects.{get_project}
use cairnline.MemoryStore.Lists.{latest, list_work_items, list_roles, list_assignments}

-- `projectActivityBucket`
abbrev activity_bucket : AssignmentStatus → Bucket
activity_bucket AssignmentStatus.claimed = active
activity_bucket AssignmentStatus.running = active
activity_bucket AssignmentStatus.awaiting_review = active
activity_bucket AssignmentStatus.queued = blocked
activity_bucket AssignmentStatus.awaiting_approval = blocked
activity_bucket AssignmentStatus.failed = blocked
activity_bucket AssignmentStatus.cancelled = blocked
activity_bucket AssignmentStatus.completed = completed
activity_bucket (AssignmentStatus.other s) = other

-- A lease that has an end, which is not after `now`.
abbrev pub is_lapsed : Option AssignmentClaimLease → Time → Bool
is_lapsed none now = false
is_lapsed (some c) now = not (is_zero c.expires_at) && not (before now c.expires_at)

-- A missing work item and a missing role read as their zero values.
abbrev title_of : Option WorkItem → String
title_of none = ""
title_of (some w) = w.title

abbrev name_of : Option Role → String
name_of none = ""
name_of (some r) = r.name

-- `projectActivityItem`
unfoldable activity_item : Assignment → Option WorkItem → Option Role → Time → ProjectActivityItem
activity_item a item role now =
    let lapsed = a.status == AssignmentStatus.claimed && is_lapsed a.claim now in
    record {
      bucket = if lapsed then blocked else activity_bucket (trimmed_status a.status);
      assignment_id = a.id;
      work_item_id = a.work_item_id;
      work_item_title = title_of item;
      role_id = a.role_id;
      role_name = name_of role;
      root_id = a.root_id;
      status = trimmed_status a.status;
      execution_mode = a.execution_mode;
      desired_agent_kind = a.desired_agent.kind;
      execution_ref = a.execution_ref;
      created_at = a.created_at;
      updated_at = a.updated_at;
    }

-- `countProjectActivityStatus`; the status of an item is trimmed already.
abbrev pub count_activity_status : AssignmentStatus → ProjectActivityCounts → ProjectActivityCounts
count_activity_status AssignmentStatus.queued c = record c { queued = c.queued + 1 }
count_activity_status AssignmentStatus.claimed c = record c { claimed = c.claimed + 1 }
count_activity_status AssignmentStatus.running c = record c { running = c.running + 1 }
count_activity_status AssignmentStatus.awaiting_approval c = record c {
  awaiting_approval = c.awaiting_approval + 1;
}
count_activity_status AssignmentStatus.awaiting_review c = record c {
  awaiting_review = c.awaiting_review + 1;
}
count_activity_status AssignmentStatus.completed c = record c { completed = c.completed + 1 }
count_activity_status AssignmentStatus.failed c = record c { failed = c.failed + 1 }
count_activity_status AssignmentStatus.cancelled c = record c { cancelled = c.cancelled + 1 }
count_activity_status (AssignmentStatus.other s) c = record c { other = c.other + 1 }

-- The switch on the item's bucket.
abbrev pub count_bucket : Bucket → ProjectActivityCounts → ProjectActivityCounts
count_bucket active c = record c { active = c.active + 1 }
count_bucket blocked c = record c { blocked = c.blocked + 1 }
count_bucket completed c = c
count_bucket other c = c

abbrev pub add_to_bucket :
    Bucket → ProjectActivityItem → ProjectActivityBuckets → ProjectActivityBuckets
add_to_bucket active i b = record b { active = b.active ++ i ∷ [] }
add_to_bucket blocked i b = record b { blocked = b.blocked ++ i ∷ [] }
add_to_bucket completed i b = record b { completed = b.completed ++ i ∷ [] }
add_to_bucket other i b = record b { other = b.other ++ i ∷ [] }

-- One round of the loop over the assignments.
unfoldable pub note_item : ProjectActivityItem → ProjectActivity → ProjectActivity
note_item i act =
    let total = record act.counts { assignments = act.counts.assignments + 1 } in
    let filled = add_to_bucket i.bucket i act.buckets in
    record act {
      counts = count_bucket i.bucket (count_activity_status i.status total);
      buckets = record filled { recent = filled.recent ++ i ∷ [] };
      items = act.items ++ i ∷ [];
    }

unfoldable pub note_items :
    (Assignment → ProjectActivityItem) → List Assignment → ProjectActivity → ProjectActivity
unfolding note_item
note_items view [] act = act
note_items view (a ∷ rest) act = note_items view rest (note_item (view a) act)

-- The order of `sortProjectActivityItems`
unfoldable pub compare_activity_items : ProjectActivityItem → ProjectActivityItem → Ordering
compare_activity_items a b =
    then_by (latest a.updated_at b.updated_at)
      (then_by (latest a.created_at b.created_at) (compare_string a.assignment_id b.assignment_id))

unfoldable pub sort_activity_items : List ProjectActivityItem → List ProjectActivityItem
unfolding compare_activity_items
sort_activity_items = sort compare_activity_items

unfoldable pub sort_activity : ProjectActivity → ProjectActivity
unfolding sort_activity_items
sort_activity act = record act {
  items = sort_activity_items act.items;
  buckets = record {
    active = sort_activity_items act.buckets.active;
    blocked = sort_activity_items act.buckets.blocked;
    completed = sort_activity_items act.buckets.completed;
    other = sort_activity_items act.buckets.other;
    recent = sort_activity_items act.buckets.recent;
  };
}

unfoldable pub no_activity : String → Time → ProjectActivity
no_activity p now = record {
  project_id = p;
  counts = record {
    assignments = 0;
    queued = 0;
    claimed = 0;
    running = 0;
    awaiting_approval = 0;
    awaiting_review = 0;
    completed = 0;
    failed = 0;
    cancelled = 0;
    other = 0;
    active = 0;
    blocked = 0;
  };
  buckets = record { active = []; blocked = []; completed = []; other = []; recent = [] };
  items = [];
  created_at = now;
}

-- `workItemsByID` and `rolesByID`: the last of two with one id stays.
unfoldable index_work_items : List WorkItem → Table String WorkItem → Table String WorkItem
unfolding Table.put
index_work_items [] out = out
index_work_items (w ∷ rest) out = index_work_items rest (Table.put w.id w out)

unfoldable index_roles : List Role → Table String Role → Table String Role
unfolding Table.put
index_roles [] out = out
index_roles (r ∷ rest) out = index_roles rest (Table.put r.id r out)

-- An assignment with its work item and role, as the listed ones show it.
unfoldable pub view_of : Time → List WorkItem → List Role → Assignment → ProjectActivityItem
unfolding activity_item index_work_items index_roles Table.get Table.empty
view_of now work_items roles a =
    let item = Table.get a.work_item_id (index_work_items work_items Table.empty) in
    activity_item a item (Table.get a.role_id (index_roles roles Table.empty)) now

-- The report on what the store lists.
unfoldable pub activity_of :
    Time → String → List WorkItem → List Role → List Assignment → ProjectActivity
unfolding note_items sort_activity no_activity view_of
activity_of now p work_items roles assignments =
    sort_activity (note_items (view_of now work_items roles) assignments (no_activity p now))

-- `ProjectActivity`, the service's method
unfoldable pub project_activity : Store → Time → String → Result ProjectActivity
unfolding get_project
project_activity s now project_id = do
  let p = trim_space project_id
  reject (p == "") (invalid "project_id is required")
  project ← get_project s p
  work_items ← list_work_items s p
  roles ← list_roles s p
  assignments ← list_assignments s p
  ok (activity_of now p work_items roles assignments)

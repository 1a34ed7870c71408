-- ===== src/MemoryStore/Transact.antt =====
-- The methods on assignments against the commands of Lifecycle (internal/core/memory_store.go).
use cairnline.Base.{
  String, true, some, ◌≡◌, refl, Result, ok, require, ◌>>=◌, ◌>>◌, arith, is_some, >>=-eq-ok,
}
use cairnline.Base.Nested
use cairnline.Model.Clock.{Time}
use cairnline.Model.Assignment.{Assignment}
use cairnline.Lifecycle.Commands.{renew, Command, fenced, edit_queued, check, change, change_fenced}
use cairnline.MemoryStore.State.{Store, project_at, require_project}
use cairnline.MemoryStore.Assignments.{
  locate, on_assignment, store_assignment, update_queued_assignment, claim_assignment_with_lease,
  renew_assignment_claim, recover_assignment_claim, prepare_assignment_with_claim,
  release_assignment_with_claim, update_assignment_status_with_claim,
  complete_assignment_with_claim, claim_assignment, prepare_assignment, release_assignment,
  complete_assignment, update_assignment_status,
}
use cairnline.MemoryStore.Calls.{transact}

-- The references that an edit names, and no other command does.
abbrev pub require_replacement : Store → String → Command → Result (Unit {0})
require_replacement s p (edit_queued u) = do
  require_project s p
  require (Nested.get p u.replacement.work_item_id s.work_items)
  require (Nested.get p u.replacement.role_id s.roles)
require_replacement s p _ = ok tt

-- Each of the thirteen methods is its own check, the check of the references that an edit names, and
-- then the look-up, the command's step and the write.
pub transact_lem :
    (s : Store) (p id : String) (c : Command) (now : Time)
    → transact s p id c now
      ≡ (do check c; require_replacement s p c; on_assignment (change c now) s p id)
unfolding transact check change change_fenced update_queued_assignment claim_assignment_with_lease
    renew_assignment_claim recover_assignment_claim prepare_assignment_with_claim
    release_assignment_with_claim update_assignment_status_with_claim complete_assignment_with_claim
    claim_assignment prepare_assignment release_assignment complete_assignment
    update_assignment_status
transact_lem s p id (fenced c (renew ttl)) now = refl
transact_lem s p id (fenced c m) now = refl
transact_lem s p id (edit_queued u) now = ground arith
transact_lem s p id c now = refl

locate-eq-ok :
    (s : Store) (p id : String) (a : Assignment)
    → locate s p id ≡ ok a
    → (is_some (project_at s p) ≡ true) × (Nested.get p id s.assignments ≡ some a)
unfolding locate
locate-eq-ok s p id a h = ground arith

pub on_assignment-eq-ok :
    (f : Assignment → Result Assignment) (s : Store) (p id : String) (b : Assignment) (t : Store)
    → on_assignment f s p id ≡ ok (b, t)
    → (a : Assignment) × (is_some (project_at s p) ≡ true)
      × (Nested.get p id s.assignments ≡ some a)
      × (f a ≡ ok b)
      × (t ≡ store_assignment p id b s)
unfolding on_assignment
on_assignment-eq-ok f s p id b t h = (
  a,
  (locate-eq-ok s p id a found.1).0,
  (locate-eq-ok s p id a found.1).1,
  ground (arith, changed.1, changed.2),
  ground (arith, changed.1, changed.2),
)
  where
    write : Assignment → Result (Assignment × Store)
    write x = ok (x, store_assignment p id x s)

    found : (x : Assignment) × (locate s p id ≡ ok x) × ((do y ← f x; write y) ≡ ok (b, t))
    found = >>=-eq-ok (locate s p id) (λ x. do y ← f x; write y) h

    a : Assignment
    a = found.0

    changed : (y : Assignment) × (f a ≡ ok y) × (write y ≡ ok (b, t))
    changed = >>=-eq-ok (f a) write found.2

-- What a method that succeeds has found, checked and written.
pub transact-eq-ok :
    (s : Store) (p id : String) (c : Command) (now : Time) (b : Assignment) (t : Store)
    → transact s p id c now ≡ ok (b, t)
    → (a : Assignment) × (is_some (project_at s p) ≡ true)
      × (Nested.get p id s.assignments ≡ some a)
      × (check c ≡ ok tt)
      × (require_replacement s p c ≡ ok tt)
      × (change c now a ≡ ok b)
      × (t ≡ store_assignment p id b s)
transact-eq-ok s p id c now b t h =
    let inner =
      on_assignment-eq-ok (change c now) s p id b t (ground (arith, transact_lem s p id c now)) in
    (
      inner.0,
      inner.1,
      inner.2,
      ground (arith, transact_lem s p id c now),
      ground (arith, transact_lem s p id c now),
      inner.3,
      inner.4,
    )

-- ===== src/MemoryStore/FollowUps.antt =====
-- What the two ways to a follow-up have found, and what an accepted command has done.
use cairnline.Base.{
  String, true, some, none, ◌≡◌, ◌≢◌, arith, ok, eq_iff, ◌==◌, string_eq, nat_eq, is_some,
}
use cairnline.Base.Nested
use cairnline.Model.Clock.{Time}
use cairnline.Model.Work.{Role}
use cairnline.Model.Assignment.{AssignmentStatus}
use cairnline.Model.Handoff.{Handoff, HandoffStatus, created, already_satisfied, status_eq}
use cairnline.MemoryStore.State.{Store, key_eq}
use cairnline.MemoryStore.Assignments.{store_assignment}
use cairnline.MemoryStore.Accept.{
  FollowUp, link_existing, create_follow_up, new_assignment, target_work_item_for,
}

-- The assignment that the handoff names, of its role and its target work item, which exists.
pub record Linked (s : Store) (p : String) (h : Handoff) (f : FollowUp) : Type 0 where
  pub found : Nested.get p h.target_assignment_id s.assignments ≡ some f.assignment
  pub role : f.assignment.role_id ≡ h.to_role_id
  pub item : is_some (Nested.get p f.assignment.work_item_id s.work_items) ≡ true
  pub current : f.current ≡ record h { target_work_item_id = f.assignment.work_item_id }
  pub store : f.store ≡ s
  pub outcome : f.outcome ≢ created
  pub satisfied :
      f.outcome ≡ already_satisfied
      → (h.status == HandoffStatus.accepted) ≡ true
        × (h.target_work_item_id ≡ f.assignment.work_item_id)

pub link_existing-Linked :
    (s : Store) (p : String) (h : Handoff) (f : FollowUp)
    → link_existing s p h ≡ ok f
    → Linked s p h f
unfolding link_existing
link_existing-Linked s p h f e = record {
  found = ground arith;
  role = ground (arith, eq_iff f.assignment.role_id h.to_role_id);
  item = ground arith;
  current = ground arith;
  store = ground arith;
  outcome = ground arith;
  satisfied = λ same. ground (arith, eq_iff h.target_work_item_id f.assignment.work_item_id);
}

-- A new assignment for the handoff's role, under an id that was free.
pub record Created (s : Store) (p : String) (h : Handoff) (new_id : String) (f : FollowUp)
    : Type 0 where
  pub free : Nested.get p new_id s.assignments ≡ none
  pub item : is_some (Nested.get p (target_work_item_for h) s.work_items) ≡ true
  pub id : f.assignment.id ≡ new_id
  pub project_id : f.assignment.project_id ≡ p
  pub work_item_id : f.assignment.work_item_id ≡ target_work_item_for h
  pub role : f.assignment.role_id ≡ h.to_role_id
  pub claim : f.assignment.claim ≡ none
  pub status : f.assignment.status ≡ AssignmentStatus.queued
  pub current :
      f.current
      ≡ record h { target_assignment_id = new_id; target_work_item_id = target_work_item_for h }
  pub store : f.store ≡ store_assignment p new_id f.assignment s
  pub outcome : f.outcome ≡ created

pub create_follow_up-Created :
    (s : Store) (p : String) (h : Handoff) (role : Role) (new_id : String) (stamp : Time)
    (f : FollowUp)
    → create_follow_up s p h role new_id stamp ≡ ok f
    → Created s p h new_id f
unfolding create_follow_up new_assignment
create_follow_up-Created s p h role new_id stamp f e = record {
  free = ground arith;
  item = ground arith;
  id = ground arith;
  project_id = ground arith;
  work_item_id = ground arith;
  role = ground arith;
  claim = ground arith;
  status = ground arith;
  current = ground arith;
  store = ground arith;
  outcome = ground arith;
}

-- ===== src/MemoryStore/Integrity/Accept.antt =====
-- The invariant under the acceptance of handoffs.
use cairnline.Base.{
  String, true, Option, some, none, ◌≡◌, ◌⊎◌, inl, inr, sym, subst, arith, Result, ok, string_eq,
  nat_eq, is_some, Result-cases,
}
use cairnline.Base.Table
use cairnline.Base.Nested
use cairnline.Model.Clock.{Time}
use cairnline.Model.Assignment.{Assignment}
use cairnline.Model.Handoff.{
  Handoff, AcceptHandoffWithFollowUpCommand, FollowUpOutcome, created, linked_existing,
  already_satisfied, HandoffFollowUpResult, status_eq,
}
use cairnline.Lifecycle.Validity.{IsWellClaimedBy}
use cairnline.MemoryStore.State.{Store, Receipt, key_eq}
use cairnline.MemoryStore.Each.{Each-put}
use cairnline.MemoryStore.Assignments.{store_assignment}
use cairnline.MemoryStore.Accept.{
  RequestPayload, FollowUp, conclude, settle, accepted_at, store_settled, request_hash, answer,
  replay, accept_handoff_with_follow_up, accept_first, target_work_item_for, receipt_key,
}
use cairnline.MemoryStore.FollowUps.{Linked, Created}
use cairnline.MemoryStore.Accepted.{accept_first-eq-ok}
use cairnline.MemoryStore.Integrity.Defs.{AssignmentFits, HandoffFits, IsConsistent}
use cairnline.MemoryStore.Integrity.Handoffs.{store_handoff-IsConsistent}

-- The handoff with its target fits the store, and the store with the follow-up is consistent.
record FollowUpFits (s : Store) (p id : String) (f : FollowUp) : Type 0 where
  pub fits : HandoffFits f.store.projects f.store.work_items p id f.current
  pub consistent : IsConsistent f.store

-- Another target, which exists, and any assignment.
retarget-fits :
    (s : Store) (p id w a : String) (h : Handoff)
    → is_some (Nested.get p w s.work_items) ≡ true
    → HandoffFits s.projects s.work_items p id h
    → HandoffFits s.projects s.work_items p id
        (record h { target_assignment_id = a; target_work_item_id = w })
retarget-fits s p id w a h known o = record {
  item = o.item;
  target = (o.item.0, ground (arith, o.item.1));
  project_id = o.project_id;
  own_id = o.own_id;
}

Linked-FollowUpFits :
    (s : Store) (p id : String) (h : Handoff) (f : FollowUp)
    → Linked s p h f
    → HandoffFits s.projects s.work_items p id h
    → IsConsistent s
    → FollowUpFits s p id f
Linked-FollowUpFits s p id h f l o c = record {
  fits =
      subst (λ t. HandoffFits t.projects t.work_items p id f.current) (sym l.store)
        (subst (HandoffFits s.projects s.work_items p id) (sym l.current)
          (retarget-fits s p id f.assignment.work_item_id h.target_assignment_id h l.item o));
  consistent = subst IsConsistent (sym l.store) c;
}

store_assignment-IsConsistent :
    (s : Store) (p id : String) (a : Assignment)
    → AssignmentFits s.projects s.work_items p id a
    → IsConsistent s
    → IsConsistent (store_assignment p id a s)
store_assignment-IsConsistent s p id a f c = record {
  assignments =
      Each-put (AssignmentFits s.projects s.work_items) s.assignments c.assignments p id a f;
  artifacts = c.artifacts;
  evidence = c.evidence;
  reviews = c.reviews;
  handoffs = c.handoffs;
}

Created-FollowUpFits :
    (s : Store) (p id new_id : String) (h : Handoff) (f : FollowUp)
    → Created s p h new_id f
    → HandoffFits s.projects s.work_items p id h
    → IsConsistent s
    → FollowUpFits s p id f
Created-FollowUpFits s p id new_id h f n o c = record {
  fits =
      subst (λ t. HandoffFits t.projects t.work_items p id f.current) (sym n.store)
        (subst (HandoffFits s.projects s.work_items p id) (sym n.current)
          (retarget-fits s p id (target_work_item_for h) new_id h n.item o));
  consistent = subst IsConsistent (sym n.store) (
      store_assignment-IsConsistent s p new_id f.assignment
        (record {
          item = (
            o.item.0,
            subst (λ w. is_some (Nested.get p w s.work_items) ≡ true) (sym n.work_item_id) n.item,
          );
          project_id = n.project_id;
          own_id = n.id;
          claim = subst (IsWellClaimedBy f.assignment) (sym n.claim) tt;
        })
        c);
}

accepted_at-fits :
    (s : Store) (p id : String) (h : Handoff) (now : Time)
    → HandoffFits s.projects s.work_items p id h
    → HandoffFits s.projects s.work_items p id (accepted_at h now)
unfolding accepted_at
accepted_at-fits s p id h now f = record {
  item = f.item;
  target = f.target;
  project_id = f.project_id;
  own_id = f.own_id;
}

settled-IsConsistent :
    (o : FollowUpOutcome) (s : Store) (p id : String) (h : Handoff) (now : Time)
    → HandoffFits s.projects s.work_items p id h
    → IsConsistent s
    → IsConsistent (store_settled o p id (settle o h now) s)
settled-IsConsistent already_satisfied s p id h now f c = c
settled-IsConsistent linked_existing s p id h now f c =
    store_handoff-IsConsistent s p id (accepted_at h now) (accepted_at-fits s p id h now f) c
settled-IsConsistent created s p id h now f c =
    store_handoff-IsConsistent s p id (accepted_at h now) (accepted_at-fits s p id h now f) c

conclude-IsConsistent :
    (c : AcceptHandoffWithFollowUpCommand) (hash : String) (now : Time) (s : Store) (f : FollowUp)
    → FollowUpFits s c.project_id c.handoff_id f
    → IsConsistent (conclude c hash now f).1
unfolding conclude
conclude-IsConsistent c hash now s f fit =
    let v =
      settled-IsConsistent f.outcome f.store c.project_id c.handoff_id f.current now fit.fits
        fit.consistent in
    record {
      assignments = v.assignments;
      artifacts = v.artifacts;
      evidence = v.evidence;
      reviews = v.reviews;
      handoffs = v.handoffs;
    }

module _ (fingerprint : RequestPayload → String) where
  first-IsConsistent :
      (s : Store) (c : AcceptHandoffWithFollowUpCommand) (new_id : String) (stamp now : Time)
      (r : HandoffFollowUpResult) (t : Store)
      → accept_first fingerprint s c new_id stamp now ≡ ok (r, t)
      → IsConsistent s
      → IsConsistent t
  first-IsConsistent s c new_id stamp now r t e v =
      let facts = accept_first-eq-ok fingerprint s c new_id stamp now r t e in
      let own = v.handoffs c.project_id c.handoff_id facts.handoff facts.stored in
      let fits : FollowUpFits s c.project_id c.handoff_id facts.follow_up = elim facts.followed [
        | inl l ↦
            Linked-FollowUpFits s c.project_id c.handoff_id facts.handoff facts.follow_up l own v
        | inr n ↦
            Created-FollowUpFits s c.project_id c.handoff_id new_id facts.handoff facts.follow_up n
              own v
      ] in
      subst (λ q. IsConsistent q.1) facts.concluded
        (conclude-IsConsistent c (request_hash fingerprint c) now s facts.follow_up fits)

  pub answer-cases :
      (s : Store) (c : AcceptHandoffWithFollowUpCommand) (o : Option Receipt)
      (first : Result (HandoffFollowUpResult × Store)) (r : HandoffFollowUpResult) (t : Store)
      → answer fingerprint s c o first ≡ ok (r, t)
      → (t ≡ s) ⊎ (first ≡ ok (r, t))
  answer-cases s c none first r t e = inr e
  answer-cases s c (some receipt) first r t e = elim (Result-cases (replay s c receipt.result)) [
    | inl (_, failed) ↦ ground arith
    | inr (_, again) ↦ inl (ground arith)
  ]

  pub accept_handoff-IsConsistent :
      (s : Store) (c : AcceptHandoffWithFollowUpCommand) (new_id : String) (stamp now : Time)
      (r : HandoffFollowUpResult) (t : Store)
      → accept_handoff_with_follow_up fingerprint s c new_id stamp now ≡ ok (r, t)
      → IsConsistent s
      → IsConsistent t
  unfolding accept_handoff_with_follow_up
  accept_handoff-IsConsistent s c new_id stamp now r t e v =
      elim (answer-cases s c (Table.get (receipt_key c) s.receipts)
        (accept_first fingerprint s c new_id stamp now) r t e) [
          | inl same ↦ subst IsConsistent (sym same) v
          | inr first ↦ first-IsConsistent s c new_id stamp now r t first v
        ]

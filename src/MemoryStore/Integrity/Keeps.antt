-- ===== src/MemoryStore/Integrity/Keeps.antt =====
-- Most calls leave the projects and the work items alone.
use cairnline.Base.{String, ◌≡◌, ◌∙◌, inl, inr, refl, ap, subst, arith, ok}
use cairnline.Base.Table
use cairnline.Model.Clock.{Time}
use cairnline.Model.Handoff.{
  Handoff, HandoffUpdate, HandoffFollowUpResult, AcceptHandoffWithFollowUpCommand, FollowUpOutcome,
  created, linked_existing, already_satisfied,
}
use cairnline.MemoryStore.State.{Store, key_eq}
use cairnline.MemoryStore.Calls.{
  create_project, update_project, delete_project, create_skill, update_skill, create_work_item,
  update_work_item, delete_work_item, create_role, update_role, delete_role, create_assignment,
  restore_assignment, command_assignment, delete_assignment, create_artifact, create_evidence,
  create_review, create_handoff, restore_handoff, update_handoff, delete_handoff, accept_handoff,
  create_entry, update_entry, delete_entry, create_candidate, update_candidate, delete_candidate,
  promote_candidate,
}
use cairnline.MemoryStore.Assignments
use cairnline.MemoryStore.Skills
use cairnline.MemoryStore.Roles
use cairnline.MemoryStore.Records
use cairnline.MemoryStore.Handoffs
use cairnline.MemoryStore.Accept
use cairnline.MemoryStore.Accept.{
  RequestPayload, request_hash, conclude, settle, store_settled, accept_first, receipt_key,
  FollowUp,
}
use cairnline.MemoryStore.Accepted.{accept_first-eq-ok}
use cairnline.MemoryStore.Edits.{Edited, unchanged, rewritten, update_handoff-eq-ok}
use cairnline.MemoryStore.Memory
use cairnline.MemoryStore.Calls.{Call, transact, dispatch}
use cairnline.MemoryStore.Transact.{transact-eq-ok}
use cairnline.MemoryStore.Integrity.Accept.{answer-cases}
use cairnline.MemoryStore.Integrity.Aside.{
  Aside, skill-Aside, role-Aside, delete_role-Aside, entry-Aside, candidate-Aside,
  delete_memory-Aside, promote-Aside,
}
use cairnline.MemoryStore.Integrity.Calls.{state-eq-ok, promoted_pair}

-- The projects and the work items are the same.
abbrev pub Keeps : Store → Store → Type 0
Keeps s t = (t.work_items ≡ s.work_items) × (t.projects ≡ s.projects)

both : {u t : Store} → t ≡ u → Keeps u t
both e = (ap (λ (x : Store). x.work_items) e, ap (λ (x : Store). x.projects) e)

Aside-Keeps : (s t : Store) → Aside s t → Keeps s t
Aside-Keeps s t a = both a

Edited-Keeps :
    (s : Store) (p id : String) (u : HandoffUpdate) (now : Time) (h g : Handoff) (t : Store)
    → Edited s p id u now h g t
    → Keeps s t
Edited-Keeps s p id u now h g t (unchanged _ _ same) = both same
Edited-Keeps s p id u now h g t (rewritten _ v e w) = both w

settled-Keeps :
    (o : FollowUpOutcome) (s : Store) (p id : String) (h : Handoff)
    → Keeps s (store_settled o p id h s)
settled-Keeps already_satisfied s p id h = (refl, refl)
settled-Keeps linked_existing s p id h = (refl, refl)
settled-Keeps created s p id h = (refl, refl)

conclude-Keeps :
    (c : AcceptHandoffWithFollowUpCommand) (hash : String) (now : Time) (f : FollowUp)
    → Keeps f.store (conclude c hash now f).1
unfolding conclude
conclude-Keeps c hash now f =
    settled-Keeps f.outcome f.store c.project_id c.handoff_id (settle f.outcome f.current now)

-- The calls that write neither projects nor work items.
abbrev pub IsAside : Call → Type 0
IsAside (create_project p) = ⊥
IsAside (update_project p) = ⊥
IsAside (create_work_item w) = ⊥
IsAside (update_work_item w) = ⊥
IsAside (delete_work_item p id) = ⊥
IsAside (delete_project id) = ⊥
IsAside c = Unit

module _ (fingerprint : RequestPayload → String) where
  accept-Keeps :
      (s : Store) (c : AcceptHandoffWithFollowUpCommand) (new_id : String) (stamp now : Time)
      (r : HandoffFollowUpResult) (t : Store)
      → Accept.accept_handoff_with_follow_up fingerprint s c new_id stamp now ≡ ok (r, t)
      → Keeps s t
  unfolding Accept.accept_handoff_with_follow_up
  accept-Keeps s c new_id stamp now r t e =
      elim (answer-cases fingerprint s c (Table.get (receipt_key c) s.receipts)
        (accept_first fingerprint s c new_id stamp now) r t e) [
          | inl same ↦ both same
          | inr first ↦
              let facts = accept_first-eq-ok fingerprint s c new_id stamp now r t first in
              let old : Keeps s facts.follow_up.store = elim facts.followed [
                | inl l ↦ both l.store
                | inr n ↦ both n.store
              ] in
              subst (λ q. Keeps s q.1) facts.concluded
                (let last = conclude-Keeps c (request_hash fingerprint c) now facts.follow_up in
                  (last.0 ∙ old.0, last.1 ∙ old.1))
        ]

  pub dispatch-Keeps :
      (s : Store) (c : Call) (t : Store) → IsAside c → dispatch fingerprint s c ≡ ok t → Keeps s t
  unfolding dispatch Assignments.create_assignment Assignments.restore_assignment_snapshot
      Assignments.delete_assignment Assignments.without_assignment Records.create_artifact
      Records.create_evidence Records.create_review Handoffs.create_handoff
      Handoffs.restore_handoff_snapshot Handoffs.delete_handoff
  dispatch-Keeps s (create_project p) t o e = absurd o
  dispatch-Keeps s (update_project p) t o e = absurd o
  dispatch-Keeps s (create_skill k) t o e =
      let done = state-eq-ok (Skills.create_project_skill s k) e in
      Aside-Keeps s t (skill-Aside s k done.0 t (inl done.1))
  dispatch-Keeps s (update_skill k) t o e =
      let done = state-eq-ok (Skills.update_project_skill s k) e in
      Aside-Keeps s t (skill-Aside s k done.0 t (inr done.1))
  dispatch-Keeps s (create_role r) t o e =
      let done = state-eq-ok (Roles.create_role s r) e in
      Aside-Keeps s t (role-Aside s r done.0 t (inl done.1))
  dispatch-Keeps s (update_role r) t o e =
      let done = state-eq-ok (Roles.update_role s r) e in
      Aside-Keeps s t (role-Aside s r done.0 t (inr done.1))
  dispatch-Keeps s (delete_role p id) t o e = Aside-Keeps s t (delete_role-Aside s p id t e)
  dispatch-Keeps s (create_assignment a) t o e = ground arith
  dispatch-Keeps s (restore_assignment a) t o e = ground arith
  dispatch-Keeps s (command_assignment p id c now) t o e =
      let done = state-eq-ok (transact s p id c now) e in
      let facts = transact-eq-ok s p id c now done.0 t done.1 in both facts.6
  dispatch-Keeps s (delete_assignment p id) t o e = ground arith
  dispatch-Keeps s (create_artifact a) t o e = ground arith
  dispatch-Keeps s (create_evidence f) t o e = ground arith
  dispatch-Keeps s (create_review r) t o e = ground arith
  dispatch-Keeps s (create_handoff h) t o e = ground arith
  dispatch-Keeps s (restore_handoff h) t o e = ground arith
  dispatch-Keeps s (update_handoff p w id u now) t o e =
      let done = state-eq-ok (Handoffs.update_handoff s p w id u now) e in
      let facts = update_handoff-eq-ok s p w id u now done.0 t done.1 in
      Edited-Keeps s p id u now facts.0 done.0 t facts.4
  dispatch-Keeps s (delete_handoff p w id d) t o e = ground arith
  dispatch-Keeps s (accept_handoff c new_id stamp now) t o e =
      let done =
        state-eq-ok (Accept.accept_handoff_with_follow_up fingerprint s c new_id stamp now) e in
      accept-Keeps s c new_id stamp now done.0 t done.1
  dispatch-Keeps s (create_entry m) t o e =
      let done = state-eq-ok (Memory.create_memory_entry s m) e in
      Aside-Keeps s t (entry-Aside s m done.0 t (inl done.1))
  dispatch-Keeps s (update_entry m) t o e =
      let done = state-eq-ok (Memory.update_memory_entry s m) e in
      Aside-Keeps s t (entry-Aside s m done.0 t (inr done.1))
  dispatch-Keeps s (delete_entry p id) t o e =
      Aside-Keeps s t (delete_memory-Aside s p id t (inl e))
  dispatch-Keeps s (create_candidate m) t o e =
      let done = state-eq-ok (Memory.create_memory_candidate s m) e in
      Aside-Keeps s t (candidate-Aside s m done.0 t (inl done.1))
  dispatch-Keeps s (update_candidate m) t o e =
      let done = state-eq-ok (Memory.update_memory_candidate s m) e in
      Aside-Keeps s t (candidate-Aside s m done.0 t (inr done.1))
  dispatch-Keeps s (delete_candidate p id) t o e =
      Aside-Keeps s t (delete_memory-Aside s p id t (inr e))
  dispatch-Keeps s (promote_candidate p id m) t o e =
      let done = promoted_pair (Memory.promote_memory_candidate s p id m) e in
      Aside-Keeps s t (promote-Aside s p id m done.1 done.0 t done.2)
  dispatch-Keeps s (create_work_item w) t o e = absurd o
  dispatch-Keeps s (update_work_item w) t o e = absurd o
  dispatch-Keeps s (delete_work_item p id) t o e = absurd o
  dispatch-Keeps s (delete_project id) t o e = absurd o

-- ===== src/MemoryStore/Integrity/Calls.antt =====
-- The invariant under every call, and under histories of calls.
use cairnline.Base.{List, [], ◌∷◌, ◌≡◌, inl, inr, refl, arith, subst, String, Result, ok, err, ◌⊎◌}
use cairnline.Base.Nested
use cairnline.Base.Table
use cairnline.MemoryStore.State.{Store, new_store}
use cairnline.MemoryStore.Accept.{RequestPayload}
use cairnline.MemoryStore.Calls.{
  create_project, update_project, delete_project, create_skill, update_skill, create_work_item,
  update_work_item, delete_work_item, create_role, update_role, delete_role, create_assignment,
  restore_assignment, command_assignment, delete_assignment, create_artifact, create_evidence,
  create_review, create_handoff, restore_handoff, update_handoff, delete_handoff, accept_handoff,
  create_entry, update_entry, delete_entry, create_candidate, update_candidate, delete_candidate,
  promote_candidate,
}
use cairnline.MemoryStore.Projects
use cairnline.MemoryStore.WorkItems
use cairnline.MemoryStore.Assignments
use cairnline.MemoryStore.Skills
use cairnline.MemoryStore.Roles
use cairnline.MemoryStore.Records
use cairnline.MemoryStore.Handoffs
use cairnline.MemoryStore.Accept
use cairnline.MemoryStore.Memory
use cairnline.MemoryStore.Calls.{Call, transact, state, state_of_pair, next, dispatch, replay_calls}
use cairnline.MemoryStore.Integrity.Defs.{IsConsistent}
use cairnline.MemoryStore.Integrity.Cascade.{
  without_work_item-IsConsistent, without_assignment-IsConsistent, without_project-IsConsistent,
}
use cairnline.MemoryStore.Integrity.Writes.{
  write_project-IsConsistent, write_work_item-IsConsistent, write_assignment-IsConsistent,
  create_artifact-IsConsistent, create_evidence-IsConsistent, create_review-IsConsistent,
}
use cairnline.MemoryStore.Integrity.Commands.{transact-IsConsistent}
use cairnline.MemoryStore.Integrity.Handoffs.{
  write_handoff-IsConsistent, update_handoff-IsConsistent, delete_handoff-IsConsistent,
}
use cairnline.MemoryStore.Integrity.Accept.{accept_handoff-IsConsistent}
use cairnline.MemoryStore.Integrity.Aside.{
  Aside-IsConsistent, skill-Aside, role-Aside, delete_role-Aside, entry-Aside, candidate-Aside,
  delete_memory-Aside, promote-Aside,
}

pub state-eq-ok :
    {A : Type 0} (r : Result (A × Store)) {t : Store} → state r ≡ ok t → (a : A) × (r ≡ ok (a, t))
state-eq-ok (ok (a, s)) e = (a, ground arith)
state-eq-ok (err _) e = ground arith

delete-IsConsistent :
    (s : Store) (p id : String) (t : Store)
    → (Projects.delete_project s id ≡ ok t)
      ⊎ (WorkItems.delete_work_item s p id ≡ ok t)
      ⊎ (Assignments.delete_assignment s p id ≡ ok t)
    → IsConsistent s
    → IsConsistent t
unfolding Projects.delete_project WorkItems.delete_work_item Assignments.delete_assignment
delete-IsConsistent s p id t (inl e) v =
    let written : Projects.without_project id s ≡ t = ground arith in
    subst IsConsistent written (without_project-IsConsistent s id v)
delete-IsConsistent s p id t (inr (inl e)) v =
    let written : WorkItems.without_work_item p id s ≡ t = ground arith in
    subst IsConsistent written (without_work_item-IsConsistent s p id v)
delete-IsConsistent s p id t (inr (inr e)) v =
    let written : Assignments.without_assignment p id s ≡ t = ground arith in
    subst IsConsistent written (without_assignment-IsConsistent s p id v)

pub promoted_pair :
    {A B : Type 0} (r : Result (A × B × Store)) {t : Store}
    → state_of_pair r ≡ ok t
    → (a : A) × (b : B) × (r ≡ ok (a, b, t))
promoted_pair (ok (a, b, s)) e = (a, b, ground arith)
promoted_pair (err _) e = ground arith

new_store-IsConsistent : IsConsistent new_store
unfolding new_store Nested.get Table.get Table.empty
new_store-IsConsistent = record {
  assignments = λ p id a h. ground arith;
  artifacts = λ p id a h. ground arith;
  evidence = λ p id a h. ground arith;
  reviews = λ p id a h. ground arith;
  handoffs = λ p id a h. ground arith;
}

module _ (fingerprint : RequestPayload → String) where
  -- Every call that succeeds on a consistent store leaves it consistent: every assignment, artifact,
  -- piece of evidence, review and handoff stands under its own project id and id, in a project and
  -- with a work item that exist, a handoff's target work item exists, and every assignment's claim
  -- fits its status.
  pub dispatch-IsConsistent :
      (s : Store) (c : Call) (t : Store)
      → dispatch fingerprint s c ≡ ok t
      → IsConsistent s
      → IsConsistent t
  unfolding dispatch
  dispatch-IsConsistent s (create_project p) t e v =
      let done = state-eq-ok (Projects.create_project s p) e in
      write_project-IsConsistent s p done.0 t (inl done.1) v
  dispatch-IsConsistent s (update_project p) t e v =
      let done = state-eq-ok (Projects.update_project s p) e in
      write_project-IsConsistent s p done.0 t (inr done.1) v
  dispatch-IsConsistent s (delete_project id) t e v = delete-IsConsistent s id id t (inl e) v
  dispatch-IsConsistent s (create_skill k) t e v =
      let done = state-eq-ok (Skills.create_project_skill s k) e in
      Aside-IsConsistent s t (skill-Aside s k done.0 t (inl done.1)) v
  dispatch-IsConsistent s (update_skill k) t e v =
      let done = state-eq-ok (Skills.update_project_skill s k) e in
      Aside-IsConsistent s t (skill-Aside s k done.0 t (inr done.1)) v
  dispatch-IsConsistent s (create_work_item w) t e v =
      let done = state-eq-ok (WorkItems.create_work_item s w) e in
      write_work_item-IsConsistent s w done.0 t (inl done.1) v
  dispatch-IsConsistent s (update_work_item w) t e v =
      let done = state-eq-ok (WorkItems.update_work_item s w) e in
      write_work_item-IsConsistent s w done.0 t (inr done.1) v
  dispatch-IsConsistent s (delete_work_item p id) t e v =
      delete-IsConsistent s p id t (inr (inl e)) v
  dispatch-IsConsistent s (create_role r) t e v =
      let done = state-eq-ok (Roles.create_role s r) e in
      Aside-IsConsistent s t (role-Aside s r done.0 t (inl done.1)) v
  dispatch-IsConsistent s (update_role r) t e v =
      let done = state-eq-ok (Roles.update_role s r) e in
      Aside-IsConsistent s t (role-Aside s r done.0 t (inr done.1)) v
  dispatch-IsConsistent s (delete_role p id) t e v =
      Aside-IsConsistent s t (delete_role-Aside s p id t e) v
  dispatch-IsConsistent s (create_assignment a) t e v =
      let done = state-eq-ok (Assignments.create_assignment s a) e in
      write_assignment-IsConsistent s a done.0 t (inl done.1) v
  dispatch-IsConsistent s (restore_assignment a) t e v =
      let done = state-eq-ok (Assignments.restore_assignment_snapshot s a) e in
      write_assignment-IsConsistent s a done.0 t (inr done.1) v
  dispatch-IsConsistent s (command_assignment p id c now) t e v =
      let done = state-eq-ok (transact s p id c now) e in
      transact-IsConsistent s p id c now done.0 t done.1 v
  dispatch-IsConsistent s (delete_assignment p id) t e v =
      delete-IsConsistent s p id t (inr (inr e)) v
  dispatch-IsConsistent s (create_artifact a) t e v =
      let done = state-eq-ok (Records.create_artifact s a) e in
      create_artifact-IsConsistent s a done.0 t done.1 v
  dispatch-IsConsistent s (create_evidence f) t e v =
      let done = state-eq-ok (Records.create_evidence s f) e in
      create_evidence-IsConsistent s f done.0 t done.1 v
  dispatch-IsConsistent s (create_review r) t e v =
      let done = state-eq-ok (Records.create_review s r) e in
      create_review-IsConsistent s r done.0 t done.1 v
  dispatch-IsConsistent s (create_handoff h) t e v =
      let done = state-eq-ok (Handoffs.create_handoff s h) e in
      write_handoff-IsConsistent s h done.0 t (inl done.1) v
  dispatch-IsConsistent s (restore_handoff h) t e v =
      let done = state-eq-ok (Handoffs.restore_handoff_snapshot s h) e in
      write_handoff-IsConsistent s h done.0 t (inr done.1) v
  dispatch-IsConsistent s (update_handoff p w id u now) t e v =
      let done = state-eq-ok (Handoffs.update_handoff s p w id u now) e in
      update_handoff-IsConsistent s p w id u now done.0 t done.1 v
  dispatch-IsConsistent s (delete_handoff p w id d) t e v =
      delete_handoff-IsConsistent s p w id d t e v
  dispatch-IsConsistent s (accept_handoff c new_id stamp now) t e v =
      let done =
        state-eq-ok (Accept.accept_handoff_with_follow_up fingerprint s c new_id stamp now) e in
      accept_handoff-IsConsistent fingerprint s c new_id stamp now done.0 t done.1 v
  dispatch-IsConsistent s (create_entry m) t e v =
      let done = state-eq-ok (Memory.create_memory_entry s m) e in
      Aside-IsConsistent s t (entry-Aside s m done.0 t (inl done.1)) v
  dispatch-IsConsistent s (update_entry m) t e v =
      let done = state-eq-ok (Memory.update_memory_entry s m) e in
      Aside-IsConsistent s t (entry-Aside s m done.0 t (inr done.1)) v
  dispatch-IsConsistent s (delete_entry p id) t e v =
      Aside-IsConsistent s t (delete_memory-Aside s p id t (inl e)) v
  dispatch-IsConsistent s (create_candidate m) t e v =
      let done = state-eq-ok (Memory.create_memory_candidate s m) e in
      Aside-IsConsistent s t (candidate-Aside s m done.0 t (inl done.1)) v
  dispatch-IsConsistent s (update_candidate m) t e v =
      let done = state-eq-ok (Memory.update_memory_candidate s m) e in
      Aside-IsConsistent s t (candidate-Aside s m done.0 t (inr done.1)) v
  dispatch-IsConsistent s (delete_candidate p id) t e v =
      Aside-IsConsistent s t (delete_memory-Aside s p id t (inr e)) v
  dispatch-IsConsistent s (promote_candidate p id m) t e v =
      let done = promoted_pair (Memory.promote_memory_candidate s p id m) e in
      Aside-IsConsistent s t (promote-Aside s p id m done.1 done.0 t done.2) v

  next-IsConsistent :
      (s : Store) (r : Result Store)
      → ((t : Store) → r ≡ ok t → IsConsistent t)
      → IsConsistent s
      → IsConsistent (next s r)
  next-IsConsistent s (ok t) h v = h t refl
  next-IsConsistent s (err _) h v = v

  pub replay_calls-IsConsistent :
      (cs : List Call) (s : Store) → IsConsistent s → IsConsistent (replay_calls fingerprint cs s)
  unfolding replay_calls
  replay_calls-IsConsistent [] s v = v
  replay_calls-IsConsistent (c ∷ cs) s v =
      replay_calls-IsConsistent cs (next s (dispatch fingerprint s c))
        (next-IsConsistent s (dispatch fingerprint s c) (λ t e. dispatch-IsConsistent s c t e v) v)

  -- Whatever calls a new store is given, in any order and whether they succeed or not, the store
  -- they end in is consistent.
  pub history-IsConsistent : (cs : List Call) → IsConsistent (replay_calls fingerprint cs new_store)
  history-IsConsistent cs = replay_calls-IsConsistent cs new_store new_store-IsConsistent

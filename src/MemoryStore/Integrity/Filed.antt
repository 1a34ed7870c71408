-- ===== src/MemoryStore/Integrity/Filed.antt =====
-- Work items stand under their own ids, whatever calls are made.
use cairnline.Base.{
  String, List, [], ◌∷◌, ◌≡◌, ◌⊎◌, inl, inr, refl, subst, sym, arith, Result, ok, err,
}
use cairnline.Base.Nested
use cairnline.Base.Table
use cairnline.Model.Work.{WorkItem}
use cairnline.MemoryStore.State.{Store, new_store, key_eq}
use cairnline.MemoryStore.Each.{Each, Each-put, Each-delete, Each-delete_all}
use cairnline.MemoryStore.Calls.{
  create_project, update_project, delete_project, create_work_item, update_work_item,
  delete_work_item,
}
use cairnline.MemoryStore.Projects
use cairnline.MemoryStore.WorkItems
use cairnline.MemoryStore.Accept.{RequestPayload}
use cairnline.MemoryStore.Calls.{Call, next, dispatch, replay_calls}
use cairnline.MemoryStore.Integrity.Keeps.{IsAside, dispatch-Keeps}
use cairnline.MemoryStore.Integrity.Calls.{state-eq-ok}

-- A work item carries the ids under which the store files it.
pub record WorkItemFiled (p id : String) (w : WorkItem) : Type 0 where
  pub project_id : w.project_id ≡ p
  pub own_id : w.id ≡ id

abbrev pub IsFiled : Store → Type 0
IsFiled s = Each WorkItemFiled s.work_items

module _ (fingerprint : RequestPayload → String) where
  aside-IsFiled :
      (s : Store) (c : Call) (t : Store)
      → IsAside c
      → dispatch fingerprint s c ≡ ok t
      → IsFiled s
      → IsFiled t
  aside-IsFiled s c t o e f =
      subst (Each WorkItemFiled) (sym (dispatch-Keeps fingerprint s c t o e).0) f

  put-IsFiled :
      (s : Store) (w v : WorkItem) (t : Store)
      → (WorkItems.create_work_item s w ≡ ok (v, t)) ⊎ (WorkItems.update_work_item s w ≡ ok (v, t))
      → IsFiled s
      → IsFiled t
  unfolding WorkItems.create_work_item WorkItems.update_work_item
  put-IsFiled s w v t e f =
      let written : Nested.put w.project_id w.id w s.work_items ≡ t.work_items = ground arith in
      subst (Each WorkItemFiled) written (
        Each-put WorkItemFiled s.work_items f w.project_id w.id w
          (record { project_id = refl; own_id = refl }))

  pub dispatch-IsFiled :
      (s : Store) (c : Call) (t : Store) → dispatch fingerprint s c ≡ ok t → IsFiled s → IsFiled t
  unfolding dispatch Projects.create_project Projects.update_project WorkItems.delete_work_item
      WorkItems.without_work_item Projects.delete_project Projects.without_project
  dispatch-IsFiled s (create_work_item w) t e f =
      let done = state-eq-ok (WorkItems.create_work_item s w) e in
      put-IsFiled s w done.0 t (inl done.1) f
  dispatch-IsFiled s (update_work_item w) t e f =
      let done = state-eq-ok (WorkItems.update_work_item s w) e in
      put-IsFiled s w done.0 t (inr done.1) f
  dispatch-IsFiled s (delete_work_item p id) t e f =
      let written : Nested.delete p id s.work_items ≡ t.work_items = ground arith in
      subst (Each WorkItemFiled) written (Each-delete WorkItemFiled s.work_items f p id)
  dispatch-IsFiled s (delete_project p) t e f =
      let written : Nested.delete_all p s.work_items ≡ t.work_items = ground arith in
      subst (Each WorkItemFiled) written
        (Each-delete_all WorkItemFiled s.work_items f WorkItemFiled p λ q id w apart g. g)
  dispatch-IsFiled s (create_project p) t e f = subst (Each WorkItemFiled) (ground arith) f
  dispatch-IsFiled s (update_project p) t e f = subst (Each WorkItemFiled) (ground arith) f
  dispatch-IsFiled s c t e f = aside-IsFiled s c t tt e f

  next-IsFiled :
      (s : Store) (r : Result Store)
      → ((t : Store) → r ≡ ok t → IsFiled t)
      → IsFiled s
      → IsFiled (next s r)
  next-IsFiled s (ok t) h f = h t refl
  next-IsFiled s (err _) h f = f

  -- Calls, in any order and whether they succeed or not, leave every work item under its own ids.
  replay_calls-IsFiled :
      (cs : List Call) (s : Store) → IsFiled s → IsFiled (replay_calls fingerprint cs s)
  unfolding replay_calls
  replay_calls-IsFiled [] s f = f
  replay_calls-IsFiled (c ∷ cs) s f =
      replay_calls-IsFiled cs (next s (dispatch fingerprint s c))
        (next-IsFiled s (dispatch fingerprint s c) (λ t e. dispatch-IsFiled s c t e f) f)

  -- Whatever calls a new store is given, in any order and whether they succeed or not, the store
  -- they end in has every work item under its own ids.
  pub history-IsFiled : (cs : List Call) → IsFiled (replay_calls fingerprint cs new_store)
  unfolding new_store Nested.get Nested.within Table.get Table.empty
  history-IsFiled cs = replay_calls-IsFiled cs new_store λ p id w h. ground arith

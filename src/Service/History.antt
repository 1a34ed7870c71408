-- ===== src/Service/History.antt =====
-- Stores that only a service has written.
use cairnline.Base.{
  String, List, [], ◌∷◌, ok, some, ◌≡◌, inl, inr, sym, ap, refl, ◌∙◌, subst, arith, Bool-cases,
  ◌==◌, string_eq, eq_iff,
}
use cairnline.Base.Nested
use cairnline.Base.Table
use cairnline.Model.Project.{Project}
use cairnline.Model.Work.{WorkItem}
use cairnline.MemoryStore.Accept.{RequestPayload}
use cairnline.MemoryStore.Calls.{
  Call, create_project, update_project, delete_project, create_work_item, update_work_item,
  delete_work_item, dispatch, replay_calls,
}
use cairnline.MemoryStore.Each.{Each, Each-put, Each-delete, Each-delete_all}
use cairnline.MemoryStore.Integrity.Calls.{dispatch-IsConsistent, history-IsConsistent}
use cairnline.MemoryStore.Integrity.Defs.{IsConsistent}
use cairnline.MemoryStore.Integrity.Filed.{IsFiled, dispatch-IsFiled, history-IsFiled}
use cairnline.MemoryStore.Integrity.Keeps.{dispatch-Keeps}
use cairnline.MemoryStore.Integrity.Writes.{put_project-IsConsistent}
use cairnline.MemoryStore.Projects
use cairnline.MemoryStore.State.{Store, new_store, project_at}
use cairnline.MemoryStore.WorkItems
use cairnline.Service.Calls.Serve.{serve-IsServed}
use cairnline.Service.Calls.Step.{Called, Begun, IsServed}
use cairnline.Service.Canonical.{IsCanonical, IsCanonicalProject}
use cairnline.Service.Env.{Env}
use cairnline.Service.Projects.{write_through}
use cairnline.Service.Requests.{Request, Outcome, done, refused, left_by, serve, serve_all}
use cairnline.Service.Stated.{IsStated, IsSound}

-- A project stands under its own id, with a name, and its default root is one of its roots.
pub record ProjectFiled (id : String) (p : Project) : Type 0 where
  pub own_id : p.id ≡ id
  pub canonical : IsCanonicalProject p

abbrev IsTitled : String → String → WorkItem → Type 0
IsTitled p id w = IsStated w.title

-- A store in good order.
pub record IsOrderly (s : Store) : Type 0 where
  pub consistent : IsConsistent s
  pub filed : IsFiled s
  pub projects : (id : String) (p : Project) → project_at s id ≡ some p → ProjectFiled id p
  pub titled :
      (p id : String) (w : WorkItem) → Nested.get p id s.work_items ≡ some w → IsStated w.title

abbrev FiledProjects : Store → Type 0
FiledProjects s = (id : String) (p : Project) → project_at s id ≡ some p → ProjectFiled id p

put-ProjectFiled :
    (s : Store) (q : Project) (t : Store)
    → Table.put q.id q s.projects ≡ t.projects
    → IsCanonicalProject q
    → FiledProjects s
    → FiledProjects t
put-ProjectFiled s q t e c all id p h =
    let found : Table.get id (Table.put q.id q s.projects) ≡ some p = rw e h in
    elim (Bool-cases (q.id == id)) [
      | inl hit ↦
          let same : q ≡ p = ground (arith, Table.get-put id q.id q s.projects) in
          subst (ProjectFiled id) same (record { own_id = (eq_iff q.id id).0 hit; canonical = c })
      | inr miss ↦ all id p (ground (arith, Table.get-put id q.id q s.projects))
    ]

module _ (fingerprint : RequestPayload → String) (env : Env) where
  dispatch-ProjectFiled :
      (s : Store) (c : Call) (t : Store)
      → IsCanonical env s c
      → dispatch fingerprint s c ≡ ok t
      → FiledProjects s
      → FiledProjects t
  unfolding dispatch Projects.create_project Projects.update_project Projects.delete_project
      Projects.without_project WorkItems.create_work_item WorkItems.update_work_item
      WorkItems.delete_work_item WorkItems.without_work_item
  dispatch-ProjectFiled s (create_project q) t c e all = put-ProjectFiled s q t (ground arith) c all
  dispatch-ProjectFiled s (update_project q) t c e all = put-ProjectFiled s q t (ground arith) c all
  dispatch-ProjectFiled s (delete_project q) t c e all = λ id p h.
      let rest : Table.delete q s.projects ≡ t.projects = ground arith in
      let found : Table.get id (Table.delete q s.projects) ≡ some p = rw rest h in
      all id p (ground (arith, Table.get-delete id q s.projects))
  dispatch-ProjectFiled s (create_work_item w) t c e all = λ id p h. all id p (ground arith)
  dispatch-ProjectFiled s (update_work_item w) t c e all = λ id p h. all id p (ground arith)
  dispatch-ProjectFiled s (delete_work_item q w) t c e all = λ id p h. all id p (ground arith)
  dispatch-ProjectFiled s c t k e all = λ id p h.
      all id p (subst (λ x. Table.get id x ≡ some p) (dispatch-Keeps fingerprint s c t tt e).1 h)

  put-IsTitled :
      (s : Store) (w : WorkItem) (t : Store)
      → Nested.put w.project_id w.id w s.work_items ≡ t.work_items
      → IsStated w.title
      → Each IsTitled s.work_items
      → Each IsTitled t.work_items
  put-IsTitled s w t e h all =
      subst (Each IsTitled) e (Each-put IsTitled s.work_items all w.project_id w.id w h)

  dispatch-IsTitled :
      (s : Store) (c : Call) (t : Store)
      → IsCanonical env s c
      → dispatch fingerprint s c ≡ ok t
      → Each IsTitled s.work_items
      → Each IsTitled t.work_items
  unfolding dispatch Projects.create_project Projects.update_project Projects.delete_project
      Projects.without_project WorkItems.create_work_item WorkItems.update_work_item
      WorkItems.delete_work_item WorkItems.without_work_item
  dispatch-IsTitled s (create_work_item w) t c e all =
      put-IsTitled s w t (ground arith) c.0.1.1.0 all
  dispatch-IsTitled s (update_work_item w) t c e all =
      put-IsTitled s w t (ground arith) c.0.1.1.0 all
  dispatch-IsTitled s (delete_work_item p id) t c e all =
      let written : Nested.delete p id s.work_items ≡ t.work_items = ground arith in
      subst (Each IsTitled) written (Each-delete IsTitled s.work_items all p id)
  dispatch-IsTitled s (delete_project p) t c e all =
      let written : Nested.delete_all p s.work_items ≡ t.work_items = ground arith in
      subst (Each IsTitled) written
        (Each-delete_all IsTitled s.work_items all IsTitled p λ q id w apart h. h)
  dispatch-IsTitled s (create_project q) t c e all = subst (Each IsTitled) (ground arith) all
  dispatch-IsTitled s (update_project q) t c e all = subst (Each IsTitled) (ground arith) all
  dispatch-IsTitled s c t k e all =
      subst (Each IsTitled) (sym (dispatch-Keeps fingerprint s c t tt e).0) all

  Called-IsOrderly : (s t : Store) → Called fingerprint env s t → IsOrderly s → IsOrderly t
  Called-IsOrderly s t k o = record {
    consistent = dispatch-IsConsistent fingerprint s k.call t k.dispatched o.consistent;
    filed = dispatch-IsFiled fingerprint s k.call t k.dispatched o.filed;
    projects = dispatch-ProjectFiled s k.call t k.canonical k.dispatched o.projects;
    titled = dispatch-IsTitled s k.call t k.canonical k.dispatched o.titled;
  }

  -- A write through a project that the store has does no harm.
  Begun-IsOrderly : (s t : Store) → Begun s t → IsOrderly s → IsOrderly t
  Begun-IsOrderly s t (inl same) o = subst IsOrderly (sym same) o
  Begun-IsOrderly s t (inr e) o =
      let old = o.projects e.id e.old e.found in
      let own : e.edited.id ≡ e.id = e.same_id ∙ old.own_id in
      let same : write_through e.edited.id e.edited s ≡ t =
        ap (λ id. write_through id e.edited s) own ∙ sym e.written in
      subst IsOrderly same (record {
        consistent = put_project-IsConsistent s e.edited o.consistent;
        filed = o.filed;
        projects =
            put-ProjectFiled s e.edited (write_through e.edited.id e.edited s) refl
              (e.canonical old.canonical) o.projects;
        titled = o.titled;
      })

  outcome-IsOrderly :
      (s : Store) (o : Outcome) → IsServed fingerprint env s o → IsOrderly s → IsOrderly (left_by o)
  outcome-IsOrderly s (done t) (m, begun, k) h =
      Called-IsOrderly m t k (Begun-IsOrderly s m begun h)
  outcome-IsOrderly s (refused e t) (inl begun) h = Begun-IsOrderly s t begun h
  outcome-IsOrderly s (refused e t) (inr (m, begun, k)) h =
      Called-IsOrderly m t k (Begun-IsOrderly s m begun h)

module _ (fingerprint : RequestPayload → String) where
  new_store-IsOrderly : IsOrderly new_store
  unfolding new_store Nested.get Nested.within Table.get Table.empty replay_calls
  new_store-IsOrderly = record {
    consistent = history-IsConsistent fingerprint [];
    filed = history-IsFiled fingerprint [];
    projects = λ id p h. ground arith;
    titled = λ p id w h. ground arith;
  }

  -- The environments of a service's requests draw stated ids.
  abbrev pub AllSound : List (Env × Request) → Type 0
  AllSound [] = Unit
  AllSound ((env, r) ∷ rest) = IsSound env × AllSound rest

  pub serve_all-IsOrderly :
      (work : List (Env × Request)) (s : Store)
      → AllSound work
      → IsOrderly s
      → IsOrderly (serve_all fingerprint work s)
  unfolding serve_all
  serve_all-IsOrderly [] s h o = o
  serve_all-IsOrderly ((env, r) ∷ rest) s h o =
      serve_all-IsOrderly rest (left_by (serve fingerprint env s r)) h.1 (
        outcome-IsOrderly fingerprint env s (serve fingerprint env s r)
          (serve-IsServed fingerprint env h.0 s r) o)

  -- Whatever requests a service on a new store is given, in any order and whether it answers or
  -- refuses them, provided the ids that it draws are stated, the store is in good order: it is
  -- consistent, every work item stands under its own ids and has a title, and every project stands
  -- under its own id and has a name, stated ids of its roots and sources, and a default root that is
  -- one of its roots, or "" where it has none.
  pub serve_all_new-IsOrderly :
      (work : List (Env × Request))
      → AllSound work
      → IsOrderly (serve_all fingerprint work new_store)
  serve_all_new-IsOrderly work h = serve_all-IsOrderly work new_store h new_store-IsOrderly

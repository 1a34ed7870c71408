-- ===== src/Service/Calls/Work.antt =====
-- Requests on work items and roles as calls of the store.
use cairnline.Base.{ℕ, String, true, ok, ◌≡◌, arith, string_eq, Result-cases, inl, inr}
use cairnline.Base.Text.{first_non_empty}
use cairnline.Base.Trim.{trim_space}
use cairnline.Model.Work.{Role, WorkItem}
use cairnline.MemoryStore.Accept.{RequestPayload}
use cairnline.MemoryStore.Calls
use cairnline.MemoryStore.Calls.{dispatch, state}
use cairnline.MemoryStore.Roles as RoleStore
use cairnline.MemoryStore.State.{Store}
use cairnline.MemoryStore.WorkItems as ItemStore
use cairnline.Service.Calls.Step.{Called}
use cairnline.Service.Env.{Env}
use cairnline.Service.Normalize.{normalize_execution_mode}
use cairnline.Service.Roles
use cairnline.Service.Roles.{role_of}
use cairnline.Service.Stated.{
  pair-AllStated, IsSound, trim_space-IsStated, first_non_empty-IsStated,
}
use cairnline.Service.WorkItems
use cairnline.Service.WorkItems.{
  validate_work_item_refs, validate_project_root, validate_project_role_refs, work_item_of,
}

refs-eq-ok :
    (s : Store) (w : WorkItem) (id : String) (c u : ℕ)
    → validate_work_item_refs s w ≡ ok tt
    → let v = work_item_of id c u w in
      (validate_project_root s v.project_id v.root_id ≡ ok tt)
      × (validate_project_role_refs s v.project_id v.owner_role_id v.reviewer_role_ids ≡ ok tt)
unfolding validate_work_item_refs work_item_of
refs-eq-ok s w id c u h = ground arith

module _ (fingerprint : RequestPayload → String) (env : Env) (sound : IsSound env) where
  pub create_work_item-Called :
      (s : Store) (input w : WorkItem) (t : Store)
      → WorkItems.create_work_item env s input ≡ ok (w, t)
      → Called fingerprint env s t
  unfolding WorkItems.create_work_item dispatch work_item_of
  create_work_item-Called s input w t h =
      let id = first_non_empty (trim_space input.id) (env.new_id "work" 0) in
      let refs = refs-eq-ok s input id env.now env.now (ground arith) in
      record {
        call = Calls.create_work_item (work_item_of id env.now env.now input);
        canonical = (
          (
            trim_space-IsStated _ (ground arith),
            (
              first_non_empty-IsStated _ _ (sound.new_id "work" 0),
              (trim_space-IsStated _ (ground arith), tt),
            ),
          ),
          refs.0,
          refs.1,
        );
        dispatched = ground arith;
      }

  pub update_work_item-Called :
      (s : Store) (input w : WorkItem) (t : Store)
      → WorkItems.update_work_item env s input ≡ ok (w, t)
      → Called fingerprint env s t
  unfolding WorkItems.update_work_item dispatch work_item_of
  update_work_item-Called s input w t h =
      let id = trim_space input.id in
      elim (Result-cases (ItemStore.get_work_item s (trim_space input.project_id) id)) [
        | inl (e, gone) ↦ absurd (ground arith)
        | inr (old, found) ↦
            let refs = refs-eq-ok s input id old.created_at env.now (ground arith) in
            record {
              call = Calls.update_work_item (work_item_of id old.created_at env.now input);
              canonical = (
                (
                  trim_space-IsStated _ (ground arith),
                  (
                    trim_space-IsStated _ (ground arith),
                    (trim_space-IsStated _ (ground arith), tt),
                  ),
                ),
                refs.0,
                refs.1,
              );
              dispatched = ground arith;
            }
      ]

  pub delete_work_item-Called :
      (s : Store) (p id : String) (t : Store)
      → WorkItems.delete_work_item s p id ≡ ok t
      → Called fingerprint env s t
  unfolding WorkItems.delete_work_item dispatch
  delete_work_item-Called s p id t h = record {
    call = Calls.delete_work_item (trim_space p) (trim_space id);
    canonical = pair-AllStated p id (ground arith) (ground arith);
    dispatched = ground arith;
  }

  pub create_role-Called :
      (s : Store) (input r : Role) (t : Store)
      → Roles.create_role env s input ≡ ok (r, t)
      → Called fingerprint env s t
  unfolding Roles.create_role dispatch role_of
  create_role-Called s input r t h =
      let id = first_non_empty (trim_space input.id) (env.new_id "role" 0) in
      elim (Result-cases (normalize_execution_mode input.default_execution_mode true)) [
        | inl (e, bad) ↦ absurd (ground arith)
        | inr (mode, found) ↦ record {
          call = Calls.create_role (role_of id mode input);
          canonical = (
            trim_space-IsStated _ (ground arith),
            (
              first_non_empty-IsStated _ _ (sound.new_id "role" 0),
              (trim_space-IsStated _ (ground arith), tt),
            ),
          );
          dispatched = ground arith;
        }
      ]

  pub update_role-Called :
      (s : Store) (input r : Role) (t : Store)
      → Roles.update_role s input ≡ ok (r, t)
      → Called fingerprint env s t
  unfolding Roles.update_role dispatch role_of
  update_role-Called s input r t h =
      elim (Result-cases (normalize_execution_mode input.default_execution_mode true)) [
        | inl (e, bad) ↦ absurd (
            ground (
              arith,
              Result-cases
                  (RoleStore.get_role s (trim_space input.project_id) (trim_space input.id)),
            ))
        | inr (mode, found) ↦ record {
          call = Calls.update_role (role_of (trim_space input.id) mode input);
          canonical = (
            trim_space-IsStated _ (ground arith),
            (trim_space-IsStated _ (ground arith), (trim_space-IsStated _ (ground arith), tt)),
          );
          dispatched = ground arith;
        }
      ]

  pub delete_role-Called :
      (s : Store) (p id : String) (t : Store)
      → Roles.delete_role s p id ≡ ok t
      → Called fingerprint env s t
  unfolding Roles.delete_role dispatch
  delete_role-Called s p id t h = record {
    call = Calls.delete_role (trim_space p) (trim_space id);
    canonical = pair-AllStated p id (ground arith) (ground arith);
    dispatched = ground arith;
  }

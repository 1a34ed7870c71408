-- ===== src/Examples/Roots.antt =====
-- Roots that are created and edited in the project of a service at work.
use cairnline.Base.{
  StoreError, ◌⊎◌, ℕ, String, true, false, some, none, List, [], ◌∷◌, Result, ok, err, not_found,
  ◌≡◌, refl, inl, inr, subst, false, ◌==◌, string_eq,
}
use cairnline.Base.Lists.{any}
use cairnline.Base.Nested
use cairnline.Base.Table
use cairnline.Base.Text.{first_non_empty}
use cairnline.Base.Trim.{trim_space, is_space}
use cairnline.Model.Project.{Project, Root}
use cairnline.MemoryStore.Projects
use cairnline.MemoryStore.State.{Store, new_store, project_at, key_eq}
use cairnline.Service.Env.{Env}
use cairnline.Service.Requests.{serve, serve_all}
use cairnline.Service.Projects.{root_of, write_through}
use cairnline.Service.RootTrip.{create_root-get_root}
use cairnline.Service.RootAtomic.{update_root_atomic}
use cairnline.Service.Stated.{IsStated, trim_space-IsStated}
use cairnline.Service.Roots.{create_root, get_root, update_root, find_project_root}
use cairnline.Service.TidyRoots.{IsTidy, AllTidy}
use cairnline.Examples.Shop.{project}
use cairnline.Examples.Requests.{bench, root, office, office-IsOrderly}

abbrev yard : Root
yard = record root { id = "fresh"; path = "/srv/shop" }

-- The project of the day, as it is stored.
abbrev stored_shop : Project
stored_shop = record project {
  roots = yard ∷ [];
  default_root_id = "fresh";
  created_at = 10;
  updated_at = 10;
}

shop_stored : project_at office stored_shop.id ≡ some stored_shop
unfolding serve_all serve new_store Nested.get Nested.put Table.get Table.put trim_space is_space
    cairnline.Service.Projects.create_project cairnline.Service.Roles.create_role
    cairnline.Service.WorkItems.create_work_item cairnline.Service.Assignments.create_assignment
    cairnline.MemoryStore.Projects.create_project cairnline.MemoryStore.Projects.get_project
    cairnline.MemoryStore.Roles.create_role cairnline.MemoryStore.Roles.get_role
    cairnline.MemoryStore.WorkItems.create_work_item cairnline.MemoryStore.WorkItems.get_work_item
    cairnline.MemoryStore.Assignments.create_assignment
    cairnline.Lifecycle.Validate.validate_assignment_claim_state cairnline.Base.Lists.filter
    cairnline.Base.Lists.map cairnline.Base.Lists.any
shop_stored = refl

abbrev annex_request : Root
annex_request = record root { id = " annex "; path = " /srv/annex " }

abbrev annex : Root
annex = record root { id = "annex"; path = "/srv/annex" }

yard-IsTidy : IsTidy bench yard
unfolding trim_space is_space
yard-IsTidy = record {
  id = record { trimmed = refl; said = refl };
  path = record { trimmed = refl; said = refl };
  cleaned = refl;
  kind = refl;
  git_remote = refl;
  git_branch = refl;
}

annex-IsTidy : IsTidy bench annex
unfolding trim_space is_space
annex-IsTidy = record {
  id = record { trimmed = refl; said = refl };
  path = record { trimmed = refl; said = refl };
  cleaned = refl;
  kind = refl;
  git_remote = refl;
  git_branch = refl;
}

yard-AllTidy : AllTidy bench stored_shop.roots
yard-AllTidy r (inl same) = subst (IsTidy bench) same yard-IsTidy
yard-AllTidy r (inr none_left) = absurd none_left

annex_done :
    root_of bench
      (first_non_empty (trim_space annex_request.id) "fresh")
      (trim_space annex_request.path)
      annex_request
    ≡ annex
unfolding root_of trim_space is_space
annex_done = refl

annex_path : (trim_space annex_request.path == "") ≡ false
unfolding trim_space is_space
annex_path = refl

annex_fresh : any (λ (r : Root). trim_space r.id == "annex") stored_shop.roots ≡ false
unfolding any trim_space is_space
annex_fresh = refl

create_root-get_root_example :
    (updated : Project) × (t : Store) × (create_root bench office "p1" annex_request
      ≡ (ok (updated, annex), t))
    × (updated.roots ≡ yard ∷ annex ∷ [])
    × (project_at t "p1" ≡ some updated)
    × (get_root t "p1" "annex" ≡ ok annex)
    × ((id : String)
        → ("annex" == trim_space id) ≡ false
        → get_root t "p1" id ≡ get_root office "p1" id)
create_root-get_root_example =
    create_root-get_root bench office stored_shop annex_request annex office-IsOrderly shop_stored
      yard-AllTidy annex_done annex-IsTidy annex_path annex_fresh

abbrev barn_request : Root
barn_request = record root { path = " /srv/barn " }

abbrev barn : Root
barn = record yard { path = "/srv/barn" }

-- A store with the project alone, and a cleaning that leaves nothing of a path.
abbrev shed : Store
shed = record new_store { projects = Table.put "p1" stored_shop Table.empty }

abbrev wiping : Env
wiping = record bench { clean = λ path. "" }

-- The update is refused, yet the stored root has lost its path.
wiped : update_root wiping shed "p1" "fresh" barn_request ≡ (
  err not_found,
  write_through "p1" (record stored_shop { roots = (record yard { path = "" }) ∷ [] }) shed,
)
unfolding update_root find_project_root trim_space is_space new_store Table.get Table.put
    cairnline.Service.Projects.update_project cairnline.MemoryStore.Projects.get_project
wiped = refl

bench_cleaned :
    (trim_space barn_request.path == "") ≡ false
    → IsStated (bench.clean (trim_space barn_request.path))
bench_cleaned given = trim_space-IsStated barn_request.path given

update_root_atomic_example :
    ((e : StoreError) × (update_root bench office "p1" " fresh " barn_request ≡ (err e, office)))
    ⊎ ((updated : Project) × (item : Root) × (t : Store) × (update_root bench office "p1" " fresh "
            barn_request
          ≡ (ok (updated, item), t))
        × (item.path ≡ bench.clean (trim_space barn_request.path))
        × (get_root t "p1" " fresh " ≡ ok item))
update_root_atomic_example =
    update_root_atomic bench office stored_shop " fresh " barn_request office-IsOrderly shop_stored
      yard-AllTidy (λ path. refl) bench_cleaned

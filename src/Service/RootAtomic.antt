-- ===== src/Service/RootAtomic.antt =====
-- Whether an edit of a root that is refused has touched the store: `UpdateRoot` of
-- internal/core/service.go writes through the project before it calls `UpdateProject`.
use cairnline.Base.{
  String, false, some, Result, ok, err, StoreError, ◌≡◌, ◌⊎◌, inl, inr, refl, arith, ◌==◌,
  string_eq, Result-cases,
}
use cairnline.Base.Trim.{trim_space}
use cairnline.Base.Trimmed.{trim_space_idem}
use cairnline.Model.Project.{Root, Project}
use cairnline.MemoryStore.Projects as ProjectStore
use cairnline.MemoryStore.State.{Store, project_at}
use cairnline.Service.Env.{Env}
use cairnline.Service.History.{IsOrderly}
use cairnline.Service.Projects
use cairnline.Service.Projects.{root_of}
use cairnline.Service.Roots
use cairnline.Service.Roots.{find_project_root, normalize_project_root, updated_root, get_root}
use cairnline.Service.RootEdit.{update_root-get_root}
use cairnline.Service.TidyRoots.{IsTidy, AllTidy}
use cairnline.Service.Stated.{IsStated, trim_space-IsStated}

-- What `UpdateRoot` has made sure of when it calls `UpdateProject`.
updated_root_passed :
    (env : Env) (s : Store) (q : Project) (id : String) (input : Root)
    (p : Project × (Project → Result Root))
    → project_at s (trim_space q.id) ≡ some q
    → updated_root env s q.id id input ≡ ok p
    → ((trim_space id == "") ≡ false)
      × ((trim_space input.path == "") ≡ false)
      × ((old : Root) × (find_project_root q.roots (trim_space id) ≡ ok old))
unfolding updated_root normalize_project_root Projects.get_project ProjectStore.get_project
updated_root_passed env s q id input p found h =
    elim (Result-cases (find_project_root q.roots (trim_space id))) [
      | inl (e, gone) ↦ absurd (ground arith)
      | inr (old, there) ↦ (ground arith, ground arith, (old, there))
    ]

-- The root that is stored for a path whose cleaned form is stated and stays as it is.
root_of-IsTidy :
    (env : Env) (id : String) (input : Root)
    → IsStated id
    → IsStated (env.clean (trim_space input.path))
    → ((path : String) → env.clean (env.clean path) ≡ env.clean path)
    → IsTidy env (root_of env id (trim_space input.path) input)
unfolding root_of
root_of-IsTidy env id input named cleaned stays = record {
  id = named;
  path = cleaned;
  cleaned = stays (trim_space input.path);
  kind = trim_space_idem input.kind;
  git_remote = trim_space_idem input.git_remote;
  git_branch = trim_space_idem input.git_branch;
}

path-root_of :
    (env : Env) (id : String) (input : Root)
    → (root_of env id (trim_space input.path) input).path ≡ env.clean (trim_space input.path)
unfolding root_of
path-root_of env id input = refl

-- In a project in good order whose roots another round of normalising leaves alone, where cleaning a
-- path twice is cleaning it once, and where the path of the request, if it is not blank, is trimmed
-- and not empty once it is cleaned: an update of a root is refused and leaves the store as it was, or
-- it is answered, with the cleaned path, and GetRoot finds the answer.
pub update_root_atomic :
    (env : Env) (s : Store) (q : Project) (id : String) (input : Root)
    → IsOrderly s
    → project_at s q.id ≡ some q
    → AllTidy env q.roots
    → ((path : String) → env.clean (env.clean path) ≡ env.clean path)
    → ((trim_space input.path == "") ≡ false → IsStated (env.clean (trim_space input.path)))
    → ((e : StoreError) × (Roots.update_root env s q.id id input ≡ (err e, s)))
      ⊎ ((updated : Project) × (item : Root) × (t : Store) × (Roots.update_root env s q.id id input
            ≡ (ok (updated, item), t))
          × (item.path ≡ env.clean (trim_space input.path))
          × (get_root t q.id id ≡ ok item))
unfolding Roots.update_root
update_root_atomic env s q id input o found tidy stays cleaned =
    let c = (o.projects q.id q found).canonical in
    let there : project_at s (trim_space q.id) ≡ some q = rw (c.id.trimmed) found in
    elim (Result-cases (updated_root env s q.id id input)) [
      | inl (e, bad) ↦ inl (e, rw bad refl)
      | inr (p, fine) ↦
          let (said, pathed, (old, at)) = updated_root_passed env s q id input p there fine in
          let k = trim_space id in
          let item = root_of env k (trim_space input.path) (record input { id = k }) in
          let fits : IsTidy env item =
            root_of-IsTidy env k (record input { id = k }) (trim_space-IsStated id said)
              (cleaned pathed) stays in
          let done =
            update_root-get_root env s q id input item old o found tidy refl fits pathed at in
          inr (done.0, item, done.1, done.2, path-root_of env k (record input { id = k }), done.5)
    ]

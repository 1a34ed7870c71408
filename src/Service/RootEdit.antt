-- ===== src/Service/RootEdit.antt =====
-- Roots that are edited and looked up: `UpdateRoot` and `GetRoot` of internal/core/service.go.
use cairnline.Base.{
  String, true, false, List, [], ◌∷◌, some, ok, ◌≡◌, inl, inr, refl, sym, ap, subst, arith, ◌∙◌,
  ◌==◌, string_eq, eq_refl, eq_iff, Bool-cases,
}
use cairnline.Base.Lists.{any}
use cairnline.Base.Sorting.{Has}
use cairnline.Base.Table
use cairnline.Base.Trim.{trim_space}
use cairnline.Base.Trimmed.{trim_space_idem}
use cairnline.Model.Project.{Root, Project}
use cairnline.MemoryStore.Projects as ProjectStore
use cairnline.MemoryStore.State.{Store, project_at, key_eq}
use cairnline.Service.Calls.Shared.{replace_root-Has, replace_root-DefaultRoot}
use cairnline.Service.Canonical.{DefaultRoot}
use cairnline.Service.Env.{Env}
use cairnline.Service.History.{IsOrderly}
use cairnline.Service.Projects
use cairnline.Service.Projects.{root_of, normalize_default_root_id, commit_shared, write_through}
use cairnline.Service.Roots
use cairnline.Service.Roots.{find_project_root, normalize_project_root, replace_root, updated_root}
use cairnline.Service.RootTrip.{edited, after, update_project-eq-ok, get_root-eq}
use cairnline.Service.TidyRoots.{IsTidy, AllTidy, any-here}
use cairnline.Service.Stated.{IsStated}

replace-AllTidy :
    (env : Env) (id : String) (item : Root) (roots : List Root)
    → AllTidy env roots
    → IsTidy env item
    → AllTidy env (replace_root id item roots)
replace-AllTidy env id item roots all fits r h = elim (replace_root-Has id item roots r h) [
  | inl same ↦ subst (IsTidy env) same fits
  | inr old ↦ all r old
]

-- The root that takes the place of another is found under its id.
find-replace :
    (roots : List Root) (item old : Root)
    → IsStated item.id
    → find_project_root roots item.id ≡ ok old
    → find_project_root (replace_root item.id item roots) item.id ≡ ok item
unfolding find_project_root replace_root
find-replace [] item old h there = ground arith
find-replace (r ∷ rest) item old h there = elim (Bool-cases (trim_space r.id == item.id)) [
  | inl hit ↦ rw hit (rw (h.trimmed, eq_refl item.id) refl)
  | inr miss ↦
      let behind : find_project_root rest item.id ≡ ok old = ground (arith, h.trimmed) in
      let later = find-replace rest item old h behind in
      rw (miss, h.trimmed) (rw (miss, later) refl)
]

-- The others are found as before.
find-replace_other :
    (roots : List Root) (item : Root) (id : String)
    → IsStated item.id
    → (item.id == trim_space id) ≡ false
    → find_project_root (replace_root item.id item roots) id ≡ find_project_root roots id
unfolding find_project_root replace_root
find-replace_other [] item id h other = refl
find-replace_other (r ∷ rest) item id h other = elim (Bool-cases (trim_space r.id == item.id)) [
  | inl hit ↦
      let own : trim_space r.id ≡ item.id = (eq_iff (trim_space r.id) item.id).0 hit in
      rw hit (rw (h.trimmed, own, other) refl)
  | inr miss ↦ rw miss (rw (find-replace_other rest item id h other) refl)
]

-- A default root that is one of the roots is accepted.
default-eq-ok :
    (roots : List Root) (id : String)
    → ((r : Root) → Has r roots → IsStated r.id)
    → DefaultRoot roots id
    → (d : String) × (normalize_default_root_id id roots ≡ ok d)
unfolding normalize_default_root_id trim_space
default-eq-ok [] id stated (inl (none_yet, blank)) = rw blank (_, refl)
default-eq-ok [] id stated (inr (r, h, same)) = absurd h
default-eq-ok (first ∷ rest) id stated (inl (none_yet, blank)) = rw blank (_, refl)
default-eq-ok (first ∷ rest) id stated (inr (r, h, same)) =
    let name : IsStated id = subst IsStated same (stated r h) in
    let hit : any (λ (x : Root). x.id == id) (first ∷ rest) ≡ true =
      any-here id (first ∷ rest) r h same in
    (id, rw (name.trimmed, name.said, hit) refl)

module _ (env : Env) (s : Store) (q : Project) (found : project_at s q.id ≡ some q)
    (id_stated : IsStated q.id) where
  updated_root-eq-ok :
      (id : String) (input item old : Root)
      → root_of env (trim_space id) (trim_space input.path) (record input { id = trim_space id })
        ≡ item
      → (trim_space id == "") ≡ false
      → (trim_space input.path == "") ≡ false
      → find_project_root q.roots (trim_space id) ≡ ok old
      → updated_root env s q.id id input
        ≡ ok (
          record q { roots = replace_root (trim_space id) item q.roots },
          λ updated. find_project_root updated.roots (trim_space id),
        )
  unfolding updated_root normalize_project_root Projects.get_project ProjectStore.get_project
  updated_root-eq-ok id input item old same said pathed there =
      rw (id_stated.trimmed, id_stated.said, found, trim_space_idem id, said, there, pathed, same)
        refl

pub update_root-get_root :
    (env : Env) (s : Store) (q : Project) (id : String) (input item old : Root)
    → IsOrderly s
    → project_at s q.id ≡ some q
    → AllTidy env q.roots
    → root_of env (trim_space id) (trim_space input.path) (record input { id = trim_space id })
      ≡ item
    → IsTidy env item
    → (trim_space input.path == "") ≡ false
    → find_project_root q.roots (trim_space id) ≡ ok old
    → (updated : Project) × (t : Store) × (Roots.update_root env s q.id id input
        ≡ (ok (updated, item), t))
      × (updated.roots ≡ replace_root item.id item q.roots)
      × (project_at t q.id ≡ some updated)
      × (Roots.get_root t q.id id ≡ ok item)
      × ((other : String)
          → (item.id == trim_space other) ≡ false
          → Roots.get_root t q.id other ≡ Roots.get_root s q.id other)
unfolding Roots.update_root after root_of
update_root-get_root env s q id input item old o found tidy same fits pathed there =
    let c = (o.projects q.id q found).canonical in
    let own : trim_space id ≡ item.id = ap (λ (x : Root). x.id) same in
    let said : (trim_space id == "") ≡ false = rw own fits.id.said in
    let roots = replace_root item.id item q.roots in
    let start = updated_root-eq-ok env s q found c.id id input item old same said pathed there in
    let p : Project = record q { roots = roots } in
    let s' = write_through q.id p s in
    let shared : project_at s' q.id ≡ some p = Table.get-put_same q.id p s.projects in
    let all = replace-AllTidy env item.id item q.roots tidy fits in
    let (d, chosen) =
      default-eq-ok roots q.default_root_id (λ r h. (all r h).id)
        (replace_root-DefaultRoot item q.roots q.default_root_id c.roots c.default_root) in
    let (stored, kept) = update_project-eq-ok env s' p shared c.id c.name roots d all chosen in
    let v = edited env s' p shared c.id c.name p d in
    let t = after env s' p shared c.id c.name v in
    let stands : project_at t q.id ≡ some v = Table.get-put_same q.id v s'.projects in
    let hit =
      find-replace q.roots item old fits.id
        (subst (λ k. find_project_root q.roots k ≡ ok old) own there) in
    let begin : Roots.update_root env s q.id id input
        ≡ commit_shared env s q.id (updated_root env s q.id id input) =
      ap (λ k. commit_shared env s k (updated_root env s q.id id input)) c.id.trimmed in
    (
      v,
      t,
      begin ∙ rw (start, own) (rw (stored, kept, hit) refl),
      kept,
      stands,
      get_root-eq env s' p shared c.id c.name t v id stands
          ∙ rw (own, fits.id.said, kept, hit) refl,
      λ other apart.
          get_root-eq env s' p shared c.id c.name t v other stands
          ∙ rw
              (
                kept,
                find-replace_other q.roots item (trim_space other) fits.id
                    (rw (trim_space_idem other) apart),
              )
              (sym (get_root-eq env s q found c.id c.name s q other found)),
    )

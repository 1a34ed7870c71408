-- ===== src/Service/RootTrip.antt =====
-- Roots that are created and looked up: `CreateRoot` and `GetRoot` of internal/core/service.go.
use cairnline.Base.{
  String, true, false, List, [], ◌∷◌, ◌++◌, some, ok, ◌≡◌, refl, sym, ap, ◌∙◌, ◌==◌, string_eq,
  ◌>>◌,
}
use cairnline.Base.Lists.{any}
use cairnline.Base.Table
use cairnline.Base.Text.{first_non_empty}
use cairnline.Base.Trim.{trim_space}
use cairnline.Base.Trimmed.{trim_space_idem}
use cairnline.Model.Project.{Root, Project}
use cairnline.MemoryStore.Projects as ProjectStore
use cairnline.MemoryStore.State.{Store, project_at}
use cairnline.Service.Env.{Env}
use cairnline.Service.History.{IsOrderly}
use cairnline.Service.Normalize.{require_text}
use cairnline.Service.Projects
use cairnline.Service.Projects.{
  root_of, roots_from, normalize_roots, normalize_default_root_id, project_of, commit,
}
use cairnline.Service.Roots
use cairnline.Service.Roots.{find_project_root, normalize_project_root, created_root}
use cairnline.Service.TidyRoots.{
  IsTidy, AllTidy, roots_from-tidy, append-AllTidy, find-append, find-append_other, default-append,
}
use cairnline.Service.Stated.{IsStated}

module _ (env : Env) (s : Store) (q : Project) (found : project_at s q.id ≡ some q)
    (id_stated : IsStated q.id) (name_stated : IsStated q.name) where
  -- What `UpdateProject` stores of an edited project whose roots are tidy.
  unfoldable pub edited : Project → String → Project
  edited r d = project_of env q.id r q.context_sources q.created_at d

  unfoldable pub after : Project → Store
  after v = record s { projects = Table.put q.id v s.projects }

  pub update_project-eq-ok :
      (roots : List Root) (d : String)
      → AllTidy env roots
      → normalize_default_root_id q.default_root_id roots ≡ ok d
      → let r = record q { roots = roots } in
        (Projects.update_project env s r ≡ ok (edited r d, after (edited r d)))
        × ((edited r d).roots ≡ roots)
  unfolding Projects.update_project ProjectStore.update_project ProjectStore.get_project edited
      after project_of normalize_roots
  update_project-eq-ok roots d tidy chosen =
      let same = roots_from-tidy env 0 roots tidy in
      let at : normalize_default_root_id q.default_root_id (roots_from env 0 roots) ≡ ok d =
        rw same chosen in
      (
        rw (id_stated.trimmed, id_stated.said, name_stated.trimmed, name_stated.said, found, at)
            refl,
        same,
      )

  normalize_project_root-eq-ok :
      (input item : Root)
      → root_of env
          (first_non_empty (trim_space input.id) (env.new_id "root" 0))
          (trim_space input.path)
          input
        ≡ item
      → IsStated item.id
      → (trim_space input.path == "") ≡ false
      → normalize_project_root env input true ≡ ok item
  unfolding normalize_project_root root_of
  normalize_project_root-eq-ok input item same h pathed =
      let id = first_non_empty (trim_space input.id) (env.new_id "root" 0) in
      let own : id ≡ item.id = ap (λ (x : Root). x.id) same in
      let said : (id == "") ≡ false = rw own h.said in rw (said, pathed) (ap ok same)

  created_root-eq-ok :
      (input item : Root)
      → normalize_project_root env input true ≡ ok item
      → any (λ (r : Root). trim_space r.id == item.id) q.roots ≡ false
      → created_root env s q.id input
        ≡ ok (
          record q { roots = q.roots ++ item ∷ [] },
          λ updated. find_project_root updated.roots item.id,
        )
  unfolding created_root Projects.get_project ProjectStore.get_project
  created_root-eq-ok input item done fresh =
      rw (id_stated.trimmed, id_stated.said, found, done, fresh) refl

  -- Roots are read from the project that stands in the store.
  pub get_root-eq :
      (u : Store) (v : Project) (id : String)
      → project_at u q.id ≡ some v
      → Roots.get_root u q.id id ≡ (
          require_text (trim_space id) "root id is required"
          >> find_project_root v.roots (trim_space id))
  unfolding Roots.get_root Roots.list_roots Projects.get_project ProjectStore.get_project
  get_root-eq u v id there = rw (id_stated.trimmed, id_stated.said, there) refl

-- A root whose id is new and whose fields another round of normalising would leave alone is created
-- in a project whose roots are such: the answer is the root as it is stored, which GetRoot then
-- finds; it stands behind the roots that were there, and every other look-up of a root of the
-- project answers as before.
pub create_root-get_root :
    (env : Env) (s : Store) (q : Project) (input item : Root)
    → IsOrderly s
    → project_at s q.id ≡ some q
    → AllTidy env q.roots
    → root_of env
        (first_non_empty (trim_space input.id) (env.new_id "root" 0))
        (trim_space input.path)
        input
      ≡ item
    → IsTidy env item
    → (trim_space input.path == "") ≡ false
    → any (λ (r : Root). trim_space r.id == item.id) q.roots ≡ false
    → (updated : Project) × (t : Store) × (Roots.create_root env s q.id input
        ≡ (ok (updated, item), t))
      × (updated.roots ≡ q.roots ++ item ∷ [])
      × (project_at t q.id ≡ some updated)
      × (Roots.get_root t q.id item.id ≡ ok item)
      × ((id : String)
          → (item.id == trim_space id) ≡ false
          → Roots.get_root t q.id id ≡ Roots.get_root s q.id id)
unfolding Roots.create_root after
create_root-get_root env s q input item o found tidy same fits pathed fresh =
    let c = (o.projects q.id q found).canonical in
    let (d, chosen) = default-append q.roots item q.default_root_id c.roots c.default_root in
    let roots = q.roots ++ item ∷ [] in
    let all = append-AllTidy env q.roots item tidy fits in
    let done =
      normalize_project_root-eq-ok env s q found c.id c.name input item same fits.id pathed in
    let start = created_root-eq-ok env s q found c.id c.name input item done fresh in
    let (stored, kept) = update_project-eq-ok env s q found c.id c.name roots d all chosen in
    let v = edited env s q found c.id c.name (record q { roots = roots }) d in
    let t = after env s q found c.id c.name v in
    let there : project_at t q.id ≡ some v = Table.get-put_same q.id v s.projects in
    let hit = find-append q.roots item fits.id fresh in
    (
      v,
      t,
      rw (start, stored, kept, hit) refl,
      kept,
      there,
      get_root-eq env s q found c.id c.name t v item.id there
          ∙ rw (fits.id.trimmed, fits.id.said, kept, hit) refl,
      λ id other.
          get_root-eq env s q found c.id c.name t v id there
          ∙ rw
              (
                kept,
                find-append_other q.roots item (trim_space id) fits.id
                    (rw (trim_space_idem id) other),
              )
              (sym (get_root-eq env s q found c.id c.name s q id found)),
    )

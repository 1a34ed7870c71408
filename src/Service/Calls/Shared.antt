-- ===== src/Service/Calls/Shared.antt =====
-- `UpdateRoot` and `UpdateContextSource` write into the project that the store holds: what this does
-- to the project.
use cairnline.Base.{
  String, false, Option-cases, Result-cases, List, [], ◌∷◌, Result, ok, ◌≡◌, ◌⊎◌, inl, inr, refl,
  sym, ap, subst, arith, ◌∙◌, ◌==◌, string_eq, Bool-cases, eq_iff,
}
use cairnline.Base.Sorting.{Has}
use cairnline.Base.Trim.{trim_space}
use cairnline.Model.Clock.{Time}
use cairnline.Model.Project.{Root, Source, Project}
use cairnline.MemoryStore.State.{Store, project_at, key_eq}
use cairnline.Service.Calls.Step.{Edited}
use cairnline.Service.Canonical.{DefaultRoot, IsCanonicalProject}
use cairnline.Service.Env.{Env}
use cairnline.MemoryStore.Projects as ProjectStore
use cairnline.Service.Projects
use cairnline.Service.Projects.{root_of, write_through}
use cairnline.Service.Roots.{replace_root, normalize_project_root, updated_root}
use cairnline.Service.Sources.{
  find_context_source, replace_source, normalize_context_source, updated_source,
}
use cairnline.Service.Stated.{IsStated, trim_space-IsStated}

pub replace_root-Has :
    (id : String) (item : Root) (roots : List Root) (r : Root)
    → Has r (replace_root id item roots)
    → (item ≡ r) ⊎ Has r roots
unfolding replace_root
replace_root-Has id item [] r h = absurd h
replace_root-Has id item (x ∷ rest) r h = ground (arith, replace_root-Has id item rest r)

replace_source-Has :
    (id : String) (item : Source) (sources : List Source) (x : Source)
    → Has x (replace_source id item sources)
    → (item ≡ x) ⊎ Has x sources
unfolding replace_source
replace_source-Has id item [] x h = absurd h
replace_source-Has id item (y ∷ rest) x h = ground (arith, replace_source-Has id item rest x)

-- The ids of the roots stay, where the one that is replaced says it as it is.
replace_root-ids :
    (item : Root) (roots : List Root) (r : Root)
    → ((x : Root) → Has x roots → IsStated x.id)
    → Has r roots
    → (x : Root) × Has x (replace_root item.id item roots) × (x.id ≡ r.id)
unfolding replace_root
replace_root-ids item [] r stated h = absurd h
replace_root-ids item (y ∷ rest) r stated h =
    let own = (stated y (inl refl)).trimmed in
    elim (Bool-cases (trim_space y.id == item.id)) [
      | inl hit ↦ rw hit (elim h [
        | inl same ↦ (
          item,
          inl refl,
          sym ((eq_iff (trim_space y.id) item.id).0 hit) ∙ own ∙ ap (λ (x : Root). x.id) same,
        )
        | inr later ↦ (r, inr later, refl)
      ])
      | inr miss ↦ rw miss (elim h [
        | inl same ↦ (y, inl refl, ap (λ (x : Root). x.id) same)
        | inr later ↦
            let found = replace_root-ids item rest r (λ x k. stated x (inr k)) later in
            (found.0, inr found.1, found.2)
      ])
    ]

pub replace_root-DefaultRoot :
    (item : Root) (roots : List Root) (id : String)
    → ((x : Root) → Has x roots → IsStated x.id)
    → DefaultRoot roots id
    → DefaultRoot (replace_root item.id item roots) id
unfolding replace_root
replace_root-DefaultRoot item roots id stated (inl (none_left, blank)) =
    inl (rw none_left refl, blank)
replace_root-DefaultRoot item roots id stated (inr (r, there, same)) =
    let found = replace_root-ids item roots r stated there in inr (found.0, found.1, found.2 ∙ same)

-- The project with a root replaced under its id.
with_root-IsCanonicalProject :
    (p : Project) (id : String) (item : Root)
    → item.id ≡ id
    → IsStated id
    → IsCanonicalProject p
    → IsCanonicalProject (record p { roots = replace_root id item p.roots })
with_root-IsCanonicalProject p id item own stated c = record {
  id = c.id;
  name = c.name;
  roots = λ r h. elim (replace_root-Has id item p.roots r h) [
    | inl same ↦ subst (λ (x : Root). IsStated x.id) same (subst IsStated (sym own) stated)
    | inr old ↦ c.roots r old
  ];
  sources = c.sources;
  default_root =
      subst (λ k. DefaultRoot (replace_root k item p.roots) p.default_root_id) own
        (replace_root-DefaultRoot item p.roots p.default_root_id c.roots c.default_root);
}

with_source-IsCanonicalProject :
    (p : Project) (id : String) (item : Source)
    → IsStated item.id
    → IsCanonicalProject p
    → IsCanonicalProject (record p { context_sources = replace_source id item p.context_sources })
with_source-IsCanonicalProject p id item stated c = record {
  id = c.id;
  name = c.name;
  roots = c.roots;
  sources = λ x h. elim (replace_source-Has id item p.context_sources x h) [
    | inl same ↦ subst (λ (y : Source). IsStated y.id) same stated
    | inr old ↦ c.sources x old
  ];
  default_root = c.default_root;
}

module _ (env : Env) where
  pub updated_root-Edited :
      (s : Store) (project_id id : String) (input : Root) (p : Project)
      (pick : Project → Result Root)
      → updated_root env s project_id id input ≡ ok (p, pick)
      → Edited s (write_through (trim_space project_id) p s)
  unfolding updated_root Projects.get_project ProjectStore.get_project normalize_project_root
      root_of
  updated_root-Edited s project_id id input p pick h =
      elim (Option-cases (project_at s (trim_space project_id))) [
        | inl gone ↦ absurd (ground arith)
        | inr (old, found) ↦
            let said : (trim_space id == "") ≡ false = ground arith in
            let given = trim_space-IsStated id said in
            let item : Root =
              root_of env (trim_space (trim_space id)) (trim_space input.path)
                (record input { id = trim_space id }) in
            let same : record old { roots = replace_root (trim_space id) item old.roots } ≡ p =
              ground arith in
            record {
              id = trim_space project_id;
              old = old;
              edited = p;
              found = found;
              same_id = ap (λ (q : Project). q.id) (sym same);
              canonical = λ c.
                  subst IsCanonicalProject same
                    (with_root-IsCanonicalProject old (trim_space id) item given.trimmed given c);
              written = refl;
            }
      ]

  normalize_context_source-id :
      (input : Source) (existing : Time) (item : Source)
      → normalize_context_source env input existing false ≡ ok item
      → item.id ≡ trim_space input.id
  unfolding normalize_context_source
  normalize_context_source-id input existing item h = ground arith

  pub updated_source-Edited :
      (s : Store) (project_id id : String) (input : Source) (p : Project)
      (pick : Project → Result Source)
      → updated_source env s project_id id input ≡ ok (p, pick)
      → Edited s (write_through (trim_space project_id) p s)
  unfolding updated_source Projects.get_project ProjectStore.get_project
  updated_source-Edited s project_id id input p pick h =
      elim (Option-cases (project_at s (trim_space project_id))) [
        | inl gone ↦ absurd (ground arith)
        | inr (old, found) ↦
            elim (Result-cases (find_context_source old.context_sources (trim_space id))) [
              | inl (e, missing) ↦ absurd (ground arith)
              | inr (existing, there) ↦
                  elim (Result-cases (
                    normalize_context_source env (record input { id = trim_space id })
                      existing.created_at false)) [
                        | inl (e, bad) ↦ absurd (ground arith)
                        | inr (item, made) ↦
                            let given = trim_space-IsStated id (ground arith) in
                            let own =
                              normalize_context_source-id (record input { id = trim_space id })
                                existing.created_at item made
                              ∙ given.trimmed in
                            let same : record old {
                              context_sources =
                                  replace_source (trim_space id) item old.context_sources;
                            }
                                ≡ p =
                              ground arith in
                            record {
                              id = trim_space project_id;
                              old = old;
                              edited = p;
                              found = found;
                              same_id = ap (λ (q : Project). q.id) (sym same);
                              canonical = λ c. subst IsCanonicalProject same (
                                  with_source-IsCanonicalProject old (trim_space id) item
                                    (subst IsStated (sym own) given) c);
                              written = refl;
                            }
                      ]
            ]
      ]

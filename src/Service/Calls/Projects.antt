-- ===== src/Service/Calls/Projects.antt =====
-- Requests on projects, their roots and their sources as calls of the store.
use cairnline.Base.{
  ℕ, suc, String, true, false, List, [], ◌∷◌, Result, ok, err, ◌≡◌, refl, subst, arith, ◌==◌,
  string_eq, Bool-cases, Result-cases, inl, inr, eq_iff, ◌∙◌,
}
use cairnline.Base.Lists.{any}
use cairnline.Base.Sorting.{Has}
use cairnline.Base.Text.{first_non_empty}
use cairnline.Base.Trim.{trim_space}
use cairnline.Model.Clock.{Time}
use cairnline.Model.Project.{Root, Source, Project}
use cairnline.MemoryStore.Accept.{RequestPayload}
use cairnline.MemoryStore.Calls
use cairnline.MemoryStore.Calls.{dispatch, state}
use cairnline.MemoryStore.Projects as ProjectStore
use cairnline.MemoryStore.State.{Store, key_eq}
use cairnline.Service.Calls.Step.{Called, Edited, Begun, IsServed}
use cairnline.Service.Canonical.{DefaultRoot, IsCanonicalProject}
use cairnline.Service.Env.{Env}
use cairnline.Service.Projects
use cairnline.Service.Projects.{
  root_of, roots_from, normalize_roots, source_of, is_empty_source, sources_from, normalize_sources,
  normalize_default_root_id, project_of, updated_reply, commit, commit_shared, write_through,
}
use cairnline.Service.Requests.{replied}
use cairnline.Service.Stated.{IsStated, IsSound, trim_space-IsStated, first_non_empty-IsStated}

any-Has :
    (id : String) (roots : List Root)
    → any (λ (root : Root). root.id == id) roots ≡ true
    → (r : Root) × Has r roots × (r.id ≡ id)
unfolding any
any-Has id [] h = ground arith
any-Has id (x ∷ rest) h = elim (Bool-cases (x.id == id)) [
  | inl hit ↦ (x, inl refl, (eq_iff x.id id).0 hit)
  | inr miss ↦ let later = any-Has id rest (ground arith) in (later.0, inr later.1, later.2)
]

normalize_default_root_id-DefaultRoot :
    (value : String) (roots : List Root) (id : String)
    → normalize_default_root_id value roots ≡ ok id
    → DefaultRoot roots id
unfolding normalize_default_root_id
normalize_default_root_id-DefaultRoot value [] id h = inl (refl, ground arith)
normalize_default_root_id-DefaultRoot value (first ∷ rest) id h =
    elim (Bool-cases (trim_space value == "")) [
      | inl blank ↦ inr (first, inl refl, ground arith)
      | inr given ↦
          let found = any-Has (trim_space value) (first ∷ rest) (ground arith) in
          let same : trim_space value ≡ id = ground arith in inr (found.0, found.1, found.2 ∙ same)
    ]

module _ (env : Env) (sound : IsSound env) where
  roots_from-IsStated :
      (n : ℕ) (values : List Root) (r : Root) → Has r (roots_from env n values) → IsStated r.id
  unfolding roots_from root_of
  roots_from-IsStated n [] r h = absurd h
  roots_from-IsStated n (value ∷ rest) r h = elim (Bool-cases (trim_space value.path == "")) [
    | inl blank ↦ roots_from-IsStated (suc n) rest r (rw blank at h)
    | inr given ↦ elim (rw given at h) [
      | inl same ↦
          subst (λ (x : Root). IsStated x.id) same
            (first_non_empty-IsStated value.id _ (sound.new_id "root" n))
      | inr later ↦ roots_from-IsStated (suc n) rest r later
    ]
  ]

  sources_from-IsStated :
      (n : ℕ) (values existing : List Source) (x : Source)
      → Has x (sources_from env n values existing)
      → IsStated x.id
  unfolding sources_from source_of
  sources_from-IsStated n [] existing x h = absurd h
  sources_from-IsStated n (value ∷ rest) existing x h =
      elim (Bool-cases (is_empty_source env value)) [
        | inl blank ↦ sources_from-IsStated (suc n) rest existing x (rw blank at h)
        | inr given ↦ elim (rw given at h) [
          | inl same ↦
              subst (λ (y : Source). IsStated y.id) same
                (first_non_empty-IsStated value.id _ (sound.new_id "src" n))
          | inr later ↦ sources_from-IsStated (suc n) rest existing x later
        ]
      ]

  project_of-IsCanonicalProject :
      (id : String) (input : Project) (existing : List Source) (created_at : Time) (root : String)
      → IsStated id
      → (trim_space input.name == "") ≡ false
      → normalize_default_root_id input.default_root_id (normalize_roots env input.roots) ≡ ok root
      → IsCanonicalProject (project_of env id input existing created_at root)
  unfolding project_of normalize_roots normalize_sources
  project_of-IsCanonicalProject id input existing created_at root h name chosen = record {
    id = h;
    name = trim_space-IsStated input.name name;
    roots = roots_from-IsStated 0 input.roots;
    sources = sources_from-IsStated 0 input.context_sources existing;
    default_root = normalize_default_root_id-DefaultRoot input.default_root_id _ root chosen;
  }

  module _ (fingerprint : RequestPayload → String) where
    pub create_project-Called :
        (s : Store) (input p : Project) (t : Store)
        → Projects.create_project env s input ≡ ok (p, t)
        → Called fingerprint env s t
    unfolding Projects.create_project dispatch
    create_project-Called s input p t h =
        let id = first_non_empty (trim_space input.id) (env.new_id "proj" 0) in
        elim (Result-cases
          (normalize_default_root_id input.default_root_id (normalize_roots env input.roots))) [
            | inl (e, bad) ↦ absurd (ground arith)
            | inr (root, chosen) ↦ record {
              call = Calls.create_project (project_of env id input [] env.now root);
              canonical =
                  project_of-IsCanonicalProject id input [] env.now root
                    (first_non_empty-IsStated _ _ (sound.new_id "proj" 0)) (ground arith) chosen;
              dispatched = ground arith;
            }
          ]

    pub update_project-Called :
        (s : Store) (input p : Project) (t : Store)
        → Projects.update_project env s input ≡ ok (p, t)
        → Called fingerprint env s t
    unfolding Projects.update_project dispatch
    update_project-Called s input p t h =
        let id = trim_space input.id in
        elim (Result-cases (ProjectStore.get_project s id)) [
          | inl (e, gone) ↦ absurd (ground arith)
          | inr (old, found) ↦
              elim (Result-cases (
                normalize_default_root_id input.default_root_id
                  (normalize_roots env input.roots))) [
                    | inl (e, bad) ↦ absurd (ground arith)
                    | inr (root, chosen) ↦ record {
                      call =
                          Calls.update_project
                            (project_of env id input old.context_sources old.created_at root);
                      canonical =
                          project_of-IsCanonicalProject id input old.context_sources old.created_at
                            root (trim_space-IsStated input.id (ground arith)) (ground arith)
                            chosen;
                      dispatched = ground arith;
                    }
                  ]
        ]

    pub delete_project-Called :
        (s : Store) (id : String) (t : Store)
        → Projects.delete_project s id ≡ ok t
        → Called fingerprint env s t
    unfolding Projects.delete_project dispatch
    delete_project-Called s id t h = record {
      call = Calls.delete_project (trim_space id);
      canonical = trim_space-IsStated id (ground arith);
      dispatched = ground arith;
    }

    -- The commands on roots and sources: whatever is looked up after it, the write is one update.
    pub updated_reply-IsServed :
        {A : Type 0} (s m : Store) (r : Result (Project × Store)) (pick : Project → Result A)
        → Begun s m
        → ((p : Project) (t : Store) → r ≡ ok (p, t) → Called fingerprint env m t)
        → IsServed fingerprint env s (replied (updated_reply m r pick))
    updated_reply-IsServed s m (err e) pick begun h = inl begun
    updated_reply-IsServed s m (ok (p, t)) pick begun h = elim (Result-cases (pick p)) [
      | inl (e, bad) ↦ rw bad (inr (m, begun, h p t refl))
      | inr (a, found) ↦ rw found (m, begun, h p t refl)
    ]

    pub commit-IsServed :
        {A : Type 0} (s : Store) (r : Result (Project × (Project → Result A)))
        → IsServed fingerprint env s (replied (commit env s r))
    commit-IsServed s (err e) = inl (inl refl)
    commit-IsServed s (ok (p, pick)) =
        updated_reply-IsServed s s (Projects.update_project env s p) pick (inl refl)
          (update_project-Called s p)

    pub commit_shared-IsServed :
        {A : Type 0} (s : Store) (id : String) (r : Result (Project × (Project → Result A)))
        → ((p : Project) (pick : Project → Result A)
            → r ≡ ok (p, pick)
            → Edited s (write_through id p s))
        → IsServed fingerprint env s (replied (commit_shared env s id r))
    commit_shared-IsServed s id (err e) edits = inl (inl refl)
    commit_shared-IsServed s id (ok (p, pick)) edits =
        let m = write_through id p s in
        updated_reply-IsServed s m (Projects.update_project env m p) pick (inr (edits p pick refl))
          (update_project-Called m p)

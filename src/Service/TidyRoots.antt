-- ===== src/Service/TidyRoots.antt =====
-- Lists of roots that `normalizeRoots` of internal/core/service.go leaves as they are.
use cairnline.Base.{
  ℕ, suc, String, true, false, List, [], ◌∷◌, ◌++◌, ok, ◌≡◌, inl, inr, refl, subst, arith, ap, ◌∙◌,
  ◌==◌, string_eq, eq_refl,
}
use cairnline.Base.Lists.{any, any-append, append-Has}
use cairnline.Base.Sorting.{Has}
use cairnline.Base.Trim.{trim_space}
use cairnline.Model.Project.{Root}
use cairnline.Service.Canonical.{DefaultRoot}
use cairnline.Service.Env.{Env}
use cairnline.Service.Projects.{root_of, roots_from, normalize_default_root_id}
use cairnline.Service.Roots.{find_project_root}
use cairnline.Service.Stated.{IsStated}

-- A root that another round of trimming and cleaning leaves as it is.
pub record IsTidy (env : Env) (r : Root) : Type 0 where
  pub id : IsStated r.id
  pub path : IsStated r.path
  pub cleaned : env.clean r.path ≡ r.path
  pub kind : trim_space r.kind ≡ r.kind
  pub git_remote : trim_space r.git_remote ≡ r.git_remote
  pub git_branch : trim_space r.git_branch ≡ r.git_branch

abbrev pub AllTidy : Env → List Root → Type 0
AllTidy env roots = (r : Root) → Has r roots → IsTidy env r

module _ (env : Env) where
  root_of-tidy : (r : Root) → IsTidy env r → root_of env r.id (trim_space r.path) r ≡ r
  unfolding root_of
  root_of-tidy r t = rw (t.path.trimmed, t.cleaned, t.kind, t.git_remote, t.git_branch) refl

  pub roots_from-tidy :
      (n : ℕ) (roots : List Root) → AllTidy env roots → roots_from env n roots ≡ roots
  unfolding roots_from
  roots_from-tidy n [] all = refl
  roots_from-tidy n (r ∷ rest) all =
      let t = all r (inl refl) in
      let same = root_of-tidy r t in
      let more = roots_from-tidy (suc n) rest (λ x h. all x (inr h)) in
      rw (t.path.trimmed, t.path.said, t.id.trimmed, t.id.said, more)
        (rw (t.path.trimmed) at (ap (λ x. x ∷ rest) same))

pub append-AllTidy :
    (env : Env) (roots : List Root) (item : Root)
    → AllTidy env roots
    → IsTidy env item
    → AllTidy env (roots ++ item ∷ [])
append-AllTidy env roots item all fits r h = elim ((append-Has r roots (item ∷ [])).0 h) [
  | inl old ↦ all r old
  | inr (inl same) ↦ subst (IsTidy env) same fits
  | inr (inr none_left) ↦ absurd none_left
]

-- The new root is found behind the others.
pub find-append :
    (roots : List Root) (item : Root)
    → IsStated item.id
    → any (λ (r : Root). trim_space r.id == item.id) roots ≡ false
    → find_project_root (roots ++ item ∷ []) item.id ≡ ok item
unfolding find_project_root any
find-append [] item h fresh = rw (h.trimmed, eq_refl item.id) refl
find-append (r ∷ rest) item h fresh =
    let later = find-append rest item h (ground arith) in rw later (rw h.trimmed (ground arith))

-- The others are found as before.
pub find-append_other :
    (roots : List Root) (item : Root) (id : String)
    → IsStated item.id
    → (item.id == trim_space id) ≡ false
    → find_project_root (roots ++ item ∷ []) id ≡ find_project_root roots id
unfolding find_project_root
find-append_other [] item id h other = rw (h.trimmed, other) refl
find-append_other (r ∷ rest) item id h other = rw (find-append_other rest item id h other) refl

pub any-here :
    (id : String) (roots : List Root) (r : Root)
    → Has r roots
    → r.id ≡ id
    → any (λ (x : Root). x.id == id) roots ≡ true
unfolding any
any-here id [] r h same = absurd h
any-here id (x ∷ rest) r (inl first) same =
    let hit : x.id ≡ id = ap (λ (y : Root). y.id) first ∙ same in rw hit (rw (eq_refl id) refl)
any-here id (x ∷ rest) r (inr later) same = ground (arith, any-here id rest r later same)

-- The default root of a project stays a default root among more roots.
pub default-append :
    (roots : List Root) (item : Root) (id : String)
    → ((r : Root) → Has r roots → IsStated r.id)
    → DefaultRoot roots id
    → (d : String) × (normalize_default_root_id id (roots ++ item ∷ []) ≡ ok d)
unfolding normalize_default_root_id trim_space
default-append [] item id stated (inl (none_yet, blank)) = rw blank (_, refl)
default-append [] item id stated (inr (r, h, same)) = absurd h
default-append (first ∷ rest) item id stated (inl (none_yet, blank)) = rw blank (_, refl)
default-append (first ∷ rest) item id stated (inr (r, h, same)) =
    let name : IsStated id = subst IsStated same (stated r h) in
    let hit : any (λ (x : Root). x.id == id) ((first ∷ rest) ++ item ∷ []) ≡ true =
      rw
        (
          any-append (λ (x : Root). x.id == id) (first ∷ rest) (item ∷ []),
          any-here id (first ∷ rest) r h same,
        )
        refl in
    (id, rw (name.trimmed, name.said, hit) refl)

-- ===== src/Service/Offers.antt =====
-- The skills and the role that a launch packet shows.
use cairnline.Base.{
  String, true, List, [], ◌∷◌, ◌++◌, Option, some, ok, ◌≡◌, inl, inr, refl, subst, arith, ◌==◌,
  string_eq, Bool-cases, Option-cases, eq_iff,
}
use cairnline.Base.Lists.{append-Has}
use cairnline.Base.Nested
use cairnline.Base.Sorting.{Has}
use cairnline.Model.Project.{Project, ProjectSkill}
use cairnline.Model.SkillId.{normalize_skill_id}
use cairnline.Model.Work.{Role}
use cairnline.MemoryStore.Roles
use cairnline.MemoryStore.Skills
use cairnline.MemoryStore.State.{Store, project_at}
use cairnline.Service.Env.{Env}
use cairnline.Service.Launch.{assignment_role, judged, resolve_skill, resolve_skills}

-- A skill that a worker may be offered: registered, enabled and available.
pub record IsOffered (s : Store) (p : String) (k : ProjectSkill) : Type 0 where
  pub id : String
  pub registered : Nested.get p id s.skills ≡ some k
  pub enabled : k.enabled ≡ true
  pub available : k.status ≡ "available"

abbrev pub AllOffered : Store → String → List ProjectSkill → Type 0
AllOffered s p skills = (k : ProjectSkill) → Has k skills → IsOffered s p k

module _ (env : Env) (s : Store) (p : String) (project : Project)
    (found : project_at s p ≡ some project) where
  AllOffered-append :
      (skills : List ProjectSkill) (k : ProjectSkill)
      → AllOffered s p skills
      → IsOffered s p k
      → AllOffered s p (skills ++ k ∷ [])
  AllOffered-append skills k all offered j h = elim ((append-Has j skills (k ∷ [])).0 h) [
    | inl old ↦ all j old
    | inr (inl same) ↦ subst (IsOffered s p) same offered
    | inr (inr none_left) ↦ absurd none_left
  ]

  -- One skill that was asked for: the request goes on, and it is offered only if it may be.
  judged-AllOffered :
      (id : String) (skills : List ProjectSkill) (warnings : List String)
      → AllOffered s p skills
      → (out : List ProjectSkill × List String) × (judged id
            (Skills.get_project_skill s p id)
            (skills, warnings)
          ≡ ok out)
        × AllOffered s p out.0
  unfolding Skills.get_project_skill
  judged-AllOffered id skills warnings all = elim (Option-cases (Nested.get p id s.skills)) [
    | inl gone ↦ rw found (rw gone (_, refl, all))
    | inr (k, there) ↦ elim (Bool-cases k.enabled) [
      | inl enabled ↦ elim (Bool-cases (k.status == "available")) [
        | inl available ↦
            let offered : IsOffered s p k = record {
              id = id;
              registered = there;
              enabled = enabled;
              available = (eq_iff k.status "available").0 available;
            } in
            ((skills ++ k ∷ [], warnings), ground arith, AllOffered-append skills k all offered)
        | inr missing ↦ rw found (rw there (rw enabled (rw missing (_, refl, all))))
      ]
      | inr disabled ↦ rw found (rw there (rw disabled (_, refl, all)))
    ]
  ]

  resolve_skill-AllOffered :
      (given : String) (skills : List ProjectSkill) (warnings : List String)
      → AllOffered s p skills
      → (out : List ProjectSkill × List String) × (resolve_skill env s p given (skills, warnings)
          ≡ ok out)
        × AllOffered s p out.0
  unfolding resolve_skill
  resolve_skill-AllOffered given skills warnings all =
      elim (Bool-cases (normalize_skill_id env.to_lower given == "")) [
        | inl blank ↦ rw blank (_, refl, all)
        | inr real ↦
            rw real (judged-AllOffered (normalize_skill_id env.to_lower given) skills warnings all)
      ]

  pub resolve_skills-AllOffered :
      (wanted : List String) (skills : List ProjectSkill) (warnings : List String)
      → AllOffered s p skills
      → (out : List ProjectSkill × List String) × (resolve_skills env s p wanted (skills, warnings)
          ≡ ok out)
        × AllOffered s p out.0
  unfolding resolve_skills
  resolve_skills-AllOffered [] skills warnings all = ((skills, warnings), refl, all)
  resolve_skills-AllOffered (given ∷ rest) skills warnings all =
      let (next, done, kept) = resolve_skill-AllOffered given skills warnings all in
      rw done (resolve_skills-AllOffered rest next.0 next.1 kept)

  pub role-ok :
      (role_id : String)
      → (out : Option Role × List String) × (assignment_role s p role_id ≡ ok out)
  unfolding assignment_role Roles.get_role
  role-ok role_id = elim (Bool-cases (role_id == "")) [
    | inl blank ↦ rw blank (_, refl)
    | inr given ↦ elim (Option-cases (Nested.get p role_id s.roles)) [
      | inl gone ↦ rw given (rw found (rw gone (_, refl)))
      | inr (role, there) ↦ rw given (rw found (rw there (_, refl)))
    ]
  ]

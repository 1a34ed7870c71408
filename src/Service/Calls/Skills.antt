-- ===== src/Service/Calls/Skills.antt =====
-- Requests on project skills as calls of the store.
use cairnline.Base.{
  String, Bool, true, false, List, ok, ◌≡◌, ◌≤◌, refl, arith, ◌==◌, string_eq, Result-cases, inl,
  inr, eq_iff,
}
use cairnline.Base.Lists.{length, length-take}
use cairnline.Model.Project.{ProjectSkill}
use cairnline.MemoryStore.Accept.{RequestPayload}
use cairnline.MemoryStore.Calls
use cairnline.MemoryStore.Calls.{dispatch, state}
use cairnline.MemoryStore.Skills as SkillStore
use cairnline.MemoryStore.State.{Store}
use cairnline.Service.Calls.Step.{Called}
use cairnline.Service.Env.{Env}
use cairnline.Service.Normalize.{
  suggested_tools_max_items, normalize_suggested_tools, normalize_string_slice, valid_skill_status,
  stamp_or, trimmed_or,
}
use cairnline.Service.Skills
use cairnline.Service.Skills.{skill_of, normalize_project_skill}
use cairnline.Service.Stated.{IsStated, trim_space-IsStated}

length-normalize_suggested_tools :
    (values : List String) → length (normalize_suggested_tools values).0 ≤ suggested_tools_max_items
unfolding normalize_suggested_tools
length-normalize_suggested_tools values =
    ground (arith, length-take suggested_tools_max_items (normalize_string_slice values))

-- What a normalised skill is.
record IsNormalized (input : ProjectSkill) (creating : Bool) (k : ProjectSkill) : Type 0 where
  project_id : IsStated k.project_id
  own_id : (k.id == "") ≡ false
  markdown : k.format ≡ "skill_md"
  status : valid_skill_status k.status ≡ true
  tools : length k.suggested_tools ≤ suggested_tools_max_items
  enabled : creating ≡ true → k.enabled ≡ true

module _ (fingerprint : RequestPayload → String) (env : Env) where
  normalize_project_skill-IsNormalized :
      (input : ProjectSkill) (creating : Bool) (k : ProjectSkill)
      → normalize_project_skill env input creating ≡ ok k
      → IsNormalized input creating k
  unfolding normalize_project_skill skill_of
  normalize_project_skill-IsNormalized input creating k h = record {
    project_id = ground (arith, trim_space-IsStated input.project_id);
    own_id = ground arith;
    markdown = ground (arith, eq_iff (trimmed_or input.format "skill_md") "skill_md");
    status = ground arith;
    tools = ground (arith, length-normalize_suggested_tools input.suggested_tools);
    enabled = ground arith;
  }

  pub create_project_skill-Called :
      (s : Store) (input k : ProjectSkill) (t : Store)
      → Skills.create_project_skill env s input ≡ ok (k, t)
      → Called fingerprint env s t
  unfolding Skills.create_project_skill dispatch
  create_project_skill-Called s input k t h =
      elim (Result-cases (normalize_project_skill env input true)) [
        | inl (e, bad) ↦ absurd (ground arith)
        | inr (item, done) ↦
            let facts = normalize_project_skill-IsNormalized input true item done in
            record {
              call = Calls.create_skill item;
              canonical = (
                facts.project_id,
                facts.own_id,
                facts.markdown,
                facts.status,
                facts.tools,
                facts.enabled refl,
              );
              dispatched = ground arith;
            }
      ]

  pub update_project_skill-Called :
      (s : Store) (input k : ProjectSkill) (t : Store)
      → Skills.update_project_skill env s input ≡ ok (k, t)
      → Called fingerprint env s t
  unfolding Skills.update_project_skill dispatch
  update_project_skill-Called s input k t h =
      elim (Result-cases (normalize_project_skill env input false)) [
        | inl (e, bad) ↦ absurd (ground arith)
        | inr (item, done) ↦
            let facts = normalize_project_skill-IsNormalized input false item done in
            elim (Result-cases (SkillStore.get_project_skill s item.project_id item.id)) [
              | inl (e, gone) ↦ absurd (ground arith)
              | inr (old, found) ↦ record {
                call = Calls.update_skill (record item {
                  created_at = old.created_at;
                  discovered_at = stamp_or item.discovered_at old.discovered_at;
                });
                canonical =
                    (facts.project_id, facts.own_id, facts.markdown, facts.status, facts.tools);
                dispatched = ground arith;
              }
            ]
      ]

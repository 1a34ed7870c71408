-- ===== src/Service/Skills.antt =====
-- Project skills in internal/core/service.go.
use cairnline.Base.{
  String, ℕ, Bool, true, false, Result, ok, invalid, reject, List, [], ◌∷◌, if◌then◌else◌, ◌==◌,
  string_eq, nat_eq, not, ◌>>◌, ◌>>=◌,
}
use cairnline.Base.Ids.{append_unique}
use cairnline.Base.Text.{decimal}
use cairnline.Base.Texts.{compact_strings, join}
use cairnline.Base.Trim.{trim_space}
use cairnline.Model.Clock.{is_zero}
use cairnline.Model.Project.{ProjectSkill}
use cairnline.Model.SkillId.{normalize_skill_id}
use cairnline.MemoryStore.Lists
use cairnline.MemoryStore.Projects
use cairnline.MemoryStore.Skills
use cairnline.MemoryStore.State.{Store}
use cairnline.Service.Env.{Env}
use cairnline.Service.Normalize.{
  require_text, trimmed_or, stamp_or, suggested_tools_max_items, normalize_suggested_tools,
  valid_skill_status,
}

-- The warning about the tools that are left out.
abbrev pub capped : ℕ → String
capped omitted = join "" (
    "Suggested tools list was capped at "
    ∷ decimal suggested_tools_max_items
    ∷ " entries (+"
    ∷ decimal omitted
    ∷ " more omitted)."
    ∷ [])

unfoldable pub skill_warnings : ProjectSkill → ℕ → List String
unfolding compact_strings append_unique join decimal
skill_warnings input omitted =
    let warnings = compact_strings input.warnings in
    if omitted == 0 then warnings else append_unique warnings (capped omitted)

unfoldable pub list_project_skills : Store → String → Result (List ProjectSkill)
list_project_skills s project_id = do
  require_text (trim_space project_id) "project_id is required"
  Lists.list_project_skills s (trim_space project_id)

module _ (env : Env) where
  -- The skill that is stored, its format, status and tools being settled.
  unfoldable pub skill_of :
      String → String → String → List String × ℕ → Bool → ProjectSkill → ProjectSkill
  unfolding skill_warnings compact_strings
  skill_of id format status tools creating input =
      let created_at = stamp_or input.created_at env.now in
      let path = trim_space input.path in
      record {
        id = id;
        project_id = trim_space input.project_id;
        title = trimmed_or input.title id;
        description = trim_space input.description;
        path = if path == "" then "" else env.to_slash (env.clean path);
        root_id = trim_space input.root_id;
        format = format;
        suggested_tools = tools.0;
        required_permissions = input.required_permissions;
        enabled = if creating then true else input.enabled;
        status = status;
        trust_label = trimmed_or input.trust_label "workspace_skill";
        source_refs = compact_strings input.source_refs;
        warnings = skill_warnings input tools.1;
        discovered_at =
            if is_zero input.discovered_at
            then if path == "" then 0 else env.now
            else input.discovered_at;
        created_at = created_at;
        updated_at = if creating then stamp_or input.updated_at created_at else env.now;
      }

  unfoldable pub normalize_project_skill : ProjectSkill → Bool → Result ProjectSkill
  unfolding skill_of normalize_skill_id normalize_suggested_tools valid_skill_status
  normalize_project_skill input creating =
      let id = normalize_skill_id env.to_lower input.id in
      let format = trimmed_or input.format "skill_md" in
      let status = trimmed_or input.status "available" in
      do
        require_text (trim_space input.project_id) "project_id is required"
        require_text id "skill id is required"
        reject (not (format == "skill_md")) (invalid "unsupported skill format")
        reject (not (valid_skill_status status)) (invalid "unsupported skill status")
        ok (
            skill_of id format status (normalize_suggested_tools input.suggested_tools) creating
              input)

  unfoldable pub get_project_skill : Store → String → String → Result ProjectSkill
  unfolding normalize_skill_id
  get_project_skill s project_id id = do
    require_text (trim_space project_id) "project_id is required"
    require_text (normalize_skill_id env.to_lower id) "skill id is required"
    Skills.get_project_skill s (trim_space project_id) (normalize_skill_id env.to_lower id)

  unfoldable pub create_project_skill : Store → ProjectSkill → Result (ProjectSkill × Store)
  unfolding normalize_project_skill
  create_project_skill s input = do
    item ← normalize_project_skill input true
    _ ← Projects.get_project s item.project_id
    Skills.create_project_skill s item

  unfoldable pub update_project_skill : Store → ProjectSkill → Result (ProjectSkill × Store)
  unfolding normalize_project_skill
  update_project_skill s input = do
    item ← normalize_project_skill input false
    existing ← Skills.get_project_skill s item.project_id item.id
    Skills.update_project_skill s (record item {
      created_at = existing.created_at;
      discovered_at = stamp_or item.discovered_at existing.discovered_at;
    })

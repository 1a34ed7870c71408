-- ===== src/Reports/Health/Attention.antt =====
-- The attention items of internal/core/project_health.go.
use Prim.Native.String.{◌++◌}
use cairnline.Base.{
  ◌-◌, String, Bool, true, false, not, ◌||◌, List, [], ◌∷◌, Option, none, some, if◌then◌else◌, ◌==◌,
  string_eq, ltb, leb,
}
use cairnline.Base.Ids.{append_unique, append_each}
use cairnline.Base.Lists.{length, filter, map, any, take}
use cairnline.Base.Order.{compare_string}
use cairnline.Base.Sorting.{sort}
use cairnline.Base.Table
use cairnline.Base.Table.{Table}
use cairnline.Base.Text.{decimal}
use cairnline.Base.Texts.{join}
use cairnline.Base.Trim.{trim_space}
use cairnline.Model.Assignment.{Assignment}
use cairnline.Model.Project.{ProjectSkill}
use cairnline.Model.SkillId.{normalize_skill_id}
use cairnline.Model.Work.{Role}
use cairnline.Reports.Operations.Types.{OperationKind, kind_eq, ProjectOperationItem}
use cairnline.Reports.Health.Types.{ProjectHealthAttentionItem}

-- `healthItemID`
unfoldable pub health_item_id : List String → String
unfolding join filter map
health_item_id parts = join ":" (filter (λ s. not (s == "")) (map trim_space parts))

-- The action for an assignment item, by the text of its status.
unfoldable assignment_action : String → String × String
assignment_action status =
    if status == "queued"
    then ("claim_assignment", "Start assignment")
    else if status == "claimed" || status == "running" || status == "awaiting_review"
    then ("inspect_assignment", "Inspect assignment")
    else if status == "awaiting_approval"
    then ("inspect_assignment", "Resolve pending approval")
    else ("resolve_assignment", "Resolve assignment")

abbrev kind_action : OperationKind → String → String × String
kind_action OperationKind.assignment status = assignment_action status
kind_action OperationKind.missing_evidence status = ("record_evidence", "Record evidence")
kind_action OperationKind.review_follow_up status = ("create_handoff", "Create follow-up")
kind_action OperationKind.handoff status = ("resolve_handoff", "Resolve handoff")
kind_action OperationKind.memory_candidate status = ("review_memory_candidate", "Review memory")
kind_action OperationKind.closeout_ready status = ("closeout_work_item", "Close out work")
kind_action OperationKind.work_item status = ("create_assignment", "Create assignment")
kind_action OperationKind.project_setup status = ("inspect_project", "Inspect")
kind_action OperationKind.skill status = ("inspect_project", "Inspect")

-- `projectOperationHealthAction`
unfoldable operation_action : ProjectOperationItem → String × String
unfolding assignment_action
operation_action i =
    if not (i.action_kind == "")
    then (i.action_kind, i.action_label)
    else kind_action i.kind i.status

-- The text of a kind.
abbrev kind_text : OperationKind → String
kind_text OperationKind.assignment = "assignment"
kind_text OperationKind.missing_evidence = "missing_evidence"
kind_text OperationKind.review_follow_up = "review_follow_up"
kind_text OperationKind.handoff = "handoff"
kind_text OperationKind.memory_candidate = "memory_candidate"
kind_text OperationKind.closeout_ready = "closeout_ready"
kind_text OperationKind.work_item = "work_item"
kind_text OperationKind.project_setup = "project_setup"
kind_text OperationKind.skill = "skill"

-- `projectOperationHealthAttention`
unfoldable pub operation_attention : String → ProjectOperationItem → ProjectHealthAttentionItem
unfolding health_item_id operation_action
operation_attention project_id i =
    let is_handoff = i.kind == OperationKind.handoff in
    record {
      id = health_item_id (
          project_id
          ∷ kind_text i.kind
          ∷ i.work_item_id
          ∷ i.assignment_id
          ∷ i.artifact_id
          ∷ i.memory_candidate_id
          ∷ []);
      project_id = project_id;
      kind = i.kind;
      severity = i.severity;
      status = i.status;
      title = i.title;
      detail = i.detail;
      action_kind = (operation_action i).0;
      action_label = (operation_action i).1;
      work_item_id = i.work_item_id;
      assignment_id = i.assignment_id;
      artifact_id = if is_handoff then "" else i.artifact_id;
      handoff_id = if is_handoff then i.artifact_id else "";
      memory_candidate_id = i.memory_candidate_id;
      updated_at = i.updated_at;
    }

-- `summarizeIDs`
unfoldable summarize_ids : List String → String
unfolding append_each take join
summarize_ids ids =
    let unique = sort compare_string (append_each [] ids) in
    let shown = take 3 unique in
    if leb (length unique) 3
    then join ", " shown
    else join ", " shown ++ ", and " ++ decimal (length unique - 3) ++ " more"

-- `uniqueProjectHealthAttention`: blank ids are dropped, and of equal ids the first stays.
unfoldable pub unique_attention :
    List String → List ProjectHealthAttentionItem → List ProjectHealthAttentionItem
unfolding any
unique_attention seen [] = []
unique_attention seen (i ∷ rest) =
    let skipped = trim_space i.id == "" || any (λ id. id == i.id) seen in
    let more = unique_attention (if skipped then seen else i.id ∷ seen) rest in
    if skipped then more else i ∷ more

module _ (to_lower : String → String) where
  -- `skillsByID`: the last of two with one id stays.
  unfoldable index_skills :
      List ProjectSkill → Table String ProjectSkill → Table String ProjectSkill
  unfolding normalize_skill_id Table.put
  index_skills [] out = out
  index_skills (k ∷ rest) out =
      let id = normalize_skill_id to_lower k.id in
      index_skills rest (if id == "" then out else Table.put id k out)

  -- `addSkill`, which skips a blank id
  unfoldable add_skills : List String → List String → List String
  unfolding normalize_skill_id append_unique
  add_skills [] referenced = referenced
  add_skills (id ∷ rest) referenced =
      let normal = normalize_skill_id to_lower id in
      add_skills rest (if normal == "" then referenced else append_unique referenced normal)

  unfoldable add_role_skills : List Role → List String → List String
  unfolding add_skills
  add_role_skills [] referenced = referenced
  add_role_skills (r ∷ rest) referenced =
      add_role_skills rest (add_skills r.default_skill_ids referenced)

  unfoldable add_assignment_skills : List Assignment → List String → List String
  unfolding add_skills
  add_assignment_skills [] referenced = referenced
  add_assignment_skills (a ∷ rest) referenced =
      add_assignment_skills rest (add_skills a.desired_agent.skill_ids referenced)

  -- `referencedProjectHealthSkillIDs`
  unfoldable referenced_skill_ids : List Role → List Assignment → List String
  unfolding add_role_skills add_assignment_skills
  referenced_skill_ids roles assignments =
      sort compare_string (add_assignment_skills assignments (add_role_skills roles []))

  abbrev is_unknown : Option ProjectSkill → Bool
  is_unknown none = true
  is_unknown (some k) = false

  abbrev is_disabled : Option ProjectSkill → Bool
  is_disabled none = false
  is_disabled (some k) = not k.enabled

  abbrev is_unavailable : Option ProjectSkill → Bool
  is_unavailable none = false
  is_unavailable (some k) = not (k.status == "available")

  abbrev issue_if_any : String → List String → List String → List String
  issue_if_any label ids rest =
      if ltb 0 (length ids) then (label ++ summarize_ids ids) ∷ rest else rest

  -- `projectHealthSkillIssues`
  unfoldable pub skill_issues : List Role → List Assignment → List ProjectSkill → List String
  unfolding index_skills referenced_skill_ids summarize_ids filter Table.get Table.empty
  skill_issues roles assignments skills =
      let known = index_skills skills Table.empty in
      let referenced = referenced_skill_ids roles assignments in
      issue_if_any "unresolved: " (filter (λ id. is_unknown (Table.get id known)) referenced) (
        issue_if_any "disabled: " (filter (λ id. is_disabled (Table.get id known)) referenced) (
          issue_if_any "unavailable: "
            (filter (λ id. is_unavailable (Table.get id known)) referenced) []))

-- ===== src/Service/Normalize.antt =====
-- The helpers of internal/core/service.go that bring the fields of a request into their stored form.
use cairnline.Base.{
  ℕ, ◌-◌, String, Bool, true, not, ◌||◌, ◌&&◌, Result, ok, invalid, reject, ◌>>◌, List, [], ◌∷◌,
  if◌then◌else◌, ◌==◌, string_eq, nat_eq,
}
use cairnline.Base.Lists.{length, take, any}
use cairnline.Base.Order.{compare_string}
use cairnline.Base.Sorting.{sort}
use cairnline.Base.Table
use cairnline.Base.Text.{first_non_empty}
use cairnline.Base.Texts.{compact_strings}
use cairnline.Base.Trim.{trim_space}
use cairnline.Model.Assignment.{DesiredAgent, ExecutionRef}
use cairnline.Model.Clock.{Time, is_zero}
use cairnline.Model.Memory.{MemoryCandidateSourceRef}
use cairnline.Model.SkillId.{normalize_skill_id}

-- The prelude of most methods: `if field == "" { return errors.Join(ErrInvalid, ...) }`.
abbrev pub require_text : String → String → Result (Unit {0})
require_text text complaint = reject (text == "") (invalid complaint)

-- `if value == "" { value = standard }` after a trim
abbrev pub trimmed_or : String → String → String
trimmed_or value standard = first_non_empty (trim_space value) standard

-- `if t.IsZero() { t = standard }`
abbrev pub stamp_or : Time → Time → Time
stamp_or t standard = if is_zero t then standard else t

-- `importedTimestamps`; the clock that the callers hand it is never zero.
unfoldable pub imported_timestamps : Time → Time → Time → Time × Time
imported_timestamps created_at updated_at now =
    let created = stamp_or created_at now in (created, stamp_or updated_at created)

-- `normalizeStringSlice`
unfoldable pub normalize_string_slice : List String → List String
unfolding compact_strings sort compare_string
normalize_string_slice values = sort compare_string (compact_strings values)

-- `suggestedToolsMaxItems`
abbrev pub suggested_tools_max_items : ℕ
suggested_tools_max_items = 16

-- The tools that are kept, and how many are not.
unfoldable pub normalize_suggested_tools : List String → List String × ℕ
unfolding normalize_string_slice take
normalize_suggested_tools values =
    let tools = normalize_string_slice values in
    (take suggested_tools_max_items tools, length tools - suggested_tools_max_items)

-- The loop of `normalizeStringMap`, over the map's entries in the order in which Go visits them.
unfoldable write_entries : List (String × String) → List (String × String) → List (String × String)
unfolding Table.write
write_entries out [] = out
write_entries out ((key, value) ∷ rest) =
    let k = trim_space key in
    write_entries (if k == "" then out else Table.write k (trim_space value) out) rest

unfoldable pub normalize_string_map : List (String × String) → List (String × String)
unfolding write_entries
normalize_string_map values = write_entries [] values

-- `containsStringValue`
abbrev pub contains_string_value : List String → String → Bool
contains_string_value values want = any (λ value. value == want) values

unfoldable pub normalize_execution_mode : String → Bool → Result String
normalize_execution_mode value allow_empty =
    let mode = trim_space value in
    if mode == "" then ok (if allow_empty then "" else "mcp_pull") else (do
      reject
          (not (
            mode == "manual"
            || mode == "mcp_pull"
            || mode == "external_adapter"
            || mode == "orchestrated"))
          (invalid "unsupported execution_mode")
      ok mode)

-- A count of approvals below 0, which the code raises to 0, is 0 in the model.
unfoldable pub normalize_execution_ref : ExecutionRef → ExecutionRef
normalize_execution_ref r = record {
  kind = trim_space r.kind;
  task_id = trim_space r.task_id;
  run_id = trim_space r.run_id;
  session_id = trim_space r.session_id;
  trace_id = trim_space r.trace_id;
  pending_approvals = r.pending_approvals;
}

unfoldable pub normalize_desired_agent : DesiredAgent → DesiredAgent
unfolding compact_strings
normalize_desired_agent a = record {
  kind = trimmed_or a.kind "any";
  skill_ids = compact_strings a.skill_ids;
}

-- `validSkillStatus`
unfoldable pub valid_skill_status : String → Bool
valid_skill_status status =
    status == "available" || status == "missing" || status == "invalid" || status == "conflict"

unfoldable pub normalize_review_verdict : String → Result String
normalize_review_verdict value =
    let verdict = trim_space value in
    do
      require_text verdict "review verdict is required"
      reject
          (not (
            verdict == "approved"
            || verdict == "changes_requested"
            || verdict == "blocked"
            || verdict == "risk"))
          (invalid "unsupported review verdict")
      ok verdict

unfoldable pub normalize_review_risk : String → Result String
normalize_review_risk value =
    let risk = trim_space value in
    do
      reject
          (not (
            risk == "" || risk == "low" || risk == "medium" || risk == "high" || risk == "unknown"))
          (invalid "unsupported review risk")
      ok risk

unfoldable pub normalize_memory_candidate_source_refs :
    List MemoryCandidateSourceRef → List MemoryCandidateSourceRef
normalize_memory_candidate_source_refs [] = []
normalize_memory_candidate_source_refs (r ∷ rest) =
    let more = normalize_memory_candidate_source_refs rest in
    let kind = trim_space r.kind in
    let id = trim_space r.id in
    if kind == "" || id == ""
    then more
    else record { kind = kind; id = id; title = trim_space r.title; url = trim_space r.url } ∷ more

unfoldable pub assignment_agent_kind_matches : String → String → Bool
assignment_agent_kind_matches desired_kind agent_kind =
    let desired = trim_space desired_kind in
    let agent = trim_space agent_kind in
    if desired == "" || desired == "any" || agent == "" || agent == "any"
    then true
    else desired == agent

-- Every id, made a skill id, is among the available ones.
unfoldable pub skills_match : (String → String) → List String → List String → Bool
skills_match to_lower [] available = true
skills_match to_lower (id ∷ rest) available =
    let skill = normalize_skill_id to_lower id in
    not (skill == "")
    && contains_string_value available skill
    && skills_match to_lower rest available

unfoldable pub assignment_skills_match : (String → String) → List String → List String → Bool
unfolding compact_strings skills_match
assignment_skills_match to_lower required available =
    skills_match to_lower (compact_strings required) available

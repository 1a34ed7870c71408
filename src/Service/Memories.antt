-- ===== src/Service/Memories.antt =====
-- Project memory in internal/core/service.go: entries, candidates, and what becomes of a candidate.
use cairnline.Base.{
  String, Bool, true, false, not, Result, conflict, invalid, reject, guard, List, Option,
  if◌then◌else◌, ◌==◌, ◌||◌, ◌&&◌, string_eq, nat_eq, ◌>>◌, ◌>>=◌,
}
use cairnline.Base.Text.{first_non_empty}
use cairnline.Base.Trim.{trim_space}
use cairnline.Model.Clock.{Time}
use cairnline.Model.Memory.{
  CandidateStatus, pending, promoted, rejected, other, trimmed_status, status_eq, MemoryEntry,
  MemoryCandidate, MemoryCandidateFilter,
}
use cairnline.Model.Patch.{or_keep}
use cairnline.MemoryStore.Lists
use cairnline.MemoryStore.Memory
use cairnline.MemoryStore.State.{Store}
use cairnline.Service.Env.{Env}
use cairnline.Service.Normalize.{
  require_text, trimmed_or, stamp_or, imported_timestamps, normalize_memory_candidate_source_refs,
}

-- A nil pointer is `none`: the candidate's own value is taken.
pub record MemoryCandidatePromotion : Type 0 where
  pub project_id : String
  pub candidate_id : String
  pub title : Option String
  pub body : Option String
  pub trust_label : Option String
  pub source_kind : Option String
  pub source_id : Option String
  pub enabled : Option Bool

abbrev pub require_named : String → String → String → Result (Unit {0})
require_named project_id id complaint = do
  require_text (trim_space project_id) "project_id is required"
  require_text (trim_space id) complaint

abbrev pub require_content : String → String → String → String → Result (Unit {0})
require_content title body no_title no_body = do
  require_text (trim_space title) no_title
  require_text (trim_space body) no_body

unfoldable pub list_memory_entries : Store → String → Bool → Result (List MemoryEntry)
list_memory_entries s project_id include_disabled = do
  require_text (trim_space project_id) "project_id is required"
  Lists.list_memory_entries s (trim_space project_id) include_disabled

unfoldable pub get_memory_entry : Store → String → String → Result MemoryEntry
get_memory_entry s project_id id = do
  require_named project_id id "memory_id is required"
  Memory.get_memory_entry s (trim_space project_id) (trim_space id)

-- The entry that a request stores.
unfoldable pub entry_of : String → Bool → Time → Time → MemoryEntry → MemoryEntry
entry_of id enabled created_at updated_at input = record {
  id = id;
  project_id = trim_space input.project_id;
  title = trim_space input.title;
  body = trim_space input.body;
  trust_label = trimmed_or input.trust_label "operator_memory";
  source_kind = trim_space input.source_kind;
  source_id = trim_space input.source_id;
  enabled = enabled;
  created_at = created_at;
  updated_at = updated_at;
}

unfoldable pub delete_memory_entry : Store → String → String → Result Store
delete_memory_entry s project_id id = do
  require_named project_id id "memory_id is required"
  Memory.delete_memory_entry s (trim_space project_id) (trim_space id)

-- `isMemoryCandidateStatus`, of a text and of a status
abbrev pub is_candidate_status : String → Bool
is_candidate_status status = status == "pending" || status == "promoted" || status == "rejected"

abbrev pub is_memory_candidate_status : CandidateStatus → Bool
is_memory_candidate_status (other s) = false
is_memory_candidate_status _ = true

-- `if status == "" { status = MemoryCandidatePending }` after a trim
abbrev pub pending_or : CandidateStatus → CandidateStatus
pending_or status =
    let trimmed = trimmed_status status in if trimmed == other "" then pending else trimmed

unfoldable pub list_memory_candidates :
    Store → MemoryCandidateFilter → Result (List MemoryCandidate)
list_memory_candidates s f =
    let status = trim_space f.status in
    do
      require_text (trim_space f.project_id) "project_id is required"
      reject (not (status == "") && not (is_candidate_status status))
          (invalid "memory candidate status is invalid")
      Lists.list_memory_candidates s
          (record f { project_id = trim_space f.project_id; status = status })

unfoldable pub get_memory_candidate : Store → String → String → Result MemoryCandidate
get_memory_candidate s project_id id = do
  require_named project_id id "memory_candidate_id is required"
  Memory.get_memory_candidate s (trim_space project_id) (trim_space id)

unfoldable pub delete_memory_candidate : Store → String → String → Result Store
delete_memory_candidate s project_id id = do
  require_named project_id id "memory_candidate_id is required"
  Memory.delete_memory_candidate s (trim_space project_id) (trim_space id)

-- The candidate that a request stores under a status.
unfoldable pub candidate_of :
    String → CandidateStatus → Time → Time → MemoryCandidate → MemoryCandidate
unfolding normalize_memory_candidate_source_refs
candidate_of id status created_at updated_at input = record {
  id = id;
  project_id = trim_space input.project_id;
  title = trim_space input.title;
  body = trim_space input.body;
  suggested_kind = trim_space input.suggested_kind;
  suggested_trust_label = trimmed_or input.suggested_trust_label "generated_summary";
  suggested_source_kind = trimmed_or input.suggested_source_kind "generated";
  suggested_source_id = trim_space input.suggested_source_id;
  source_refs = normalize_memory_candidate_source_refs input.source_refs;
  status = status;
  status_reason = if status == pending then "" else trim_space input.status_reason;
  promoted_memory_id = if status == promoted then trim_space input.promoted_memory_id else "";
  created_at = created_at;
  updated_at = updated_at;
}

module _ (env : Env) where
  unfoldable pub create_memory_entry : Store → MemoryEntry → Result (MemoryEntry × Store)
  unfolding imported_timestamps entry_of
  create_memory_entry s input =
      let stamps = imported_timestamps input.created_at input.updated_at env.now in
      let id = first_non_empty (trim_space input.id) (env.new_id "mem" 0) in
      do
        require_text (trim_space input.project_id) "project_id is required"
        require_content input.title input.body "memory title is required" "memory body is required"
        Memory.create_memory_entry s (entry_of id true stamps.0 stamps.1 input)

  unfoldable pub update_memory_entry : Store → MemoryEntry → Result (MemoryEntry × Store)
  unfolding entry_of
  update_memory_entry s input = do
    require_named input.project_id input.id "memory_id is required"
    require_content input.title input.body "memory title is required" "memory body is required"
    existing ← Memory.get_memory_entry s (trim_space input.project_id) (trim_space input.id)
    Memory.update_memory_entry s (
        entry_of (trim_space input.id) input.enabled existing.created_at
          (stamp_or input.updated_at env.now) input)

  unfoldable pub create_memory_candidate :
      Store → MemoryCandidate → Result (MemoryCandidate × Store)
  unfolding imported_timestamps candidate_of
  create_memory_candidate s input =
      let stamps = imported_timestamps input.created_at input.updated_at env.now in
      let id = first_non_empty (trim_space input.id) (env.new_id "memcand" 0) in
      do
        require_text (trim_space input.project_id) "project_id is required"
        require_content input.title input.body "memory candidate title is required"
            "memory candidate body is required"
        Memory.create_memory_candidate s (candidate_of id pending stamps.0 stamps.1 input)

  unfoldable pub update_memory_candidate :
      Store → MemoryCandidate → Result (MemoryCandidate × Store)
  unfolding candidate_of trimmed_status
  update_memory_candidate s input =
      let status = pending_or input.status in
      do
        require_named input.project_id input.id "memory_candidate_id is required"
        require_content input.title input.body "memory candidate title is required"
            "memory candidate body is required"
        guard (is_memory_candidate_status status) (invalid "memory candidate status is invalid")
        existing ← Memory.get_memory_candidate s (trim_space input.project_id) (trim_space input.id)
        Memory.update_memory_candidate s (
            candidate_of (trim_space input.id) status existing.created_at
              (stamp_or input.updated_at env.now) input)

  -- The entry that a promotion writes, from the request and the candidate.
  unfoldable pub promoted_entry : MemoryCandidatePromotion → MemoryCandidate → MemoryEntry
  promoted_entry input candidate = record {
    id = env.new_id "mem" 0;
    project_id = trim_space input.project_id;
    title = trim_space (or_keep input.title candidate.title);
    body = trim_space (or_keep input.body candidate.body);
    trust_label =
        trimmed_or
          (or_keep input.trust_label
            (first_non_empty candidate.suggested_trust_label "generated_summary"))
          "generated_summary";
    source_kind =
        trimmed_or
          (or_keep input.source_kind (first_non_empty candidate.suggested_source_kind "generated"))
          "generated";
    source_id = trim_space (or_keep input.source_id candidate.suggested_source_id);
    enabled = or_keep input.enabled true;
    created_at = env.now;
    updated_at = env.now;
  }

  unfoldable pub promote_memory_candidate :
      Store → MemoryCandidatePromotion → Result (MemoryCandidate × MemoryEntry × Store)
  unfolding promoted_entry
  promote_memory_candidate s input = do
    require_named input.project_id input.candidate_id "memory_candidate_id is required"
    candidate ←
        Memory.get_memory_candidate s (trim_space input.project_id) (trim_space input.candidate_id)
    let entry = promoted_entry input candidate
    require_text entry.title "memory title is required"
    require_text entry.body "memory body is required"
    Memory.promote_memory_candidate s (trim_space input.project_id) (trim_space input.candidate_id)
        entry

  unfoldable pub reject_memory_candidate :
      Store → String → String → String → Result (MemoryCandidate × Store)
  reject_memory_candidate s project_id id reason = do
    require_named project_id id "memory_candidate_id is required"
    candidate ← Memory.get_memory_candidate s (trim_space project_id) (trim_space id)
    reject (not (candidate.status == pending)) conflict
    Memory.update_memory_candidate s (record candidate {
      status = rejected;
      status_reason = trim_space reason;
      promoted_memory_id = "";
      updated_at = env.now;
    })

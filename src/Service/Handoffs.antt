-- ===== src/Service/Handoffs.antt =====
-- Handoffs in internal/core/service.go.
use Prim.Native.String.{[] as end, ◌∷◌ as with_rune}
use cairnline.Base.{
  ℕ, suc, String, not, Result, invalid, reject, List, some, if◌then◌else◌, ◌==◌, ◌||◌, ltb,
  string_eq, nat_eq, ◌>>◌, ◌>>=◌,
}
use cairnline.Base.Text.{first_non_empty}
use cairnline.Base.Texts.{compact_strings}
use cairnline.Base.Trim.{trim_space}
use cairnline.Model.Clock.{Time, is_zero}
use cairnline.Model.Handoff.{
  HandoffStatus, opened, other, trimmed_status, status_eq, Handoff, HandoffUpdate, HandoffDelete,
  AcceptHandoffWithFollowUpCommand, HandoffFollowUpResult,
}
use cairnline.MemoryStore.Accept
use cairnline.MemoryStore.Accept.{RequestPayload}
use cairnline.MemoryStore.Handoffs
use cairnline.MemoryStore.Lists
use cairnline.MemoryStore.State.{Store}
use cairnline.Service.Env.{Env}
use cairnline.Service.HandoffEdits.{
  require_handoff_status, normalize_handoff_update, empty_patch, full_patch,
}
use cairnline.Service.Normalize.{require_text, stamp_or, imported_timestamps}
use cairnline.Service.Records.{require_place}

-- `if status == "" { status = HandoffStatusOpen }` after a trim
abbrev pub opened_or : HandoffStatus → HandoffStatus
opened_or status =
    let trimmed = trimmed_status status in if trimmed == other "" then opened else trimmed

unfoldable pub list_handoffs : Store → String → String → Result (List Handoff)
list_handoffs s project_id work_item_id = do
  require_place project_id work_item_id
  Lists.list_handoffs s (trim_space project_id) (trim_space work_item_id)

unfoldable pub get_handoff : Store → String → String → String → Result Handoff
get_handoff s project_id work_item_id id = do
  require_place project_id work_item_id
  require_text (trim_space id) "handoff_id is required"
  Handoffs.get_handoff s (trim_space project_id) (trim_space work_item_id) (trim_space id)

-- The handoff that `CreateHandoff` stores.
unfoldable pub handoff_of : Env → Handoff → Handoff
unfolding trimmed_status imported_timestamps compact_strings
handoff_of env input =
    let stamps = imported_timestamps input.created_at input.updated_at env.now in
    record {
      id = first_non_empty (trim_space input.id) (env.new_id "handoff" 0);
      project_id = trim_space input.project_id;
      work_item_id = trim_space input.work_item_id;
      source_assignment_id = trim_space input.source_assignment_id;
      source_run_id = trim_space input.source_run_id;
      source_chat_session_id = trim_space input.source_chat_session_id;
      source_message_id = trim_space input.source_message_id;
      from_role_id = trim_space input.from_role_id;
      to_role_id = trim_space input.to_role_id;
      target_assignment_id = trim_space input.target_assignment_id;
      target_work_item_id = trim_space input.target_work_item_id;
      title = trim_space input.title;
      body = trim_space input.body;
      recommended_next_action = trim_space input.recommended_next_action;
      linked_artifact_ids = compact_strings input.linked_artifact_ids;
      linked_memory_ids = compact_strings input.linked_memory_ids;
      context_refs = compact_strings input.context_refs;
      status = opened_or input.status;
      provenance_kind = trim_space input.provenance_kind;
      trust_label = trim_space input.trust_label;
      created_at = stamps.0;
      updated_at = stamps.1;
      status_changed_at = stamp_or input.status_changed_at stamps.0;
    }

unfoldable pub create_handoff : Env → Store → Handoff → Result (Handoff × Store)
unfolding handoff_of trimmed_status
create_handoff env s input = do
  require_place input.project_id input.work_item_id
  require_text (trim_space input.title) "handoff title is required"
  require_text (trim_space input.body) "handoff body is required"
  require_handoff_status (opened_or input.status)
  Handoffs.create_handoff s (handoff_of env input)

module _ (env : Env) where
  unfoldable pub patch_handoff :
      Store → String → String → String → HandoffUpdate → Result (Handoff × Store)
  unfolding normalize_handoff_update
  patch_handoff s project_id work_item_id id update = do
    require_place project_id work_item_id
    require_text (trim_space id) "handoff_id is required"
    normalized ← normalize_handoff_update update
    Handoffs.update_handoff s (trim_space project_id) (trim_space work_item_id) (trim_space id)
        normalized env.now

  unfoldable pub update_handoff : Store → Handoff → Result (Handoff × Store)
  unfolding patch_handoff full_patch
  update_handoff s input =
      patch_handoff s input.project_id input.work_item_id input.id
        (record { expected_updated_at = input.updated_at; patch = full_patch input })

  -- The two fields of the update are arguments.
  unfoldable pub update_handoff_status :
      Store → String → String → String → Time → HandoffStatus → Result (Handoff × Store)
  unfolding patch_handoff trimmed_status
  update_handoff_status s project_id work_item_id id expected_updated_at status = do
    require_handoff_status (trimmed_status status)
    patch_handoff s project_id work_item_id id (record {
      expected_updated_at = expected_updated_at;
      patch = record empty_patch { status = some (trimmed_status status) };
    })

unfoldable pub delete_handoff : Store → String → String → String → HandoffDelete → Result Store
delete_handoff s project_id work_item_id id deletion = do
  require_place project_id work_item_id
  require_text (trim_space id) "handoff_id is required"
  reject (is_zero deletion.expected_updated_at) (invalid "expected_updated_at is required")
  Handoffs.delete_handoff s (trim_space project_id) (trim_space work_item_id) (trim_space id)
      deletion

-- `utf8.RuneCountInString`; every text of the model is valid.
unfoldable pub rune_count : String → ℕ
rune_count end = 0
rune_count (with_rune c s) = suc (rune_count s)

-- The command with its texts trimmed.
unfoldable pub trimmed_command : AcceptHandoffWithFollowUpCommand → AcceptHandoffWithFollowUpCommand
trimmed_command c = record {
  project_id = trim_space c.project_id;
  work_item_id = trim_space c.work_item_id;
  handoff_id = trim_space c.handoff_id;
  expected_updated_at = c.expected_updated_at;
  idempotency_key = trim_space c.idempotency_key;
  intent = trim_space c.intent;
}

module _ (fingerprint : RequestPayload → String) where
  unfoldable pub accept_handoff_with_follow_up :
      Env → Store → AcceptHandoffWithFollowUpCommand → Result (HandoffFollowUpResult × Store)
  unfolding trimmed_command rune_count
  accept_handoff_with_follow_up env s input =
      let c = trimmed_command input in
      do
        require_text c.project_id "project_id is required"
        require_text c.work_item_id "work_item_id is required"
        require_text c.handoff_id "handoff_id is required"
        reject (is_zero c.expected_updated_at) (invalid "expected_updated_at is required")
        reject (c.idempotency_key == "" || ltb 128 (rune_count c.idempotency_key))
            (invalid "idempotency_key must be between 1 and 128 Unicode characters")
        reject (not (c.intent == "accept_and_ensure_follow_up"))
            (invalid "unsupported handoff follow-up intent")
        Accept.accept_handoff_with_follow_up fingerprint s c (env.new_id "asgn" 0) env.stamp env.now

-- ===== src/Service/HandoffEdits.antt =====
-- The edits of handoffs in internal/core/service.go: `normalizeHandoffUpdate` and the patches it is given.
use cairnline.Base.{
  String, Bool, true, false, Result, ok, invalid, reject, guard, Option, none, some, string_eq,
  nat_eq, ◌>>◌,
}
use mathlib.Core.Option
use cairnline.Base.Texts.{compact_strings}
use cairnline.Base.Trim.{trim_space}
use cairnline.Model.Clock.{is_zero}
use cairnline.Model.Handoff.{
  HandoffStatus, other, trimmed_status, status_eq, Handoff, HandoffPatch, HandoffUpdate,
}
use cairnline.Service.Normalize.{require_text}

-- `isHandoffStatus` of a trimmed status
abbrev pub is_handoff_status : HandoffStatus → Bool
is_handoff_status (other s) = false
is_handoff_status _ = true

abbrev pub require_handoff_status : HandoffStatus → Result (Unit {0})
require_handoff_status status =
    guard (is_handoff_status status) (invalid "handoff status is invalid")

-- A field of a patch that is given must not be "".
abbrev pub require_given : Option String → String → Result (Unit {0})
require_given none complaint = ok tt
require_given (some text) complaint = require_text text complaint

abbrev pub require_given_status : Option HandoffStatus → Result (Unit {0})
require_given_status none = ok tt
require_given_status (some status) = require_handoff_status status

-- The given fields of a patch, trimmed, their lists without blanks and repetitions.
unfoldable pub trimmed_patch : HandoffPatch → HandoffPatch
unfolding trimmed_status compact_strings
trimmed_patch p = record {
  source_assignment_id = Option.map trim_space p.source_assignment_id;
  source_run_id = Option.map trim_space p.source_run_id;
  source_chat_session_id = Option.map trim_space p.source_chat_session_id;
  source_message_id = Option.map trim_space p.source_message_id;
  from_role_id = Option.map trim_space p.from_role_id;
  to_role_id = Option.map trim_space p.to_role_id;
  target_assignment_id = Option.map trim_space p.target_assignment_id;
  target_work_item_id = Option.map trim_space p.target_work_item_id;
  title = Option.map trim_space p.title;
  body = Option.map trim_space p.body;
  recommended_next_action = Option.map trim_space p.recommended_next_action;
  linked_artifact_ids = Option.map compact_strings p.linked_artifact_ids;
  linked_memory_ids = Option.map compact_strings p.linked_memory_ids;
  context_refs = Option.map compact_strings p.context_refs;
  status = Option.map trimmed_status p.status;
  provenance_kind = Option.map trim_space p.provenance_kind;
  trust_label = Option.map trim_space p.trust_label;
}

unfoldable pub normalize_handoff_update : HandoffUpdate → Result HandoffUpdate
unfolding trimmed_patch
normalize_handoff_update update =
    let patch = trimmed_patch update.patch in
    do
      reject (is_zero update.expected_updated_at) (invalid "expected_updated_at is required")
      require_given patch.title "handoff title is required"
      require_given patch.body "handoff body is required"
      require_given_status patch.status
      ok (record update { patch = patch })

-- `HandoffPatch{}`
abbrev pub empty_patch : HandoffPatch
empty_patch = record {
  source_assignment_id = none;
  source_run_id = none;
  source_chat_session_id = none;
  source_message_id = none;
  from_role_id = none;
  to_role_id = none;
  target_assignment_id = none;
  target_work_item_id = none;
  title = none;
  body = none;
  recommended_next_action = none;
  linked_artifact_ids = none;
  linked_memory_ids = none;
  context_refs = none;
  status = none;
  provenance_kind = none;
  trust_label = none;
}

-- The patch of `UpdateHandoff`: every field is given.
unfoldable pub full_patch : Handoff → HandoffPatch
full_patch h = record {
  source_assignment_id = some h.source_assignment_id;
  source_run_id = some h.source_run_id;
  source_chat_session_id = some h.source_chat_session_id;
  source_message_id = some h.source_message_id;
  from_role_id = some h.from_role_id;
  to_role_id = some h.to_role_id;
  target_assignment_id = some h.target_assignment_id;
  target_work_item_id = some h.target_work_item_id;
  title = some h.title;
  body = some h.body;
  recommended_next_action = some h.recommended_next_action;
  linked_artifact_ids = some h.linked_artifact_ids;
  linked_memory_ids = some h.linked_memory_ids;
  context_refs = some h.context_refs;
  status = some h.status;
  provenance_kind = some h.provenance_kind;
  trust_label = some h.trust_label;
}

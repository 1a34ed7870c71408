-- ===== src/Model/Patch.antt =====
-- `HandoffPatch.Apply` and `Handoff.SameContent`.
use cairnline.Base.{Bool, ◌&&◌, Option, none, some, ◌==◌, string_eq, list_beq}
use cairnline.Model.Handoff.{Handoff, HandoffPatch, status_eq}

-- `if patch.F != nil { current.F = *patch.F }`
abbrev pub or_keep {ℓ} : {A : Type ℓ} → Option A → A → A
or_keep none kept = kept
or_keep (some given) kept = given

unfoldable pub apply_patch : HandoffPatch → Handoff → Handoff
apply_patch p h = record h {
  source_assignment_id = or_keep p.source_assignment_id h.source_assignment_id;
  source_run_id = or_keep p.source_run_id h.source_run_id;
  source_chat_session_id = or_keep p.source_chat_session_id h.source_chat_session_id;
  source_message_id = or_keep p.source_message_id h.source_message_id;
  from_role_id = or_keep p.from_role_id h.from_role_id;
  to_role_id = or_keep p.to_role_id h.to_role_id;
  target_assignment_id = or_keep p.target_assignment_id h.target_assignment_id;
  target_work_item_id = or_keep p.target_work_item_id h.target_work_item_id;
  title = or_keep p.title h.title;
  body = or_keep p.body h.body;
  recommended_next_action = or_keep p.recommended_next_action h.recommended_next_action;
  linked_artifact_ids = or_keep p.linked_artifact_ids h.linked_artifact_ids;
  linked_memory_ids = or_keep p.linked_memory_ids h.linked_memory_ids;
  context_refs = or_keep p.context_refs h.context_refs;
  status = or_keep p.status h.status;
  provenance_kind = or_keep p.provenance_kind h.provenance_kind;
  trust_label = or_keep p.trust_label h.trust_label;
}

unfoldable pub same_content : Handoff → Handoff → Bool
same_content h o =
    h.id == o.id
    && h.project_id == o.project_id
    && h.work_item_id == o.work_item_id
    && h.source_assignment_id == o.source_assignment_id
    && h.source_run_id == o.source_run_id
    && h.source_chat_session_id == o.source_chat_session_id
    && h.source_message_id == o.source_message_id
    && h.from_role_id == o.from_role_id
    && h.to_role_id == o.to_role_id
    && h.target_assignment_id == o.target_assignment_id
    && h.target_work_item_id == o.target_work_item_id
    && h.title == o.title
    && h.body == o.body
    && h.recommended_next_action == o.recommended_next_action
    && list_beq h.linked_artifact_ids o.linked_artifact_ids
    && list_beq h.linked_memory_ids o.linked_memory_ids
    && list_beq h.context_refs o.context_refs
    && h.status == o.status
    && h.provenance_kind == o.provenance_kind
    && h.trust_label == o.trust_label

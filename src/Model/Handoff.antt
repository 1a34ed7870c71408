-- ===== src/Model/Handoff.antt =====
-- Handoffs, the patches that edit them, and the command that accepts one with a follow-up.
use cairnline.Base.Trim.{trim_space}
use cairnline.Base.{
  String, Bool, true, false, List, Option, ◌≡◌, ◌↔◌, arith, Eq, ◌==◌, string_eq, eq_iff,
  if◌then◌else◌,
}
use cairnline.Model.Clock.{Time}
use cairnline.Model.Assignment.{Assignment}

-- A status is a text in Go; `other` stands for any text but the four constants, of which "open"
-- is `opened` here.
pub data HandoffStatus : Type 0 where
  opened accepted superseded dismissed : HandoffStatus
  other : String → HandoffStatus

abbrev pub status_beq : HandoffStatus → HandoffStatus → Bool
status_beq opened opened = true
status_beq accepted accepted = true
status_beq superseded superseded = true
status_beq dismissed dismissed = true
status_beq (other s) (other t) = s == t
status_beq _ _ = false

abbrev pub status_of : String → HandoffStatus
status_of s =
    if s == "open"
    then opened
    else if s == "accepted"
    then accepted
    else if s == "superseded"
    then superseded
    else if s == "dismissed"
    then dismissed
    else other s

-- `strings.TrimSpace(status)`: a constant stays, and any other text may turn out to be one.
unfoldable pub trimmed_status : HandoffStatus → HandoffStatus
trimmed_status (other s) = status_of (trim_space s)
trimmed_status opened = opened
trimmed_status s = s

pub status_beq_iff : (a b : HandoffStatus) → (status_beq a b ≡ true) ↔ (a ≡ b)
status_beq_iff opened opened = ground arith
status_beq_iff (other s) (other t) = ground (arith, eq_iff s t)
status_beq_iff a b = ground arith

instance abbrev pub status_eq : Eq HandoffStatus
status_eq = record { beq = status_beq; beq_iff = status_beq_iff }

pub record Handoff : Type 0 where
  pub id : String
  pub project_id : String
  pub work_item_id : String
  pub source_assignment_id : String
  pub source_run_id : String
  pub source_chat_session_id : String
  pub source_message_id : String
  pub from_role_id : String
  pub to_role_id : String
  pub target_assignment_id : String
  pub target_work_item_id : String
  pub title : String
  pub body : String
  pub recommended_next_action : String
  pub linked_artifact_ids : List String
  pub linked_memory_ids : List String
  pub context_refs : List String
  pub status : HandoffStatus
  pub provenance_kind : String
  pub trust_label : String
  pub created_at : Time
  pub updated_at : Time
  pub status_changed_at : Time

-- A nil pointer is `none`: the field is kept.
pub record HandoffPatch : Type 0 where
  pub source_assignment_id : Option String
  pub source_run_id : Option String
  pub source_chat_session_id : Option String
  pub source_message_id : Option String
  pub from_role_id : Option String
  pub to_role_id : Option String
  pub target_assignment_id : Option String
  pub target_work_item_id : Option String
  pub title : Option String
  pub body : Option String
  pub recommended_next_action : Option String
  pub linked_artifact_ids : Option (List String)
  pub linked_memory_ids : Option (List String)
  pub context_refs : Option (List String)
  pub status : Option HandoffStatus
  pub provenance_kind : Option String
  pub trust_label : Option String

pub record HandoffUpdate : Type 0 where
  pub expected_updated_at : Time
  pub patch : HandoffPatch

pub record HandoffDelete : Type 0 where
  pub expected_updated_at : Time

pub record AcceptHandoffWithFollowUpCommand : Type 0 where
  pub project_id : String
  pub work_item_id : String
  pub handoff_id : String
  pub expected_updated_at : Time
  pub idempotency_key : String
  pub intent : String

pub data FollowUpOutcome : Type 0 where
  created linked_existing already_satisfied : FollowUpOutcome

pub record HandoffFollowUpResult : Type 0 where
  pub handoff : Handoff
  pub assignment : Assignment
  pub outcome : FollowUpOutcome
  pub replayed : Bool

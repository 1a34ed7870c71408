-- ===== src/Model/Assignment.antt =====
-- Assignments: a unit of work for one role, its claim and its lifecycle stamps.
use cairnline.Base.Trim.{trim_space}
use cairnline.Base.{
  ℕ, String, Bool, true, false, ◌&&◌, List, Option, ◌≡◌, ◌↔◌, arith, if◌then◌else◌, Eq, ◌==◌,
  nat_eq, string_eq, eq_iff,
}
use cairnline.Model.Clock.{Time}

-- A status is a text in Go; `other` stands for any text but the eight constants.
pub data AssignmentStatus : Type 0 where
  queued claimed running awaiting_approval awaiting_review : AssignmentStatus
  completed failed cancelled : AssignmentStatus
  other : String → AssignmentStatus

abbrev pub status_beq : AssignmentStatus → AssignmentStatus → Bool
status_beq queued queued = true
status_beq claimed claimed = true
status_beq running running = true
status_beq awaiting_approval awaiting_approval = true
status_beq awaiting_review awaiting_review = true
status_beq completed completed = true
status_beq failed failed = true
status_beq cancelled cancelled = true
status_beq (other s) (other t) = s == t
status_beq _ _ = false

-- The text that stands in the store.
abbrev pub status_text : AssignmentStatus → String
status_text queued = "queued"
status_text claimed = "claimed"
status_text running = "running"
status_text awaiting_approval = "awaiting_approval"
status_text awaiting_review = "awaiting_review"
status_text completed = "completed"
status_text failed = "failed"
status_text cancelled = "cancelled"
status_text (other s) = s

abbrev pub status_of : String → AssignmentStatus
status_of s =
    if s == "queued"
    then queued
    else if s == "claimed"
    then claimed
    else if s == "running"
    then running
    else if s == "awaiting_approval"
    then awaiting_approval
    else if s == "awaiting_review"
    then awaiting_review
    else if s == "completed"
    then completed
    else if s == "failed"
    then failed
    else if s == "cancelled"
    then cancelled
    else other s

-- `strings.TrimSpace(status)`: a constant stays, and any other text may turn out to be one.
unfoldable pub trimmed_status : AssignmentStatus → AssignmentStatus
trimmed_status (other s) = status_of (trim_space s)
trimmed_status queued = queued
trimmed_status s = s

pub status_beq_iff : (a b : AssignmentStatus) → (status_beq a b ≡ true) ↔ (a ≡ b)
status_beq_iff queued queued = ground arith
status_beq_iff (other s) (other t) = ground (arith, eq_iff s t)
status_beq_iff a b = ground arith

instance abbrev pub status_eq : Eq AssignmentStatus
status_eq = record { beq = status_beq; beq_iff = status_beq_iff }

pub record DesiredAgent : Type 0 where
  pub kind : String
  pub skill_ids : List String

pub record ExecutionRef : Type 0 where
  pub kind : String
  pub task_id : String
  pub run_id : String
  pub session_id : String
  pub trace_id : String
  pub pending_approvals : ℕ

-- `ExecutionRef{}`
abbrev pub no_execution : ExecutionRef
no_execution = record {
  kind = "";
  task_id = "";
  run_id = "";
  session_id = "";
  trace_id = "";
  pending_approvals = 0;
}

-- `ref.Empty()`
unfoldable pub is_empty : ExecutionRef → Bool
is_empty r =
    r.kind == ""
    && r.task_id == ""
    && r.run_id == ""
    && r.session_id == ""
    && r.trace_id == ""
    && r.pending_approvals == 0

pub record AssignmentClaimLease : Type 0 where
  pub id : String
  pub acquired_at : Time
  pub expires_at : Time

pub record Assignment : Type 0 where
  pub id : String
  pub project_id : String
  pub work_item_id : String
  pub role_id : String
  pub root_id : String
  pub execution_mode : String
  pub status : AssignmentStatus
  pub desired_agent : DesiredAgent
  pub claimed_by : String
  pub claim : Option AssignmentClaimLease
  pub execution_ref : ExecutionRef
  pub context_snapshot_id : String
  pub created_at : Time
  pub updated_at : Time
  pub started_at : Time
  pub completed_at : Time

pub record AssignmentCoordination : Type 0 where
  pub work_item_id : String
  pub role_id : String
  pub root_id : String
  pub execution_mode : String
  pub desired_agent : DesiredAgent

pub record QueuedAssignmentUpdate : Type 0 where
  pub expected : AssignmentCoordination
  pub expected_updated_at : Time
  pub replacement : AssignmentCoordination

pub record AssignmentPreparation : Type 0 where
  pub claim_id : String
  pub claimed_by : String
  pub execution_ref : ExecutionRef
  pub context_snapshot_id : String

-- `assignment.Coordination()`
unfoldable pub coordination : Assignment → AssignmentCoordination
coordination a = record {
  work_item_id = a.work_item_id;
  role_id = a.role_id;
  root_id = a.root_id;
  execution_mode = a.execution_mode;
  desired_agent = a.desired_agent;
}

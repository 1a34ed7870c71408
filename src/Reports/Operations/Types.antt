-- ===== src/Reports/Operations/Types.antt =====
-- The operations brief of internal/core/types.go.
use cairnline.Base.{ℕ, String, Bool, true, false, ◌≡◌, ◌↔◌, arith, List, Option, Eq}
use cairnline.Model.Clock.{Time}

-- The constants of the field `Kind`; the brief itself never uses the last two.
pub data OperationKind : Type 0 where
  assignment missing_evidence review_follow_up handoff memory_candidate : OperationKind
  closeout_ready work_item project_setup skill : OperationKind

abbrev kind_beq : OperationKind → OperationKind → Bool
kind_beq assignment assignment = true
kind_beq missing_evidence missing_evidence = true
kind_beq review_follow_up review_follow_up = true
kind_beq handoff handoff = true
kind_beq memory_candidate memory_candidate = true
kind_beq closeout_ready closeout_ready = true
kind_beq work_item work_item = true
kind_beq project_setup project_setup = true
kind_beq skill skill = true
kind_beq _ _ = false

pub kind_beq_iff : (a b : OperationKind) → (kind_beq a b ≡ true) ↔ (a ≡ b)
kind_beq_iff a b = ground arith

instance abbrev pub kind_eq : Eq OperationKind
kind_eq = record { beq = kind_beq; beq_iff = kind_beq_iff }

-- The constants of the field `Severity`
pub data Severity : Type 0 where
  blocked action active ready info : Severity

abbrev severity_beq : Severity → Severity → Bool
severity_beq blocked blocked = true
severity_beq action action = true
severity_beq active active = true
severity_beq ready ready = true
severity_beq info info = true
severity_beq _ _ = false

pub severity_beq_iff : (a b : Severity) → (severity_beq a b ≡ true) ↔ (a ≡ b)
severity_beq_iff a b = ground arith

instance abbrev pub severity_eq : Eq Severity
severity_eq = record { beq = severity_beq; beq_iff = severity_beq_iff }

pub record ProjectOperationItem : Type 0 where
  pub kind : OperationKind
  pub severity : Severity
  pub status : String
  pub title : String
  pub detail : String
  pub action_kind : String
  pub action_label : String
  pub work_item_id : String
  pub assignment_id : String
  pub artifact_id : String
  pub memory_candidate_id : String
  pub updated_at : Time

pub record ProjectOperationsCounts : Type 0 where
  pub work_items : ℕ
  pub open_work_items : ℕ
  pub assignments : ℕ
  pub active_assignments : ℕ
  pub blocked_assignments : ℕ
  pub pending_memory_candidates : ℕ
  pub review_follow_ups : ℕ
  pub missing_evidence : ℕ
  pub open_handoffs : ℕ
  pub closeout_ready : ℕ

pub record ProjectOperationsBrief : Type 0 where
  pub project_id : String
  pub status : String
  pub title : String
  pub detail : String
  pub counts : ProjectOperationsCounts
  pub next : Option ProjectOperationItem
  pub items : List ProjectOperationItem
  pub created_at : Time

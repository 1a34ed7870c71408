-- ===== src/Reports/Health/Types.antt =====
-- Project health of internal/core/types.go.
use cairnline.Base.{ℕ, String, Bool, List}
use cairnline.Model.Clock.{Time}
use cairnline.Reports.Operations.Types.{OperationKind, Severity}

pub record ProjectHealthSummary : Type 0 where
  pub attention_count : ℕ
  pub available_attention_count : ℕ
  pub omitted_attention_count : ℕ
  pub attention_limit : ℕ
  pub setup_todo_count : ℕ
  pub missing_project_root : Bool
  pub enabled_memory_count : ℕ
  pub saved_memory_count : ℕ
  pub enabled_context_source_count : ℕ
  pub pending_memory_candidate_count : ℕ
  pub promoted_memory_candidate_count : ℕ
  pub rejected_memory_candidate_count : ℕ
  pub open_handoff_count : ℕ
  pub accepted_handoff_count : ℕ
  pub superseded_handoff_count : ℕ
  pub dismissed_handoff_count : ℕ
  pub review_follow_up_count : ℕ
  pub blocked_review_count : ℕ
  pub changes_requested_review_count : ℕ
  pub active_assignment_count : ℕ
  pub blocked_assignment_count : ℕ
  pub project_skill_issue_count : ℕ

pub record ProjectHealthAttentionItem : Type 0 where
  pub id : String
  pub project_id : String
  pub kind : OperationKind
  pub severity : Severity
  pub status : String
  pub title : String
  pub detail : String
  pub action_kind : String
  pub action_label : String
  pub work_item_id : String
  pub assignment_id : String
  pub artifact_id : String
  pub handoff_id : String
  pub memory_candidate_id : String
  pub updated_at : Time

pub record ProjectHealth : Type 0 where
  pub project_id : String
  pub status : String
  pub title : String
  pub detail : String
  pub summary : ProjectHealthSummary
  pub attention : List ProjectHealthAttentionItem
  pub created_at : Time

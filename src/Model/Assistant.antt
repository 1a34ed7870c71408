-- ===== src/Model/Assistant.antt =====
-- The assistant's proposals, as they are recorded.
use cairnline.Base.{ℕ, String, Bool, List, Option}
use cairnline.Model.Clock.{Time}
use cairnline.Model.Project.{Project, Root}
use cairnline.Model.Work.{Role, WorkItem}
use cairnline.Model.Assignment.{Assignment}
use cairnline.Model.Collaboration.{Evidence, Review}
use cairnline.Model.Handoff.{Handoff}
use cairnline.Model.Memory.{MemoryCandidate}

pub record AssistantTarget : Type 0 where
  pub project_id : String
  pub root_id : String
  pub role_id : String
  pub work_item_id : String
  pub assignment_id : String
  pub artifact_id : String
  pub handoff_id : String

-- A nil pointer is `none`.
pub record AssistantAction : Type 0 where
  pub kind : String
  pub title : String
  pub summary : String
  pub target : AssistantTarget
  pub project : Option Project
  pub root : Option Root
  pub role : Option Role
  pub work_item : Option WorkItem
  pub assignment : Option Assignment
  pub evidence : Option Evidence
  pub review : Option Review
  pub handoff : Option Handoff
  pub memory_candidate : Option MemoryCandidate

pub record AssistantProposal : Type 0 where
  pub id : String
  pub project_id : String
  pub title : String
  pub summary : String
  pub warnings : List String
  pub source : String
  pub requires_confirmation : Bool
  pub actions : List AssistantAction
  pub created_at : Time

pub record AssistantActionResult : Type 0 where
  pub kind : String
  pub status : String
  pub project_id : String
  pub root_id : String
  pub role_id : String
  pub work_item_id : String
  pub assignment_id : String
  pub artifact_id : String
  pub handoff_id : String
  pub memory_candidate_id : String
  pub error : String

pub record AssistantApplyResult : Type 0 where
  pub proposal_id : String
  pub status : String
  pub applied : Bool
  pub confirmed : Bool
  pub total_action_count : ℕ
  pub applied_action_count : ℕ
  pub failed_action_index : Option ℕ
  pub actions : List AssistantActionResult

pub record AssistantApplyAttempt : Type 0 where
  pub id : String
  pub proposal_id : String
  pub status : String
  pub confirmed : Bool
  pub result : AssistantApplyResult
  pub error_message : String
  pub created_at : Time

pub record AssistantProposalRecord : Type 0 where
  pub id : String
  pub project_id : String
  pub source : String
  pub source_id : String
  pub proposal : AssistantProposal
  pub status : String
  pub latest_result : Option AssistantApplyResult
  pub apply_attempts : List AssistantApplyAttempt
  pub created_at : Time
  pub updated_at : Time
  pub applied_at : Option Time

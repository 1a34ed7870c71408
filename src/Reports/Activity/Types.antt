-- ===== src/Reports/Activity/Types.antt =====
-- Project activity of internal/core/types.go.
use cairnline.Base.{ℕ, String, Bool, true, false, ◌≡◌, ◌↔◌, arith, List, Eq, nat_eq, string_eq}
use cairnline.Model.Assignment.{AssignmentStatus, ExecutionRef, status_eq}
use cairnline.Model.Clock.{Time}

-- The constants of the field `Bucket`.
pub data Bucket : Type 0 where
  active blocked completed other : Bucket

abbrev bucket_beq : Bucket → Bucket → Bool
bucket_beq active active = true
bucket_beq blocked blocked = true
bucket_beq completed completed = true
bucket_beq other other = true
bucket_beq _ _ = false

pub bucket_beq_iff : (a b : Bucket) → (bucket_beq a b ≡ true) ↔ (a ≡ b)
bucket_beq_iff a b = ground arith

instance abbrev pub bucket_eq : Eq Bucket
bucket_eq = record { beq = bucket_beq; beq_iff = bucket_beq_iff }

pub record ProjectActivityItem : Type 0 where
  pub bucket : Bucket
  pub assignment_id : String
  pub work_item_id : String
  pub work_item_title : String
  pub role_id : String
  pub role_name : String
  pub root_id : String
  pub status : AssignmentStatus
  pub execution_mode : String
  pub desired_agent_kind : String
  pub execution_ref : ExecutionRef
  pub created_at : Time
  pub updated_at : Time

pub record ProjectActivityCounts : Type 0 where
  pub assignments : ℕ
  pub queued : ℕ
  pub claimed : ℕ
  pub running : ℕ
  pub awaiting_approval : ℕ
  pub awaiting_review : ℕ
  pub completed : ℕ
  pub failed : ℕ
  pub cancelled : ℕ
  pub other : ℕ
  pub active : ℕ
  pub blocked : ℕ

pub record ProjectActivityBuckets : Type 0 where
  pub active : List ProjectActivityItem
  pub blocked : List ProjectActivityItem
  pub completed : List ProjectActivityItem
  pub other : List ProjectActivityItem
  pub recent : List ProjectActivityItem

pub record ProjectActivity : Type 0 where
  pub project_id : String
  pub counts : ProjectActivityCounts
  pub buckets : ProjectActivityBuckets
  pub items : List ProjectActivityItem
  pub created_at : Time

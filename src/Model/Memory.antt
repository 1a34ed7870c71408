-- ===== src/Model/Memory.antt =====
-- Accepted project memory, and the candidates that may become part of it.
use cairnline.Base.{
  String, Bool, true, false, List, ◌≡◌, ◌↔◌, arith, Eq, ◌==◌, string_eq, eq_iff, if◌then◌else◌,
}
use cairnline.Base.Trim.{trim_space}
use cairnline.Model.Clock.{Time}

pub record MemoryEntry : Type 0 where
  pub id : String
  pub project_id : String
  pub title : String
  pub body : String
  pub trust_label : String
  pub source_kind : String
  pub source_id : String
  pub enabled : Bool
  pub created_at : Time
  pub updated_at : Time

-- A status is a text in Go; `other` stands for any text but the three constants.
pub data CandidateStatus : Type 0 where
  pending promoted rejected : CandidateStatus
  other : String → CandidateStatus

abbrev pub status_beq : CandidateStatus → CandidateStatus → Bool
status_beq pending pending = true
status_beq promoted promoted = true
status_beq rejected rejected = true
status_beq (other s) (other t) = s == t
status_beq _ _ = false

-- The text that stands in the store.
abbrev pub status_text : CandidateStatus → String
status_text pending = "pending"
status_text promoted = "promoted"
status_text rejected = "rejected"
status_text (other s) = s

abbrev pub status_of : String → CandidateStatus
status_of s =
    if s == "pending"
    then pending
    else if s == "promoted"
    then promoted
    else if s == "rejected"
    then rejected
    else other s

-- `strings.TrimSpace(status)`: a constant stays, and any other text may turn out to be one.
unfoldable pub trimmed_status : CandidateStatus → CandidateStatus
trimmed_status (other s) = status_of (trim_space s)
trimmed_status pending = pending
trimmed_status s = s

pub status_beq_iff : (a b : CandidateStatus) → (status_beq a b ≡ true) ↔ (a ≡ b)
status_beq_iff pending pending = ground arith
status_beq_iff (other s) (other t) = ground (arith, eq_iff s t)
status_beq_iff a b = ground arith

instance abbrev pub status_eq : Eq CandidateStatus
status_eq = record { beq = status_beq; beq_iff = status_beq_iff }

pub record MemoryCandidateSourceRef : Type 0 where
  pub kind : String
  pub id : String
  pub title : String
  pub url : String

pub record MemoryCandidate : Type 0 where
  pub id : String
  pub project_id : String
  pub title : String
  pub body : String
  pub suggested_kind : String
  pub suggested_trust_label : String
  pub suggested_source_kind : String
  pub suggested_source_id : String
  pub source_refs : List MemoryCandidateSourceRef
  pub status : CandidateStatus
  pub status_reason : String
  pub promoted_memory_id : String
  pub created_at : Time
  pub updated_at : Time

pub record MemoryCandidateFilter : Type 0 where
  pub project_id : String
  pub status : String
  pub include_resolved : Bool

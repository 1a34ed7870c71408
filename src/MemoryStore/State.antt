-- ===== src/MemoryStore/State.antt =====
-- `MemoryStore`: its maps, and the look-ups that the methods share.
use cairnline.Base.{
  String, Bool, true, ◌&&◌, Option, ◌≡◌, ◌↔◌, Eq, ◌==◌, string_eq, eq_iff, arith, Result, ok,
  require, if◌then◌else◌, ◌>>◌,
}
use cairnline.Base.Table
use cairnline.Base.Table.{Table}
use cairnline.Base.Nested
use cairnline.Base.Nested.{Nested}
use cairnline.Model.Project.{Project, ProjectSkill}
use cairnline.Model.Work.{Role, WorkItem}
use cairnline.Model.Assignment.{Assignment}
use cairnline.Model.Collaboration.{Artifact, Evidence, Review}
use cairnline.Model.Handoff.{Handoff, HandoffFollowUpResult}
use cairnline.Model.Memory.{MemoryEntry, MemoryCandidate}
use cairnline.Model.Assistant.{AssistantProposalRecord}

pub record ReceiptKey : Type 0 where
  pub project_id : String
  pub operation : String
  pub idempotency_key : String

abbrev pub key_beq : ReceiptKey → ReceiptKey → Bool
key_beq a b =
    a.project_id == b.project_id
    && a.operation == b.operation
    && a.idempotency_key == b.idempotency_key

pub key_beq_iff : (a b : ReceiptKey) → (key_beq a b ≡ true) ↔ (a ≡ b)
key_beq_iff a b = ground (
  arith,
  eq_iff a.project_id b.project_id,
  eq_iff a.operation b.operation,
  eq_iff a.idempotency_key b.idempotency_key,
)

instance abbrev pub key_eq : Eq ReceiptKey
key_eq = record { beq = key_beq; beq_iff = key_beq_iff }

pub record Receipt : Type 0 where
  pub request_hash : String
  pub result : HandoffFollowUpResult

pub record Store : Type 0 where
  pub projects : Table String Project
  pub skills : Nested ProjectSkill
  pub work_items : Nested WorkItem
  pub roles : Nested Role
  pub assignments : Nested Assignment
  pub artifacts : Nested Artifact
  pub evidence : Nested Evidence
  pub reviews : Nested Review
  pub handoffs : Nested Handoff
  pub entries : Nested MemoryEntry
  pub memory : Nested MemoryCandidate
  pub assistant : Table String AssistantProposalRecord
  pub receipts : Table ReceiptKey Receipt

-- `NewMemoryStore`
unfoldable pub new_store : Store
unfolding Table.empty
new_store = record {
  projects = Table.empty;
  skills = Table.empty;
  work_items = Table.empty;
  roles = Table.empty;
  assignments = Table.empty;
  artifacts = Table.empty;
  evidence = Table.empty;
  reviews = Table.empty;
  handoffs = Table.empty;
  entries = Table.empty;
  memory = Table.empty;
  assistant = Table.empty;
  receipts = Table.empty;
}

abbrev pub project_at : Store → String → Option Project
project_at s p = Table.get p s.projects

abbrev pub require_project : Store → String → Result (Unit {0})
require_project s p = require (project_at s p)

-- `requireWorkItemLocked`
unfoldable pub require_work_item : Store → String → String → Result (Unit {0})
require_work_item s p w = do require_project s p; require (Nested.get p w s.work_items)

-- `if id != "" { if _, ok := m[p][id]; !ok { return ErrNotFound } }`
abbrev pub require_ref {ℓ} : {A : Type ℓ} → String → Option A → Result (Unit {0})
require_ref id found = if id == "" then ok tt else require found

-- ===== src/MemoryStore/Accept.antt =====
-- `AcceptHandoffWithFollowUp`: accepts a handoff and makes sure that an assignment follows, once
-- for each idempotency key. The clock is read once for a new assignment and once for the handoff.
use cairnline.Base.{
  String, Bool, true, false, not, ◌||◌, ◌&&◌, List, Option, none, some, Result, ok, require_absent,
  or_fail, not_found, conflict, invalid, reject, ◌>>=◌, ◌>>◌, if◌then◌else◌, ◌==◌, string_eq,
  nat_eq, [], ◌∷◌,
}
use cairnline.Base.Table
use cairnline.Base.Nested
use cairnline.Base.Nested.{Nested}
use cairnline.Base.Trim.{trim_space}
use cairnline.Model.Clock.{Time}
use cairnline.Model.Project.{Project, Root}
use cairnline.Model.Work.{Role, WorkItem}
use cairnline.Model.Assignment.{AssignmentStatus, Assignment, no_execution}
use cairnline.Model.Handoff.{
  Handoff, HandoffStatus, AcceptHandoffWithFollowUpCommand, FollowUpOutcome, created,
  linked_existing, already_satisfied, HandoffFollowUpResult, status_eq,
}
use cairnline.MemoryStore.State.{Store, ReceiptKey, Receipt, key_eq, project_at}
use cairnline.MemoryStore.Handoffs.{find_handoff, store_handoff, handoff_transition_time}
use cairnline.MemoryStore.Assignments.{store_assignment}

-- What `RequestHash` fingerprints; the idempotency key is left out.
pub record RequestPayload : Type 0 where
  pub operation : String
  pub project_id : String
  pub work_item_id : String
  pub handoff_id : String
  pub expected_updated_at : Time
  pub intent : String

unfoldable pub request_payload : AcceptHandoffWithFollowUpCommand → RequestPayload
unfolding trim_space
request_payload c = record {
  operation = "accept_handoff_with_follow_up";
  project_id = trim_space c.project_id;
  work_item_id = trim_space c.work_item_id;
  handoff_id = trim_space c.handoff_id;
  expected_updated_at = c.expected_updated_at;
  intent = trim_space c.intent;
}

unfoldable pub receipt_key : AcceptHandoffWithFollowUpCommand → ReceiptKey
receipt_key c = record {
  project_id = c.project_id;
  operation = "accept_handoff_with_follow_up";
  idempotency_key = c.idempotency_key;
}

-- The handoff is still accepted and still points at the assignment.
unfoldable pub is_settled : Handoff → Assignment → Bool
is_settled h a =
    h.status == HandoffStatus.accepted
    && h.target_assignment_id == a.id
    && h.target_work_item_id == a.work_item_id
    && h.to_role_id == a.role_id

-- A repeated command reports what became of the first one, if that still stands.
unfoldable pub replay :
    Store → AcceptHandoffWithFollowUpCommand → HandoffFollowUpResult → Result HandoffFollowUpResult
replay s c first = do
  handoff ← or_fail (Nested.get c.project_id first.handoff.id s.handoffs) conflict
  assignment ← or_fail (Nested.get c.project_id first.assignment.id s.assignments) conflict
  reject (not (is_settled handoff assignment)) conflict
  ok (record first { handoff = handoff; assignment = assignment; replayed = true })

unfoldable pub project_has_root : List Root → String → Bool
project_has_root [] id = false
project_has_root (r ∷ rs) id = r.id == id || project_has_root rs id

abbrev pub has_root : Option Project → String → Bool
has_root none id = false
has_root (some p) id = project_has_root p.roots id

-- What the two branches hand on: the handoff with its target, the assignment, and the store.
pub record FollowUp : Type 0 where
  pub current : Handoff
  pub assignment : Assignment
  pub outcome : FollowUpOutcome
  pub store : Store

-- The handoff names an assignment already.
unfoldable pub link_existing : Store → String → Handoff → Result FollowUp
link_existing s p current = do
  linked ← or_fail (Nested.get p current.target_assignment_id s.assignments) conflict
  reject
      (not (linked.role_id == current.to_role_id)
        || (not (current.target_work_item_id == "")
            && not (linked.work_item_id == current.target_work_item_id)))
      conflict
  work_item ← or_fail (Nested.get p linked.work_item_id s.work_items) conflict
  ok (record {
    current = record current { target_work_item_id = linked.work_item_id };
    assignment = linked;
    outcome =
        if current.status == HandoffStatus.accepted
          && current.target_work_item_id == linked.work_item_id
        then already_satisfied
        else linked_existing;
    store = s;
  })

abbrev pub execution_mode_for : Role → String
execution_mode_for role =
    if role.default_execution_mode == "" then "mcp_pull" else role.default_execution_mode

abbrev pub target_work_item_for : Handoff → String
target_work_item_for h =
    if h.target_work_item_id == "" then h.work_item_id else h.target_work_item_id

unfoldable pub new_assignment : String → String → Handoff → Role → WorkItem → Time → Assignment
new_assignment id p current role work_item stamp = record {
  id = id;
  project_id = p;
  work_item_id = target_work_item_for current;
  role_id = current.to_role_id;
  root_id = work_item.root_id;
  execution_mode = execution_mode_for role;
  status = AssignmentStatus.queued;
  desired_agent = record {
    kind = if execution_mode_for role == "manual" then "human" else "any";
    skill_ids = role.default_skill_ids;
  };
  claimed_by = "";
  claim = none;
  execution_ref = no_execution;
  context_snapshot_id = "";
  created_at = stamp;
  updated_at = stamp;
  started_at = 0;
  completed_at = 0;
}

-- The handoff names none: a new queued assignment for its role.
unfoldable pub create_follow_up : Store → String → Handoff → Role → String → Time → Result FollowUp
create_follow_up s p current role new_id stamp = do
  work_item ← or_fail (Nested.get p (target_work_item_for current) s.work_items) not_found
  reject (not (work_item.root_id == "") && not (has_root (project_at s p) work_item.root_id))
      not_found
  require_absent (Nested.get p new_id s.assignments)
  let assignment = new_assignment new_id p current role work_item stamp
  ok (record {
    current = record current {
      target_assignment_id = new_id;
      target_work_item_id = target_work_item_for current;
    };
    assignment = assignment;
    outcome = created;
    store = store_assignment p new_id assignment s;
  })

abbrev pub follow_up_for : Store → String → Handoff → Role → String → Time → Result FollowUp
follow_up_for s p current role new_id stamp =
    if current.target_assignment_id == ""
    then create_follow_up s p current role new_id stamp
    else link_existing s p current

-- The accepted handoff with its new stamps.
unfoldable pub accepted_at : Handoff → Time → Handoff
accepted_at current now =
    let stamp = handoff_transition_time current now in
    record current {
      status = HandoffStatus.accepted;
      updated_at = stamp;
      status_changed_at =
          if current.status == HandoffStatus.accepted then current.status_changed_at else stamp;
    }

abbrev pub settle : FollowUpOutcome → Handoff → Time → Handoff
settle already_satisfied current now = current
settle linked_existing current now = accepted_at current now
settle created current now = accepted_at current now

abbrev pub store_settled : FollowUpOutcome → String → String → Handoff → Store → Store
store_settled already_satisfied p id h s = s
store_settled linked_existing p id h s = store_handoff p id h s
store_settled created p id h s = store_handoff p id h s

-- What is left of the method once the handoff has its target: the handoff, the receipt, the result.
unfoldable pub conclude :
    AcceptHandoffWithFollowUpCommand → String → Time → FollowUp → HandoffFollowUpResult × Store
conclude c hash now f =
    let handoff = settle f.outcome f.current now in
    let result : HandoffFollowUpResult = record {
      handoff = handoff;
      assignment = f.assignment;
      outcome = f.outcome;
      replayed = false;
    } in
    let s = store_settled f.outcome c.project_id c.handoff_id handoff f.store in
    (
      result,
      record s {
        receipts =
            Table.put (receipt_key c) (record { request_hash = hash; result = result }) s.receipts;
      },
    )

-- `json.Marshal`, SHA-256 and hex of the payload are the parameter `fingerprint`.
module _ (fingerprint : RequestPayload → String) where
  unfoldable pub request_hash : AcceptHandoffWithFollowUpCommand → String
  unfolding request_payload
  request_hash c = fingerprint (request_payload c)

  unfoldable pub accept_first :
      Store
      → AcceptHandoffWithFollowUpCommand
      → String
      → Time
      → Time
      → Result (HandoffFollowUpResult × Store)
  accept_first s c new_id stamp now = do
    current ← find_handoff s c.project_id c.work_item_id c.handoff_id
    reject (not (current.updated_at == c.expected_updated_at)) conflict
    reject (current.status == HandoffStatus.dismissed || current.status == HandoffStatus.superseded)
        conflict
    reject (current.to_role_id == "") (invalid "handoff to_role_id is required")
    role ← or_fail (Nested.get c.project_id current.to_role_id s.roles) not_found
    follow_up ← follow_up_for s c.project_id current role new_id stamp
    ok (conclude c (request_hash c) now follow_up)

  abbrev pub answer :
      Store
      → AcceptHandoffWithFollowUpCommand
      → Option Receipt
      → Result (HandoffFollowUpResult × Store)
      → Result (HandoffFollowUpResult × Store)
  answer s c none first = first
  answer s c (some receipt) first = do
    reject (not (receipt.request_hash == request_hash c)) conflict
    result ← replay s c receipt.result
    ok (result, s)

  unfoldable pub accept_handoff_with_follow_up :
      Store
      → AcceptHandoffWithFollowUpCommand
      → String
      → Time
      → Time
      → Result (HandoffFollowUpResult × Store)
  accept_handoff_with_follow_up s c new_id stamp now =
      answer s c (Table.get (receipt_key c) s.receipts) (accept_first s c new_id stamp now)

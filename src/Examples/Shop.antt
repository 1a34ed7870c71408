-- ===== src/Examples/Shop.antt =====
-- A small store, made by calls, and what is asked of it.
use cairnline.Base.{String, some, none, List, [], ◌∷◌, true, Result, ok, err}
use cairnline.Model.Project.{Project}
use cairnline.Model.Work.{Role, WorkItem}
use cairnline.Model.Handoff.{
  Handoff, HandoffStatus, HandoffPatch, HandoffUpdate, AcceptHandoffWithFollowUpCommand,
}
use cairnline.Model.Memory.{MemoryEntry, MemoryCandidate, CandidateStatus}
use cairnline.MemoryStore.State.{Store, new_store}
use cairnline.MemoryStore.Accept.{RequestPayload}
use cairnline.MemoryStore.Calls.{
  Call, replay_calls, create_project, create_role, create_work_item, create_assignment,
  create_handoff, create_candidate,
}
use cairnline.Examples.Data.{waiting}

-- A stand-in for the digest: it tells requests by their intent.
abbrev pub fingerprint : RequestPayload → String
fingerprint q = q.intent

abbrev pub project : Project
project = record {
  id = "p1";
  name = "Shop";
  description = "";
  roots = [];
  default_root_id = "";
  context_sources = [];
  created_at = 1;
  updated_at = 1;
}

abbrev pub role : Role
role = record {
  id = "dev";
  project_id = "p1";
  name = "Developer";
  description = "";
  instructions = "";
  default_skill_ids = [];
  default_execution_mode = "";
}

abbrev pub item : WorkItem
item = record {
  id = "w1";
  project_id = "p1";
  title = "Till";
  brief = "";
  status = "open";
  priority = "normal";
  owner_role_id = "";
  reviewer_role_ids = [];
  root_id = "";
  created_at = 2;
  updated_at = 2;
}

abbrev pub handoff : Handoff
handoff = record {
  id = "h1";
  project_id = "p1";
  work_item_id = "w1";
  source_assignment_id = "";
  source_run_id = "";
  source_chat_session_id = "";
  source_message_id = "";
  from_role_id = "";
  to_role_id = "dev";
  target_assignment_id = "";
  target_work_item_id = "";
  title = "Next";
  body = "";
  recommended_next_action = "";
  linked_artifact_ids = [];
  linked_memory_ids = [];
  context_refs = [];
  status = HandoffStatus.opened;
  provenance_kind = "";
  trust_label = "";
  created_at = 6;
  updated_at = 6;
  status_changed_at = 6;
}

abbrev pub candidate : MemoryCandidate
candidate = record {
  id = "m1";
  project_id = "p1";
  title = "Fact";
  body = "";
  suggested_kind = "";
  suggested_trust_label = "";
  suggested_source_kind = "";
  suggested_source_id = "";
  source_refs = [];
  status = CandidateStatus.pending;
  status_reason = "";
  promoted_memory_id = "";
  created_at = 3;
  updated_at = 3;
}

abbrev pub entry : String → MemoryEntry
entry id = record {
  id = id;
  project_id = "p1";
  title = "Fact";
  body = "";
  trust_label = "";
  source_kind = "";
  source_id = "";
  enabled = true;
  created_at = 8;
  updated_at = 8;
}

abbrev pub setup : List Call
setup =
    create_project project
    ∷ create_role role
    ∷ create_work_item item
    ∷ create_assignment waiting
    ∷ create_handoff handoff
    ∷ create_candidate candidate
    ∷ []

abbrev pub shop : Store
shop = replay_calls fingerprint setup new_store

abbrev pub acceptance : String → AcceptHandoffWithFollowUpCommand
acceptance intent = record {
  project_id = "p1";
  work_item_id = "w1";
  handoff_id = "h1";
  expected_updated_at = 6;
  idempotency_key = "k1";
  intent = intent;
}

abbrev keep_all : HandoffPatch
keep_all = record {
  source_assignment_id = none;
  source_run_id = none;
  source_chat_session_id = none;
  source_message_id = none;
  from_role_id = none;
  to_role_id = none;
  target_assignment_id = none;
  target_work_item_id = none;
  title = none;
  body = none;
  recommended_next_action = none;
  linked_artifact_ids = none;
  linked_memory_ids = none;
  context_refs = none;
  status = none;
  provenance_kind = none;
  trust_label = none;
}

abbrev pub dismissal : HandoffUpdate
dismissal = record {
  expected_updated_at = 6;
  patch = record keep_all { status = some HandoffStatus.dismissed };
}

-- The value of a call that succeeds.
abbrev pub value_or : {A : Type 0} → A → Result A → A
value_or a (ok b) = b
value_or a (err e) = a

-- ===== src/MemoryStore/Calls.antt =====
-- Every method of the store that changes it, as one type of calls, so that a history of the store
-- is a list of calls. (The assistant's proposals are not among them.)
use cairnline.Base.{String, List, [], ◌∷◌, Result, ok, err}
use cairnline.Model.Clock.{Time}
use cairnline.Model.Project.{Project, ProjectSkill}
use cairnline.Model.Work.{Role, WorkItem}
use cairnline.Model.Assignment.{Assignment}
use cairnline.Model.Collaboration.{Artifact, Evidence, Review}
use cairnline.Model.Handoff.{
  Handoff, HandoffUpdate, HandoffDelete, AcceptHandoffWithFollowUpCommand,
}
use cairnline.Model.Memory.{MemoryEntry, MemoryCandidate}
use cairnline.Lifecycle.Commands.{
  renew, prepare, release, update_status, complete, Command, claim_lease, fenced, recover,
  host_claim, host_release, host_prepare, host_update_status, host_complete, edit_queued,
}
use cairnline.MemoryStore.State.{Store}
use cairnline.MemoryStore.Projects
use cairnline.MemoryStore.Skills
use cairnline.MemoryStore.WorkItems
use cairnline.MemoryStore.Roles
use cairnline.MemoryStore.Assignments
use cairnline.MemoryStore.Records
use cairnline.MemoryStore.Handoffs
use cairnline.MemoryStore.Accept
use cairnline.MemoryStore.Accept.{RequestPayload}
use cairnline.MemoryStore.Memory

-- The store method that each command of a lifecycle is.
unfoldable pub transact : Store → String → String → Command → Time → Result (Assignment × Store)
transact s p id (claim_lease by lease ttl) now =
    Assignments.claim_assignment_with_lease s p id by lease ttl now
transact s p id (fenced c (renew ttl)) now = Assignments.renew_assignment_claim s p id c ttl now
transact s p id (fenced c (prepare q)) now =
    Assignments.prepare_assignment_with_claim s p id (record q { claim_id = c }) now
transact s p id (fenced c release) now = Assignments.release_assignment_with_claim s p id c now
transact s p id (fenced c (update_status status ref)) now =
    Assignments.update_assignment_status_with_claim s p id status ref c now
transact s p id (fenced c (complete status ref)) now =
    Assignments.complete_assignment_with_claim s p id status ref c now
transact s p id (recover c) now = Assignments.recover_assignment_claim s p id c now
transact s p id (host_claim by) now = Assignments.claim_assignment s p id by now
transact s p id (host_release by) now = Assignments.release_assignment s p id by now
transact s p id (host_prepare q) now = Assignments.prepare_assignment s p id q now
transact s p id (host_update_status status ref) now =
    Assignments.update_assignment_status s p id status ref now
transact s p id (host_complete status ref) now =
    Assignments.complete_assignment s p id status ref now
transact s p id (edit_queued update) now = Assignments.update_queued_assignment s p id update now

pub data Call : Type 0 where
  create_project update_project : Project → Call
  delete_project : String → Call
  create_skill update_skill : ProjectSkill → Call
  create_work_item update_work_item : WorkItem → Call
  delete_work_item : String → String → Call
  create_role update_role : Role → Call
  delete_role : String → String → Call
  create_assignment restore_assignment : Assignment → Call
  command_assignment : String → String → Command → Time → Call
  delete_assignment : String → String → Call
  create_artifact : Artifact → Call
  create_evidence : Evidence → Call
  create_review : Review → Call
  create_handoff restore_handoff : Handoff → Call
  update_handoff : String → String → String → HandoffUpdate → Time → Call
  delete_handoff : String → String → String → HandoffDelete → Call
  accept_handoff : AcceptHandoffWithFollowUpCommand → String → Time → Time → Call
  create_entry update_entry : MemoryEntry → Call
  delete_entry : String → String → Call
  create_candidate update_candidate : MemoryCandidate → Call
  delete_candidate : String → String → Call
  promote_candidate : String → String → MemoryEntry → Call

-- The new store, without the method's answer.
abbrev pub state : {A : Type 0} → Result (A × Store) → Result Store
state (ok (a, s)) = ok s
state (err e) = err e

abbrev pub state_of_pair : {A B : Type 0} → Result (A × B × Store) → Result Store
state_of_pair (ok (a, b, s)) = ok s
state_of_pair (err e) = err e

-- A call that fails leaves the store as it is.
abbrev pub next : Store → Result Store → Store
next s (ok t) = t
next s (err e) = s

module _ (fingerprint : RequestPayload → String) where
  unfoldable pub dispatch : Store → Call → Result Store
  dispatch s (create_project p) = state (Projects.create_project s p)
  dispatch s (update_project p) = state (Projects.update_project s p)
  dispatch s (delete_project id) = Projects.delete_project s id
  dispatch s (create_skill k) = state (Skills.create_project_skill s k)
  dispatch s (update_skill k) = state (Skills.update_project_skill s k)
  dispatch s (create_work_item w) = state (WorkItems.create_work_item s w)
  dispatch s (update_work_item w) = state (WorkItems.update_work_item s w)
  dispatch s (delete_work_item p id) = WorkItems.delete_work_item s p id
  dispatch s (create_role r) = state (Roles.create_role s r)
  dispatch s (update_role r) = state (Roles.update_role s r)
  dispatch s (delete_role p id) = Roles.delete_role s p id
  dispatch s (create_assignment a) = state (Assignments.create_assignment s a)
  dispatch s (restore_assignment a) = state (Assignments.restore_assignment_snapshot s a)
  dispatch s (command_assignment p id c now) = state (transact s p id c now)
  dispatch s (delete_assignment p id) = Assignments.delete_assignment s p id
  dispatch s (create_artifact a) = state (Records.create_artifact s a)
  dispatch s (create_evidence e) = state (Records.create_evidence s e)
  dispatch s (create_review r) = state (Records.create_review s r)
  dispatch s (create_handoff h) = state (Handoffs.create_handoff s h)
  dispatch s (restore_handoff h) = state (Handoffs.restore_handoff_snapshot s h)
  dispatch s (update_handoff p w id u now) = state (Handoffs.update_handoff s p w id u now)
  dispatch s (delete_handoff p w id d) = Handoffs.delete_handoff s p w id d
  dispatch s (accept_handoff c new_id stamp now) =
      state (Accept.accept_handoff_with_follow_up fingerprint s c new_id stamp now)
  dispatch s (create_entry e) = state (Memory.create_memory_entry s e)
  dispatch s (update_entry e) = state (Memory.update_memory_entry s e)
  dispatch s (delete_entry p id) = Memory.delete_memory_entry s p id
  dispatch s (create_candidate c) = state (Memory.create_memory_candidate s c)
  dispatch s (update_candidate c) = state (Memory.update_memory_candidate s c)
  dispatch s (delete_candidate p id) = Memory.delete_memory_candidate s p id
  dispatch s (promote_candidate p id e) = state_of_pair (Memory.promote_memory_candidate s p id e)

  -- A history of calls.
  unfoldable pub replay_calls : List Call → Store → Store
  replay_calls [] s = s
  replay_calls (c ∷ cs) s = replay_calls cs (next s (dispatch s c))

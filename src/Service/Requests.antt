-- ===== src/Service/Requests.antt =====
-- Every method of `Service` that changes the store, as one type of requests, so that the life of a
-- service is a list of requests, each with the environment in which it is served. (The discovery of
-- skills, snapshots and the assistant are not among them.)
use cairnline.Base.{String, List, [], ◌∷◌, Result, ok, err, StoreError}
use cairnline.Model.Assignment.{
  AssignmentStatus, Assignment, ExecutionRef, AssignmentPreparation, QueuedAssignmentUpdate,
}
use cairnline.Model.Clock.{Time}
use cairnline.Model.Collaboration.{Artifact, Evidence, Review}
use cairnline.Model.Handoff.{
  HandoffStatus, Handoff, HandoffUpdate, HandoffDelete, AcceptHandoffWithFollowUpCommand,
}
use cairnline.Model.Memory.{MemoryEntry, MemoryCandidate}
use cairnline.Model.Project.{Root, Source, Project, ProjectSkill}
use cairnline.Model.Work.{Role, WorkItem}
use cairnline.MemoryStore.Accept.{RequestPayload}
use cairnline.MemoryStore.State.{Store}
use cairnline.Service.Assignments
use cairnline.Service.Claims
use cairnline.Service.Env.{Env}
use cairnline.Service.Handoffs
use cairnline.Service.Memories
use cairnline.Service.Memories.{MemoryCandidatePromotion}
use cairnline.Service.Projects
use cairnline.Service.Projects.{Reply}
use cairnline.Service.Records
use cairnline.Service.Roles
use cairnline.Service.Roots
use cairnline.Service.Skills
use cairnline.Service.Sources
use cairnline.Service.WorkItems

pub data Request : Type 0 where
  create_project update_project : Project → Request
  delete_project : String → Request
  create_root : String → Root → Request
  update_root : String → String → Root → Request
  delete_root : String → String → Request
  create_source : String → Source → Request
  update_source : String → String → Source → Request
  delete_source : String → String → Request
  create_skill update_skill : ProjectSkill → Request
  create_work_item update_work_item : WorkItem → Request
  delete_work_item : String → String → Request
  create_role update_role : Role → Request
  delete_role : String → String → Request
  create_assignment : Assignment → Request
  edit_assignment : String → String → QueuedAssignmentUpdate → Request
  claim_with_lease renew recover release_with_claim : String → String → String → Request
  prepare_with_claim prepare : String → String → AssignmentPreparation → Request
  update_status_with_claim complete_with_claim :
      String → String → AssignmentStatus → ExecutionRef → String → Request
  claim release : String → String → String → Request
  update_status complete : String → String → AssignmentStatus → ExecutionRef → Request
  delete_assignment : String → String → Request
  create_artifact : Artifact → Request
  create_evidence : Evidence → Request
  create_review : Review → Request
  create_handoff update_handoff : Handoff → Request
  patch_handoff : String → String → String → HandoffUpdate → Request
  update_handoff_status : String → String → String → Time → HandoffStatus → Request
  delete_handoff : String → String → String → HandoffDelete → Request
  accept_handoff : AcceptHandoffWithFollowUpCommand → Request
  create_entry update_entry : MemoryEntry → Request
  delete_entry : String → String → Request
  create_candidate update_candidate : MemoryCandidate → Request
  promote_candidate : MemoryCandidatePromotion → Request
  reject_candidate : String → String → String → Request
  delete_candidate : String → String → Request

-- Whether a request was answered, and the store that it leaves: a failed one leaves the store as it
-- was, but for the commands on roots and sources, which tell.
pub data Outcome : Type 0 where
  done : Store → Outcome
  refused : StoreError → Store → Outcome

abbrev pub left_by : Outcome → Store
left_by (done t) = t
left_by (refused e t) = t

abbrev pub stored : {A : Type 0} → Store → Result (A × Store) → Outcome
stored s (ok (a, t)) = done t
stored s (err e) = refused e s

abbrev pub stored_pair : {A B : Type 0} → Store → Result (A × B × Store) → Outcome
stored_pair s (ok (a, b, t)) = done t
stored_pair s (err e) = refused e s

abbrev pub removed : Store → Result Store → Outcome
removed s (ok t) = done t
removed s (err e) = refused e s

abbrev pub replied : {A : Type 0} → Reply A → Outcome
replied (ok a, t) = done t
replied (err e, t) = refused e t

module _ (fingerprint : RequestPayload → String) where
  unfoldable pub serve : Env → Store → Request → Outcome
  serve env s (create_project p) = stored s (Projects.create_project env s p)
  serve env s (update_project p) = stored s (Projects.update_project env s p)
  serve env s (delete_project id) = removed s (Projects.delete_project s id)
  serve env s (create_root p r) = replied (Roots.create_root env s p r)
  serve env s (update_root p id r) = replied (Roots.update_root env s p id r)
  serve env s (delete_root p id) = replied (Roots.delete_root env s p id)
  serve env s (create_source p x) = replied (Sources.create_context_source env s p x)
  serve env s (update_source p id x) = replied (Sources.update_context_source env s p id x)
  serve env s (delete_source p id) = replied (Sources.delete_context_source env s p id)
  serve env s (create_skill k) = stored s (Skills.create_project_skill env s k)
  serve env s (update_skill k) = stored s (Skills.update_project_skill env s k)
  serve env s (create_work_item w) = stored s (WorkItems.create_work_item env s w)
  serve env s (update_work_item w) = stored s (WorkItems.update_work_item env s w)
  serve env s (delete_work_item p id) = removed s (WorkItems.delete_work_item s p id)
  serve env s (create_role r) = stored s (Roles.create_role env s r)
  serve env s (update_role r) = stored s (Roles.update_role s r)
  serve env s (delete_role p id) = removed s (Roles.delete_role s p id)
  serve env s (create_assignment a) = stored s (Assignments.create_assignment env s a)
  serve env s (edit_assignment p id u) =
      stored s (Assignments.update_queued_assignment env s p id u)
  serve env s (claim_with_lease p id by) =
      stored s (Claims.claim_assignment_with_lease env s p id by)
  serve env s (renew p id c) = stored s (Claims.renew_assignment_claim env s p id c)
  serve env s (recover p id c) = stored s (Claims.recover_assignment_claim env s p id c)
  serve env s (release_with_claim p id c) =
      stored s (Claims.release_assignment_with_claim env s p id c)
  serve env s (prepare_with_claim p id q) =
      stored s (Claims.prepare_assignment_with_claim env s p id q)
  serve env s (prepare p id q) = stored s (Claims.prepare_assignment env s p id q)
  serve env s (update_status_with_claim p id status ref c) =
      stored s (Claims.update_assignment_status_with_claim env s p id status ref c)
  serve env s (complete_with_claim p id status ref c) =
      stored s (Claims.complete_assignment_with_claim env s p id status ref c)
  serve env s (claim p id by) = stored s (Claims.claim_assignment env s p id by)
  serve env s (release p id by) = stored s (Claims.release_assignment env s p id by)
  serve env s (update_status p id status ref) =
      stored s (Claims.update_assignment_status env s p id status ref)
  serve env s (complete p id status ref) =
      stored s (Claims.complete_assignment env s p id status ref)
  serve env s (delete_assignment p id) = removed s (Assignments.delete_assignment s p id)
  serve env s (create_artifact a) = stored s (Records.create_artifact env s a)
  serve env s (create_evidence e) = stored s (Records.create_evidence env s e)
  serve env s (create_review r) = stored s (Records.create_review env s r)
  serve env s (create_handoff h) = stored s (Handoffs.create_handoff env s h)
  serve env s (update_handoff h) = stored s (Handoffs.update_handoff env s h)
  serve env s (patch_handoff p w id u) = stored s (Handoffs.patch_handoff env s p w id u)
  serve env s (update_handoff_status p w id seen status) =
      stored s (Handoffs.update_handoff_status env s p w id seen status)
  serve env s (delete_handoff p w id d) = removed s (Handoffs.delete_handoff s p w id d)
  serve env s (accept_handoff c) =
      stored s (Handoffs.accept_handoff_with_follow_up fingerprint env s c)
  serve env s (create_entry m) = stored s (Memories.create_memory_entry env s m)
  serve env s (update_entry m) = stored s (Memories.update_memory_entry env s m)
  serve env s (delete_entry p id) = removed s (Memories.delete_memory_entry s p id)
  serve env s (create_candidate m) = stored s (Memories.create_memory_candidate env s m)
  serve env s (update_candidate m) = stored s (Memories.update_memory_candidate env s m)
  serve env s (promote_candidate m) = stored_pair s (Memories.promote_memory_candidate env s m)
  serve env s (reject_candidate p id reason) =
      stored s (Memories.reject_memory_candidate env s p id reason)
  serve env s (delete_candidate p id) = removed s (Memories.delete_memory_candidate s p id)

  -- A service at work.
  unfoldable pub serve_all : List (Env × Request) → Store → Store
  unfolding serve
  serve_all [] s = s
  serve_all ((env, r) ∷ rest) s = serve_all rest (left_by (serve env s r))

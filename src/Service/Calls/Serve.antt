-- ===== src/Service/Calls/Serve.antt =====
-- Every request, and a service at work.
use cairnline.Base.{String}
use cairnline.Base.Trim.{trim_space}
use cairnline.MemoryStore.Accept.{RequestPayload}
use cairnline.MemoryStore.State.{Store}
use cairnline.Service.Calls.Projects.{
  create_project-Called, update_project-Called, delete_project-Called, commit-IsServed,
  commit_shared-IsServed,
}
use cairnline.Service.Calls.Shared.{updated_root-Edited, updated_source-Edited}
use cairnline.Service.Calls.Skills.{create_project_skill-Called, update_project_skill-Called}
use cairnline.Service.Calls.Work.{
  create_work_item-Called, update_work_item-Called, delete_work_item-Called, create_role-Called,
  update_role-Called, delete_role-Called,
}
use cairnline.Service.Calls.Assignments.{
  create_assignment-Called, update_queued_assignment-Called, delete_assignment-Called,
}
use cairnline.Service.Calls.Claims.{
  claim_assignment_with_lease-Called, renew_assignment_claim-Called,
  recover_assignment_claim-Called, release_assignment_with_claim-Called,
  prepare_assignment_with_claim-Called, prepare_assignment-Called,
  update_assignment_status_with_claim-Called, complete_assignment_with_claim-Called,
  claim_assignment-Called, release_assignment-Called, update_assignment_status-Called,
  complete_assignment-Called,
}
use cairnline.Service.Calls.Records.{
  create_artifact-Called, create_evidence-Called, create_review-Called,
}
use cairnline.Service.Calls.Handoffs.{
  create_handoff-Called, update_handoff-Called, patch_handoff-Called, update_handoff_status-Called,
  delete_handoff-Called, accept_handoff_with_follow_up-Called,
}
use cairnline.Service.Calls.Memories.{
  create_memory_entry-Called, update_memory_entry-Called, delete_memory_entry-Called,
  create_memory_candidate-Called, update_memory_candidate-Called, promote_memory_candidate-Called,
  reject_memory_candidate-Called, delete_memory_candidate-Called,
}
use cairnline.Service.Calls.Step.{IsServed, stored-IsServed, stored_pair-IsServed, removed-IsServed}
use cairnline.Service.Env.{Env}
use cairnline.Service.Assignments
use cairnline.Service.Claims
use cairnline.Service.Handoffs
use cairnline.Service.Memories
use cairnline.Service.Projects
use cairnline.Service.Records
use cairnline.Service.Roles
use cairnline.Service.Skills
use cairnline.Service.WorkItems
use cairnline.Service.Roots
use cairnline.Service.Roots.{created_root, updated_root, deleted_root}
use cairnline.Service.Sources
use cairnline.Service.Sources.{created_source, updated_source, deleted_source}
use cairnline.Service.Requests.{
  Request, create_project, update_project, delete_project, create_root, update_root, delete_root,
  create_source, update_source, delete_source, create_skill, update_skill, create_work_item,
  update_work_item, delete_work_item, create_role, update_role, delete_role, create_assignment,
  edit_assignment, claim_with_lease, renew, recover, release_with_claim, prepare_with_claim,
  prepare, update_status_with_claim, complete_with_claim, claim, release, update_status, complete,
  delete_assignment, create_artifact, create_evidence, create_review, create_handoff,
  update_handoff, patch_handoff, update_handoff_status, delete_handoff, accept_handoff,
  create_entry, update_entry, delete_entry, create_candidate, update_candidate, promote_candidate,
  reject_candidate, delete_candidate, serve,
}
use cairnline.Service.Stated.{IsSound}

module _ (fingerprint : RequestPayload → String) (env : Env) (sound : IsSound env) where
  -- An answered request has made one canonical call of the store, which an update of a root or a
  -- source has written through before; a refused one has made none, but may have written through, or
  -- one.
  pub serve-IsServed :
      (s : Store) (r : Request) → IsServed fingerprint env s (serve fingerprint env s r)
  unfolding serve Roots.create_root Roots.update_root Roots.delete_root
      Sources.create_context_source Sources.update_context_source Sources.delete_context_source
  serve-IsServed s (create_project p) =
      stored-IsServed fingerprint env s (Projects.create_project env s p)
        (create_project-Called env sound fingerprint s p)
  serve-IsServed s (update_project p) =
      stored-IsServed fingerprint env s (Projects.update_project env s p)
        (update_project-Called env sound fingerprint s p)
  serve-IsServed s (delete_project id) =
      removed-IsServed fingerprint env s (Projects.delete_project s id)
        (delete_project-Called env sound fingerprint s id)
  serve-IsServed s (create_root p r) =
      commit-IsServed env sound fingerprint s (created_root env s p r)
  serve-IsServed s (update_root p id r) =
      commit_shared-IsServed env sound fingerprint s (trim_space p) (updated_root env s p id r)
        (updated_root-Edited env s p id r)
  serve-IsServed s (delete_root p id) =
      commit-IsServed env sound fingerprint s (deleted_root s p id)
  serve-IsServed s (create_source p x) =
      commit-IsServed env sound fingerprint s (created_source env s p x)
  serve-IsServed s (update_source p id x) =
      commit_shared-IsServed env sound fingerprint s (trim_space p) (updated_source env s p id x)
        (updated_source-Edited env s p id x)
  serve-IsServed s (delete_source p id) =
      commit-IsServed env sound fingerprint s (deleted_source s p id)
  serve-IsServed s (create_skill k) =
      stored-IsServed fingerprint env s (Skills.create_project_skill env s k)
        (create_project_skill-Called fingerprint env s k)
  serve-IsServed s (update_skill k) =
      stored-IsServed fingerprint env s (Skills.update_project_skill env s k)
        (update_project_skill-Called fingerprint env s k)
  serve-IsServed s (create_work_item w) =
      stored-IsServed fingerprint env s (WorkItems.create_work_item env s w)
        (create_work_item-Called fingerprint env sound s w)
  serve-IsServed s (update_work_item w) =
      stored-IsServed fingerprint env s (WorkItems.update_work_item env s w)
        (update_work_item-Called fingerprint env sound s w)
  serve-IsServed s (delete_work_item p id) =
      removed-IsServed fingerprint env s (WorkItems.delete_work_item s p id)
        (delete_work_item-Called fingerprint env sound s p id)
  serve-IsServed s (create_role r) =
      stored-IsServed fingerprint env s (Roles.create_role env s r)
        (create_role-Called fingerprint env sound s r)
  serve-IsServed s (update_role r) =
      stored-IsServed fingerprint env s (Roles.update_role s r)
        (update_role-Called fingerprint env sound s r)
  serve-IsServed s (delete_role p id) =
      removed-IsServed fingerprint env s (Roles.delete_role s p id)
        (delete_role-Called fingerprint env sound s p id)
  serve-IsServed s (create_assignment a) =
      stored-IsServed fingerprint env s (Assignments.create_assignment env s a)
        (create_assignment-Called fingerprint env sound s a)
  serve-IsServed s (edit_assignment p id u) =
      stored-IsServed fingerprint env s (Assignments.update_queued_assignment env s p id u)
        (update_queued_assignment-Called fingerprint env sound s p id u)
  serve-IsServed s (claim_with_lease p id by) =
      stored-IsServed fingerprint env s (Claims.claim_assignment_with_lease env s p id by)
        (claim_assignment_with_lease-Called fingerprint env s p id by)
  serve-IsServed s (renew p id c) =
      stored-IsServed fingerprint env s (Claims.renew_assignment_claim env s p id c)
        (renew_assignment_claim-Called fingerprint env s p id c)
  serve-IsServed s (recover p id c) =
      stored-IsServed fingerprint env s (Claims.recover_assignment_claim env s p id c)
        (recover_assignment_claim-Called fingerprint env s p id c)
  serve-IsServed s (release_with_claim p id c) =
      stored-IsServed fingerprint env s (Claims.release_assignment_with_claim env s p id c)
        (release_assignment_with_claim-Called fingerprint env s p id c)
  serve-IsServed s (prepare_with_claim p id q) =
      stored-IsServed fingerprint env s (Claims.prepare_assignment_with_claim env s p id q)
        (prepare_assignment_with_claim-Called fingerprint env s p id q)
  serve-IsServed s (prepare p id q) =
      stored-IsServed fingerprint env s (Claims.prepare_assignment env s p id q)
        (prepare_assignment-Called fingerprint env s p id q)
  serve-IsServed s (update_status_with_claim p id x f c) =
      stored-IsServed fingerprint env s
        (Claims.update_assignment_status_with_claim env s p id x f c)
        (update_assignment_status_with_claim-Called fingerprint env s p id x f c)
  serve-IsServed s (complete_with_claim p id x f c) =
      stored-IsServed fingerprint env s (Claims.complete_assignment_with_claim env s p id x f c)
        (complete_assignment_with_claim-Called fingerprint env s p id x f c)
  serve-IsServed s (claim p id by) =
      stored-IsServed fingerprint env s (Claims.claim_assignment env s p id by)
        (claim_assignment-Called fingerprint env s p id by)
  serve-IsServed s (release p id by) =
      stored-IsServed fingerprint env s (Claims.release_assignment env s p id by)
        (release_assignment-Called fingerprint env s p id by)
  serve-IsServed s (update_status p id x f) =
      stored-IsServed fingerprint env s (Claims.update_assignment_status env s p id x f)
        (update_assignment_status-Called fingerprint env s p id x f)
  serve-IsServed s (complete p id x f) =
      stored-IsServed fingerprint env s (Claims.complete_assignment env s p id x f)
        (complete_assignment-Called fingerprint env s p id x f)
  serve-IsServed s (delete_assignment p id) =
      removed-IsServed fingerprint env s (Assignments.delete_assignment s p id)
        (delete_assignment-Called fingerprint env sound s p id)
  serve-IsServed s (create_artifact a) =
      stored-IsServed fingerprint env s (Records.create_artifact env s a)
        (create_artifact-Called fingerprint env sound s a)
  serve-IsServed s (create_evidence e) =
      stored-IsServed fingerprint env s (Records.create_evidence env s e)
        (create_evidence-Called fingerprint env sound s e)
  serve-IsServed s (create_review r) =
      stored-IsServed fingerprint env s (Records.create_review env s r)
        (create_review-Called fingerprint env sound s r)
  serve-IsServed s (create_handoff h) =
      stored-IsServed fingerprint env s (Handoffs.create_handoff env s h)
        (create_handoff-Called fingerprint env sound s h)
  serve-IsServed s (update_handoff h) =
      stored-IsServed fingerprint env s (Handoffs.update_handoff env s h)
        (update_handoff-Called fingerprint env sound s h)
  serve-IsServed s (patch_handoff p w id u) =
      stored-IsServed fingerprint env s (Handoffs.patch_handoff env s p w id u)
        (patch_handoff-Called fingerprint env sound s p w id u)
  serve-IsServed s (update_handoff_status p w id seen x) =
      stored-IsServed fingerprint env s (Handoffs.update_handoff_status env s p w id seen x)
        (update_handoff_status-Called fingerprint env sound s p w id seen x)
  serve-IsServed s (delete_handoff p w id d) =
      removed-IsServed fingerprint env s (Handoffs.delete_handoff s p w id d)
        (delete_handoff-Called fingerprint env sound s p w id d)
  serve-IsServed s (accept_handoff c) =
      stored-IsServed fingerprint env s (Handoffs.accept_handoff_with_follow_up fingerprint env s c)
        (accept_handoff_with_follow_up-Called fingerprint env sound s c)
  serve-IsServed s (create_entry m) =
      stored-IsServed fingerprint env s (Memories.create_memory_entry env s m)
        (create_memory_entry-Called fingerprint env sound s m)
  serve-IsServed s (update_entry m) =
      stored-IsServed fingerprint env s (Memories.update_memory_entry env s m)
        (update_memory_entry-Called fingerprint env sound s m)
  serve-IsServed s (delete_entry p id) =
      removed-IsServed fingerprint env s (Memories.delete_memory_entry s p id)
        (delete_memory_entry-Called fingerprint env sound s p id)
  serve-IsServed s (create_candidate m) =
      stored-IsServed fingerprint env s (Memories.create_memory_candidate env s m)
        (create_memory_candidate-Called fingerprint env sound s m)
  serve-IsServed s (update_candidate m) =
      stored-IsServed fingerprint env s (Memories.update_memory_candidate env s m)
        (update_memory_candidate-Called fingerprint env sound s m)
  serve-IsServed s (promote_candidate m) =
      stored_pair-IsServed fingerprint env s (Memories.promote_memory_candidate env s m)
        (promote_memory_candidate-Called fingerprint env sound s m)
  serve-IsServed s (reject_candidate p id why) =
      stored-IsServed fingerprint env s (Memories.reject_memory_candidate env s p id why)
        (reject_memory_candidate-Called fingerprint env sound s p id why)
  serve-IsServed s (delete_candidate p id) =
      removed-IsServed fingerprint env s (Memories.delete_memory_candidate s p id)
        (delete_memory_candidate-Called fingerprint env sound s p id)

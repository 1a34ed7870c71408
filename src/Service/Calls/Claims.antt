-- ===== src/Service/Calls/Claims.antt =====
-- The lifecycle requests on an assignment as calls of the store.
use cairnline.Base.{String, true, false, ok, ◌≡◌, refl, arith, ◌==◌, string_eq}
use cairnline.Base.Trim.{trim_space}
use cairnline.Lifecycle.Commands.{
  renew, prepare, release, update_status, complete, Command, claim_lease, fenced, recover,
  host_claim, host_release, host_prepare, host_update_status, host_complete,
}
use cairnline.Lifecycle.Status.{
  is_progress, is_completion, validate_progress_status, validate_completion_status,
}
use cairnline.Model.Assignment.{
  AssignmentStatus, trimmed_status, ExecutionRef, Assignment, AssignmentPreparation,
}
use cairnline.MemoryStore.Accept.{RequestPayload}
use cairnline.MemoryStore.Calls
use cairnline.MemoryStore.Calls.{Call, dispatch, state, transact}
use cairnline.MemoryStore.State.{Store}
use cairnline.Service.Calls.Step.{Called}
use cairnline.Service.Canonical.{IsCanonicalCommand}
use cairnline.Service.Claims
use cairnline.Service.Claims.{new_lease, completed_or, trimmed_preparation, require_references}
use cairnline.Service.Env.{Env}
use cairnline.Service.Normalize.{normalize_execution_ref}
use cairnline.Service.Stated.{pair-AllStated, trim_space-IsStated}

is_progress_lem :
    (status : AssignmentStatus)
    → validate_progress_status status ≡ ok tt
    → is_progress status ≡ true
unfolding validate_progress_status
is_progress_lem status h = ground arith

is_completion_lem :
    (status : AssignmentStatus)
    → validate_completion_status status ≡ ok tt
    → is_completion status ≡ true
unfolding validate_completion_status
is_completion_lem status h = ground arith

module _ (fingerprint : RequestPayload → String) (env : Env) where
  -- A command on the assignment that the trimmed ids name.
  command-Called :
      (s : Store) (p id : String) (c : Command) (a : Assignment) (t : Store)
      → (trim_space p == "") ≡ false
      → (trim_space id == "") ≡ false
      → IsCanonicalCommand env s (trim_space p) c
      → transact s (trim_space p) (trim_space id) c env.now ≡ ok (a, t)
      → Called fingerprint env s t
  unfolding dispatch
  command-Called s p id c a t h k fits done = record {
    call = Calls.command_assignment (trim_space p) (trim_space id) c env.now;
    canonical = (pair-AllStated p id h k, refl, fits);
    dispatched = ground arith;
  }

  pub claim_assignment_with_lease-Called :
      (s : Store) (p id by : String) (a : Assignment) (t : Store)
      → Claims.claim_assignment_with_lease env s p id by ≡ ok (a, t)
      → Called fingerprint env s t
  unfolding Claims.claim_assignment_with_lease transact
  claim_assignment_with_lease-Called s p id by a t h =
      command-Called s p id (claim_lease (trim_space by) (new_lease env.claim_id) env.lease_ttl) a t
        (ground arith) (ground arith) (trim_space-IsStated by (ground arith), refl, refl)
        (ground arith)

  pub renew_assignment_claim-Called :
      (s : Store) (p id c : String) (a : Assignment) (t : Store)
      → Claims.renew_assignment_claim env s p id c ≡ ok (a, t)
      → Called fingerprint env s t
  unfolding Claims.renew_assignment_claim transact
  renew_assignment_claim-Called s p id c a t h =
      command-Called s p id (fenced (trim_space c) (renew env.lease_ttl)) a t (ground arith)
        (ground arith) (trim_space-IsStated c (ground arith), refl) (ground arith)

  pub recover_assignment_claim-Called :
      (s : Store) (p id c : String) (a : Assignment) (t : Store)
      → Claims.recover_assignment_claim env s p id c ≡ ok (a, t)
      → Called fingerprint env s t
  unfolding Claims.recover_assignment_claim transact
  recover_assignment_claim-Called s p id c a t h =
      command-Called s p id (recover (trim_space c)) a t (ground arith) (ground arith)
        (trim_space-IsStated c (ground arith)) (ground arith)

  pub release_assignment_with_claim-Called :
      (s : Store) (p id c : String) (a : Assignment) (t : Store)
      → Claims.release_assignment_with_claim env s p id c ≡ ok (a, t)
      → Called fingerprint env s t
  unfolding Claims.release_assignment_with_claim transact
  release_assignment_with_claim-Called s p id c a t h =
      command-Called s p id (fenced (trim_space c) release) a t (ground arith) (ground arith)
        (trim_space-IsStated c (ground arith)) (ground arith)

  pub prepare_assignment_with_claim-Called :
      (s : Store) (p id : String) (q : AssignmentPreparation) (a : Assignment) (t : Store)
      → Claims.prepare_assignment_with_claim env s p id q ≡ ok (a, t)
      → Called fingerprint env s t
  unfolding Claims.prepare_assignment_with_claim transact trimmed_preparation
  prepare_assignment_with_claim-Called s p id q a t h =
      let c = trim_space q.claim_id in
      command-Called s p id (fenced c (prepare (trimmed_preparation c "" q))) a t (ground arith)
        (ground arith) (trim_space-IsStated q.claim_id (ground arith), ground arith) (ground arith)

  pub prepare_assignment-Called :
      (s : Store) (p id : String) (q : AssignmentPreparation) (a : Assignment) (t : Store)
      → Claims.prepare_assignment env s p id q ≡ ok (a, t)
      → Called fingerprint env s t
  unfolding Claims.prepare_assignment transact trimmed_preparation
  prepare_assignment-Called s p id q a t h =
      command-Called s p id (host_prepare (trimmed_preparation "" (trim_space q.claimed_by) q)) a t
        (ground arith) (ground arith)
        (trim_space-IsStated q.claimed_by (ground arith), ground arith) (ground arith)

  pub update_assignment_status_with_claim-Called :
      (s : Store) (p id : String) (status : AssignmentStatus) (ref : ExecutionRef) (c : String)
      (a : Assignment) (t : Store)
      → Claims.update_assignment_status_with_claim env s p id status ref c ≡ ok (a, t)
      → Called fingerprint env s t
  unfolding Claims.update_assignment_status_with_claim transact
  update_assignment_status_with_claim-Called s p id status ref c a t h =
      let next = trimmed_status status in
      command-Called s p id
        (fenced (trim_space c) (update_status next (normalize_execution_ref ref))) a t
        (ground arith) (ground arith)
        (trim_space-IsStated c (ground arith), is_progress_lem next (ground arith)) (ground arith)

  pub complete_assignment_with_claim-Called :
      (s : Store) (p id : String) (status : AssignmentStatus) (ref : ExecutionRef) (c : String)
      (a : Assignment) (t : Store)
      → Claims.complete_assignment_with_claim env s p id status ref c ≡ ok (a, t)
      → Called fingerprint env s t
  unfolding Claims.complete_assignment_with_claim transact
  complete_assignment_with_claim-Called s p id status ref c a t h =
      let next = completed_or status in
      command-Called s p id (fenced (trim_space c) (complete next (normalize_execution_ref ref))) a
        t (ground arith) (ground arith)
        (trim_space-IsStated c (ground arith), is_completion_lem next (ground arith)) (ground arith)

  pub claim_assignment-Called :
      (s : Store) (p id by : String) (a : Assignment) (t : Store)
      → Claims.claim_assignment env s p id by ≡ ok (a, t)
      → Called fingerprint env s t
  unfolding Claims.claim_assignment transact
  claim_assignment-Called s p id by a t h =
      command-Called s p id (host_claim (trim_space by)) a t (ground arith) (ground arith)
        (trim_space-IsStated by (ground arith)) (ground arith)

  pub release_assignment-Called :
      (s : Store) (p id by : String) (a : Assignment) (t : Store)
      → Claims.release_assignment env s p id by ≡ ok (a, t)
      → Called fingerprint env s t
  unfolding Claims.release_assignment transact
  release_assignment-Called s p id by a t h =
      command-Called s p id (host_release (trim_space by)) a t (ground arith) (ground arith)
        (trim_space-IsStated by (ground arith)) (ground arith)

  pub update_assignment_status-Called :
      (s : Store) (p id : String) (status : AssignmentStatus) (ref : ExecutionRef) (a : Assignment)
      (t : Store)
      → Claims.update_assignment_status env s p id status ref ≡ ok (a, t)
      → Called fingerprint env s t
  unfolding Claims.update_assignment_status transact
  update_assignment_status-Called s p id status ref a t h =
      let next = trimmed_status status in
      command-Called s p id (host_update_status next (normalize_execution_ref ref)) a t
        (ground arith) (ground arith) (is_progress_lem next (ground arith)) (ground arith)

  pub complete_assignment-Called :
      (s : Store) (p id : String) (status : AssignmentStatus) (ref : ExecutionRef) (a : Assignment)
      (t : Store)
      → Claims.complete_assignment env s p id status ref ≡ ok (a, t)
      → Called fingerprint env s t
  unfolding Claims.complete_assignment transact
  complete_assignment-Called s p id status ref a t h =
      let next = completed_or status in
      command-Called s p id (host_complete next (normalize_execution_ref ref)) a t (ground arith)
        (ground arith) (is_completion_lem next (ground arith)) (ground arith)

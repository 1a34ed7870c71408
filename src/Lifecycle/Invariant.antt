-- ===== src/Lifecycle/Invariant.antt =====
-- The claim of an assignment under the commands.
use cairnline.Base.{◌≡◌, subst, String, ok, arith, >>=-eq-ok, conflict}
use cairnline.Model.Clock.{Time, Duration}
use cairnline.Model.Assignment.{Assignment, AssignmentPreparation}
use cairnline.Lifecycle.Status.{is_terminal}
use cairnline.Lifecycle.Validate.{validate_assignment_claim_state}
use cairnline.Lifecycle.Refines.{reject-eq-ok}
use cairnline.Lifecycle.Validity.{IsWellClaimed, validate_iff}
use cairnline.Lifecycle.Stamp.{attach_execution, attach_snapshot, requeue}
use cairnline.Lifecycle.Fenced.{
  checked, claim_with_lease, renew_claim, recover_claim, prepare_with_claim, release_with_claim,
  update_status_with_claim, complete_with_claim,
}
use cairnline.Lifecycle.Host.{
  claim_unfenced, prepare_unfenced, release_unfenced, complete_unfenced, update_status_unfenced,
  update_queued,
}
use cairnline.Lifecycle.Commands.{
  renew, prepare, release, update_status, complete, Command, claim_lease, fenced, recover,
  host_claim, host_release, host_prepare, host_update_status, host_complete, edit_queued, change,
  change_fenced,
}

checked-IsWellClaimed : (a b : Assignment) → checked a ≡ ok b → IsWellClaimed b
checked-IsWellClaimed a b h =
    let inversion = >>=-eq-ok (validate_assignment_claim_state a) (λ _. ok a) h in
    subst (λ c. IsWellClaimed c) (ok-injective inversion.2) ((validate_iff a).0 valid)
  where
    ok-injective : {x y : Assignment} → ok x ≡ ok y → x ≡ y
    ok-injective e = cc

    valid : validate_assignment_claim_state a ≡ ok tt
    valid = (>>=-eq-ok (validate_assignment_claim_state a) (λ _. ok a) h).1

renew-IsWellClaimed :
    (c : String) (ttl : Duration) (now : Time) (a b : Assignment)
    → renew_claim c ttl now a ≡ ok b
    → IsWellClaimed a
    → IsWellClaimed b
unfolding renew_claim
renew-IsWellClaimed c ttl now a b h v = ground arith

edits-IsWellClaimed :
    (p : AssignmentPreparation) (now : Time) (a : Assignment)
    → IsWellClaimed a
    → IsWellClaimed (attach_snapshot p.context_snapshot_id (attach_execution p.execution_ref a))
unfolding attach_snapshot attach_execution
edits-IsWellClaimed p now a v = ground arith

-- Every command that succeeds keeps a well-claimed assignment well claimed.
pub change-IsWellClaimed :
    (c : Command) (now : Time) (a b : Assignment)
    → change c now a ≡ ok b
    → IsWellClaimed a
    → IsWellClaimed b
unfolding change change_fenced claim_with_lease recover_claim prepare_with_claim release_with_claim
    update_status_with_claim complete_with_claim claim_unfenced prepare_unfenced release_unfenced
    complete_unfenced update_status_unfenced update_queued requeue
change-IsWellClaimed (claim_lease by l ttl) now a b h v =
    checked-IsWellClaimed _ b (reject-eq-ok _ _ _ h).1
change-IsWellClaimed (fenced c (renew ttl)) now a b h v = renew-IsWellClaimed c ttl now a b h v
change-IsWellClaimed (fenced c (prepare p)) now a b h v =
    ground (arith, edits-IsWellClaimed p now a v)
change-IsWellClaimed (fenced c release) now a b h v = ground arith
change-IsWellClaimed (fenced c (update_status s r)) now a b h v =
    checked-IsWellClaimed _ b (reject-eq-ok _ _ _ h).1
change-IsWellClaimed (fenced c (complete s r)) now a b h v =
    checked-IsWellClaimed _ b
      (reject-eq-ok _ _ conflict (reject-eq-ok (is_terminal a.status) _ conflict h).1).1
change-IsWellClaimed (recover c) now a b h v = ground arith
change-IsWellClaimed (host_claim by) now a b h v = ground arith
change-IsWellClaimed (host_release by) now a b h v = ground arith
change-IsWellClaimed (host_prepare p) now a b h v = ground (arith, edits-IsWellClaimed p now a v)
change-IsWellClaimed (host_update_status s r) now a b h v =
    checked-IsWellClaimed _ b (reject-eq-ok _ _ _ h).1
change-IsWellClaimed (host_complete s r) now a b h v =
    checked-IsWellClaimed _ b (reject-eq-ok _ _ _ h).1
change-IsWellClaimed (edit_queued u) now a b h v = ground arith

-- ===== src/Lifecycle/Fence.antt =====
-- The claim fence (`assignmentClaimAllowsMutation`) over histories of commands.
use cairnline.Base.{
  ◌<◌, ◌≡◌, ◌≢◌, refl, sym, String, false, Option, some, none, List, ok, err, conflict, arith,
  eq_iff, string_eq,
}
use cairnline.Model.Clock.{Time}
use cairnline.Model.Assignment.{
  AssignmentStatus, queued, claimed, AssignmentClaimLease, Assignment, ExecutionRef,
}
use cairnline.Lifecycle.History.{AllFine, run-keeps, run_refused}
use cairnline.Lifecycle.Refines.{
  update_status_unfenced-update_status_with_claim, complete_unfenced-complete_with_claim,
}
use cairnline.Lifecycle.Stamp.{
  claim_allows_mutation, claim_allows, requeue, attach_execution, attach_snapshot,
  retire_reservation, clear_claim_reservation, mark_started, mark_started_on_completion,
  mark_completed,
}
use cairnline.Lifecycle.Fenced.{
  claim_with_lease, renew_claim, recover_claim, prepare_with_claim, release_with_claim,
  update_status_with_claim, complete_with_claim, finished,
}
use cairnline.Lifecycle.Host.{
  claim_unfenced, prepare_unfenced, release_unfenced, complete_unfenced, update_status_unfenced,
  update_queued, advanced_at,
}
use cairnline.Lifecycle.Commands.{
  Fenced, renew, update_status, complete, Command, claim_lease, fenced, recover, host_update_status,
  host_complete, change, change_fenced, run,
}

-- The claim of `a`, if any, is not of generation `c`.
abbrev pub IsStaleIn : String → Option AssignmentClaimLease → Type 0
IsStaleIn c none = Unit
IsStaleIn c (some l) = l.id ≢ c

abbrev pub IsStale : String → Assignment → Type 0
IsStale c a = IsStaleIn c a.claim

fence-IsStale :
    (c : String) (now : Time) (a : Assignment) → IsStale c a → claim_allows_mutation a c now ≡ false
unfolding claim_allows_mutation
fence-IsStale c now a h = go a.claim h
  where
    go : (o : Option AssignmentClaimLease) → IsStaleIn c o → claim_allows a.status o c now ≡ false
    go none s = refl
    go (some l) s = ground (arith, eq_iff l.id c)

-- A refused fence is a conflict, whatever the worker asks for.
pub change_fenced-refused :
    (c : String) (m : Fenced) (now : Time) (a : Assignment)
    → claim_allows_mutation a c now ≡ false
    → change_fenced c m now a ≡ err conflict
unfolding change_fenced renew_claim prepare_with_claim release_with_claim update_status_with_claim
    complete_with_claim
change_fenced-refused c (renew ttl) now a h = ground arith
change_fenced-refused c m now a h = ground arith

-- No later claim of the history reuses the id `c`.
abbrev pub IsFreshFor : String → Command → Type 0
IsFreshFor c (claim_lease by l ttl) = l.id ≢ c
IsFreshFor c _ = Unit

abbrev pub AreFreshFor : String → List (Time × Command) → Type 0
AreFreshFor c = AllFine (λ now m. IsFreshFor c m)

update_status-IsStale :
    (c : String) (s : AssignmentStatus) (r : ExecutionRef) (now : Time) (a b : Assignment)
    → update_status_unfenced s r now a ≡ ok b
    → IsStale c a
    → IsStale c b
unfolding update_status_unfenced advanced_at mark_started attach_execution retire_reservation
    clear_claim_reservation
update_status-IsStale c s r now a b h f = ground arith

complete-IsStale :
    (c : String) (s : AssignmentStatus) (r : ExecutionRef) (now : Time) (a b : Assignment)
    → complete_unfenced s r now a ≡ ok b
    → IsStale c a
    → IsStale c b
unfolding complete_unfenced finished mark_started_on_completion mark_completed attach_execution
    retire_reservation clear_claim_reservation
complete-IsStale c s r now a b h f = ground arith

change-IsStale :
    (c : String) (m : Command) (now : Time) (a b : Assignment)
    → IsFreshFor c m
    → change m now a ≡ ok b
    → IsStale c a
    → IsStale c b
unfolding change change_fenced claim_with_lease renew_claim recover_claim prepare_with_claim
    release_with_claim claim_unfenced prepare_unfenced release_unfenced update_queued requeue
    attach_execution attach_snapshot
change-IsStale c (fenced d (renew ttl)) now a b f h s = ground arith
change-IsStale c (fenced d (update_status t r)) now a b f h s =
    update_status-IsStale c t r now a b
      (update_status_unfenced-update_status_with_claim t r d now a b h) s
change-IsStale c (fenced d (complete t r)) now a b f h s =
    complete-IsStale c t r now a b (complete_unfenced-complete_with_claim t r d now a b h) s
change-IsStale c (fenced d m) now a b f h s = ground arith
change-IsStale c (host_update_status t r) now a b f h s = update_status-IsStale c t r now a b h s
change-IsStale c (host_complete t r) now a b f h s = complete-IsStale c t r now a b h s
change-IsStale c m now a b f h s = ground arith

-- Once a claim's generation is gone, and no later claim reuses its id, no history lets a worker
-- that still presents it change the assignment: every fenced command is a conflict.
pub stale_forever :
    (c : String) (m : Fenced) (a : Assignment) (cs : List (Time × Command)) (now : Time)
    → IsStale c a
    → AreFreshFor c cs
    → change_fenced c m now (run cs a) ≡ err conflict
stale_forever c m a cs now s f = change_fenced-refused c m now (run cs a) (
    fence-IsStale c now (run cs a) (
      run-keeps (IsStale c) (λ t d. IsFreshFor c d)
        (λ d t x y fresh _ h. change-IsStale c d t x y fresh h) cs a f s))

-- The reservation or the work that it has led to is still the holder's: the work has started, or
-- the deadline is ahead.
abbrev pub IsLiveAt : Time → AssignmentStatus → AssignmentClaimLease → Type 0
IsLiveAt now queued l = ⊥
IsLiveAt now claimed l = now < l.expires_at
IsLiveAt now _ l = Unit

-- The commands that other workers can send while `l` is live: any portable command but those that
-- present the id of `l`, each before the deadline if there is one.
abbrev pub IsIntrusion : AssignmentStatus → AssignmentClaimLease → Time → Command → Type 0
IsIntrusion s l now (fenced d m) = (d ≢ l.id) × IsLiveAt now s l
IsIntrusion s l now (claim_lease by k ttl) = IsLiveAt now s l
IsIntrusion s l now (recover d) = IsLiveAt now s l
IsIntrusion s l now _ = ⊥

intrusion_refused :
    (l : AssignmentClaimLease) (a : Assignment) (m : Command) (now : Time) (b : Assignment)
    → a.claim ≡ some l
    → IsIntrusion a.status l now m
    → change m now a ≡ ok b
    → ⊥
unfolding change claim_with_lease recover_claim
intrusion_refused l a (claim_lease by k ttl) now b e f h = ground arith
intrusion_refused l a (recover d) now b e f h = ground arith
intrusion_refused l a (fenced d m) now b e f h =
    let stale : IsStale d a = rw e (λ same. f.0 (sym same)) in
    cc (change_fenced-refused d m now a (fence-IsStale d now a stale), h)
intrusion_refused l a m now b e f h = absurd f

-- While a claim is live, the claims, recoveries and fenced commands that other workers send, each
-- before the deadline if there is one, leave the assignment as it is, in any order and number.
pub exclusive :
    (l : AssignmentClaimLease) (a : Assignment) (cs : List (Time × Command))
    → a.claim ≡ some l
    → AllFine (IsIntrusion a.status l) cs
    → run cs a ≡ a
exclusive l a cs e f =
    run_refused (IsIntrusion a.status l) a (λ m now b fine. intrusion_refused l a m now b e fine) cs
      f

-- ===== src/Examples/Store.antt =====
-- The store on the shop.
use cairnline.Base.{
  ◌≡◌, ◌⊎◌, refl, String, true, false, some, Result, ok, err, conflict, arith, eq_iff,
}
use cairnline.Base.Table
use cairnline.Base.Nested
use cairnline.Base.Trim.{trim_space, is_space}
use cairnline.Model.Handoff.{Handoff, HandoffFollowUpResult, created}
use cairnline.Model.Patch.{apply_patch, same_content}
use cairnline.Model.Memory.{MemoryEntry, MemoryCandidate}
use cairnline.Lifecycle.Validate.{validate_assignment_claim_state}
use cairnline.MemoryStore.State.{Store, new_store, require_work_item}
use cairnline.MemoryStore.Projects
use cairnline.MemoryStore.WorkItems
use cairnline.MemoryStore.Roles
use cairnline.MemoryStore.Assignments
use cairnline.MemoryStore.Handoffs
use cairnline.MemoryStore.Memory
use cairnline.MemoryStore.Accept
use cairnline.MemoryStore.Calls.{dispatch, replay_calls, delete_work_item}
use cairnline.MemoryStore.EditOnce.{edit_wins, AreBeaten}
use cairnline.MemoryStore.Idempotence.{accept_twice, key_reuse, accept_settles}
use cairnline.MemoryStore.Promotion.{promote_once}
use cairnline.MemoryStore.Deletion.{
  delete_work_item-Purged, delete_project-Purged, WorkItemPurged, ProjectPurged,
}
use cairnline.MemoryStore.Integrity.Defs.{IsConsistent}
use cairnline.MemoryStore.Integrity.Calls.{dispatch-IsConsistent, history-IsConsistent}
use cairnline.Examples.Data.{waiting}
use cairnline.Examples.Shop.{
  fingerprint, setup, shop, handoff, candidate, entry, acceptance, dismissal, value_or,
}

history-IsConsistent_example : IsConsistent shop
history-IsConsistent_example = history-IsConsistent fingerprint setup

shop-IsConsistent : IsConsistent shop
shop-IsConsistent = history-IsConsistent fingerprint setup

abbrev emptied : Store
emptied = value_or shop (WorkItems.delete_work_item shop "p1" "w1")

abbrev closed : Store
closed = value_or shop (Projects.delete_project shop "p1")

abbrev accept : String → Result (HandoffFollowUpResult × Store)
accept intent = Accept.accept_handoff_with_follow_up fingerprint shop (acceptance intent) "a2" 20 21

abbrev no_answer : HandoffFollowUpResult
no_answer = record { handoff = handoff; assignment = waiting; outcome = created; replayed = false }

-- The first acceptance: a new assignment "a2" follows.
abbrev accepted : HandoffFollowUpResult × Store
accepted = value_or (no_answer, shop) (accept "go on")

abbrev dismissed : Handoff × Store
dismissed = value_or (handoff, shop) (Handoffs.update_handoff shop "p1" "w1" "h1" dismissal 9)

abbrev promoted : MemoryCandidate × MemoryEntry × Store
promoted =
    value_or (candidate, entry "e1", shop)
      (Memory.promote_memory_candidate shop "p1" "m1" (entry "e1"))

-- Each of these calls succeeds.
runs :
    (WorkItems.delete_work_item shop "p1" "w1" ≡ ok emptied)
    × (Projects.delete_project shop "p1" ≡ ok closed)
    × (accept "go on" ≡ ok (accepted.0, accepted.1))
    × (Handoffs.update_handoff shop "p1" "w1" "h1" dismissal 9 ≡ ok (dismissed.0, dismissed.1))
    × (Memory.promote_memory_candidate shop "p1" "m1" (entry "e1")
        ≡ ok (promoted.0, promoted.1, promoted.2))
    × (dispatch fingerprint shop (delete_work_item "p1" "w1") ≡ ok emptied)
    × (Accept.request_hash fingerprint (acceptance "stop") ≡ "stop")
    × (Accept.request_hash fingerprint (acceptance "go on") ≡ "go on")
    × (Accept.receipt_key (acceptance "stop") ≡ Accept.receipt_key (acceptance "go on"))
unfolding replay_calls dispatch WorkItems.delete_work_item new_store Projects.create_project
    Roles.create_role WorkItems.create_work_item Assignments.create_assignment
    Handoffs.create_handoff Handoffs.validate_handoff Memory.create_memory_candidate
    require_work_item validate_assignment_claim_state Projects.delete_project
    Accept.accept_handoff_with_follow_up Accept.accept_first Handoffs.find_handoff
    Accept.create_follow_up Accept.receipt_key Accept.request_hash Accept.request_payload
    Handoffs.update_handoff Handoffs.edit_handoff apply_patch same_content
    Memory.promote_memory_candidate trim_space is_space Table.empty Table.get Table.put Nested.get
    Nested.put Nested.within
runs = (refl, refl, refl, refl, refl, refl, refl, refl, refl)

dispatch-IsConsistent_example : IsConsistent emptied
dispatch-IsConsistent_example =
    dispatch-IsConsistent fingerprint shop (delete_work_item "p1" "w1") emptied runs.5
      shop-IsConsistent

delete_work_item-Purged_example : WorkItemPurged "p1" "w1" shop emptied
delete_work_item-Purged_example = delete_work_item-Purged shop "p1" "w1" emptied runs.0

delete_project-Purged_example : ProjectPurged "p1" shop closed
delete_project-Purged_example = delete_project-Purged shop "p1" closed runs.1

accept_twice_example :
    Accept.accept_handoff_with_follow_up fingerprint accepted.1 (acceptance "go on") "a3" 30 31
    ≡ ok (record accepted.0 { replayed = true }, accepted.1)
accept_twice_example =
    accept_twice fingerprint shop (acceptance "go on") "a2" "a3" 20 21 30 31 accepted.0 accepted.1
      shop-IsConsistent runs.2

key_reuse_example :
    Accept.accept_handoff_with_follow_up fingerprint accepted.1 (acceptance "stop") "a3" 30 31
    ≡ err conflict
key_reuse_example =
    key_reuse fingerprint shop (acceptance "go on") (acceptance "stop") "a2" "a3" 20 21 30 31
      accepted.0 accepted.1 shop-IsConsistent runs.2 runs.8
      (rw (runs.6, runs.7) (ground (arith, eq_iff "stop" "go on")))

edit_wins_example : (dismissed.1 ≡ shop) ⊎ AreBeaten dismissed.1 "p1" "w1" "h1" 6
edit_wins_example = edit_wins shop "p1" "w1" "h1" dismissal 9 dismissed.0 dismissed.1 runs.3

promote_once_example :
    Memory.promote_memory_candidate promoted.2 "p1" "m1" (entry "e2")
    ≡ ok (promoted.0, promoted.1, promoted.2)
promote_once_example =
    promote_once shop "p1" "m1" (entry "e1") (entry "e2") promoted.0 promoted.1 promoted.2
      (ground (arith, eq_iff "e1" "")) runs.4

accept_settles_example :
    (Accept.is_settled accepted.0.handoff accepted.0.assignment ≡ true)
    × (Nested.get "p1" accepted.0.handoff.id accepted.1.handoffs ≡ some accepted.0.handoff)
    × (Nested.get "p1" accepted.0.assignment.id accepted.1.assignments ≡ some accepted.0.assignment)
accept_settles_example =
    accept_settles fingerprint shop (acceptance "go on") "a2" 20 21 accepted.0 accepted.1
      shop-IsConsistent runs.2

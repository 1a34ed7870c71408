-- ===== src/Reports/Ready.antt =====
-- When a closeout is ready, said without counts and texts.
use cairnline.Base.{
  ℕ, String, Bool, true, false, not, ◌&&◌, ◌||◌, List, [], ◌∷◌, ◌++◌, ◌≡◌, ◌↔◌, inl, inr, refl,
  arith, ltb, ◌==◌, string_eq, Bool-cases,
}
use cairnline.Base.Lists.{any, count, filter, map, length, any-append, any-false_iff}
use cairnline.Base.Sorting.{Has}
use cairnline.Base.Text.{has_ink}
use cairnline.Base.Texts.{is_nil-unique_readiness_strings}
use cairnline.Base.Trim.{is_space}
use cairnline.Model.Assignment.{Assignment, AssignmentStatus, status_eq as assignment_status_eq}
use cairnline.Model.Collaboration.{Evidence, Review}
use cairnline.Model.Handoff.{Handoff, status_eq as handoff_status_eq}
use cairnline.Model.Work.{WorkItem}
use cairnline.Reports.FollowUps.{closeout_status, assignments_by_id, review_follow_ups, when_any}
use cairnline.Reports.Closeout.{
  has_closeout_evidence, work_item_closed, misses_evidence, is_open, is_unresolved,
  is_active_closeout_assignment_status, count_assignments, work_blockers, closeout_blockers, settle,
  already_done, ready_to_close, evaluate_closeout_readiness,
}
use cairnline.Reports.Answered.{is_answered, reviews-answered}
use cairnline.Reports.Texts.{stays, when_any-stays, review_follow_ups-stays}

pub record MayClose (item : WorkItem) (assignments : List Assignment) (evidence : List Evidence)
    (reviews : List Review) (handoffs : List Handoff) : Type 0 where
  pub unclosed : work_item_closed item.status ≡ false
  pub finished :
      (a : Assignment)
      → Has a assignments
      → (closeout_status a ≡ AssignmentStatus.completed) × (has_closeout_evidence a evidence ≡ true)
  pub settled : (h : Handoff) → Has h handoffs → is_open h ≡ false
  pub answered :
      (r : Review) → Has r reviews → is_answered handoffs (assignments_by_id assignments) r ≡ true

-- The four counts of assignments are those of one test.
status-completed :
    (s : AssignmentStatus)
    → (is_active_closeout_assignment_status s
        || (s == AssignmentStatus.failed)
        || (s == AssignmentStatus.cancelled)
        || is_unresolved s)
      ≡ not (s == AssignmentStatus.completed)
status-completed s = ground arith

-- An assignment that blocks the closeout.
abbrev is_loose : List Evidence → Assignment → Bool
is_loose evidence a =
    not (closeout_status a == AssignmentStatus.completed) || not (has_closeout_evidence a evidence)

assignments-loose :
    (assignments : List Assignment) (evidence : List Evidence)
    → (ltb 0 (count_assignments assignments is_active_closeout_assignment_status)
        || ltb 0 (count_assignments assignments (λ s. s == AssignmentStatus.failed))
        || ltb 0 (count_assignments assignments (λ s. s == AssignmentStatus.cancelled))
        || ltb 0 (count_assignments assignments is_unresolved)
        || ltb 0 (length (filter (misses_evidence evidence) assignments)))
      ≡ any (is_loose evidence) assignments
unfolding count_assignments count filter any misses_evidence
assignments-loose [] evidence = refl
assignments-loose (a ∷ rest) evidence =
    ground (arith, assignments-loose rest evidence, status-completed (closeout_status a))

open-length :
    (handoffs : List Handoff) → ltb 0 (length (filter is_open handoffs)) ≡ any is_open handoffs
unfolding filter any
open-length [] = refl
open-length (h ∷ rest) = ground (arith, open-length rest)

then_when_any :
    (xs : List String) (n : ℕ) (singular plural : String)
    → has_ink plural ≡ true
    → any stays (xs ++ when_any n singular plural) ≡ (any stays xs || ltb 0 n)
then_when_any xs n singular plural h =
    rw (any-append stays xs (when_any n singular plural), when_any-stays n singular plural h) refl

work_blockers-tests :
    (assignments : List Assignment) (evidence : List Evidence) (handoffs : List Handoff)
    → any stays (work_blockers assignments evidence handoffs)
      ≡ (any (is_loose evidence) assignments || any is_open handoffs)
unfolding work_blockers is_space
work_blockers-tests assignments evidence handoffs =
    rw
      (
        then_when_any _ (length (filter (misses_evidence evidence) assignments))
            "completed assignment is missing evidence" "completed assignments are missing evidence"
            refl,
        then_when_any _ (length (filter is_open handoffs)) "handoff is open" "handoffs are open"
            refl,
        then_when_any _ (count_assignments assignments is_unresolved) "assignment is not complete"
            "assignments are not complete" refl,
        then_when_any _ (count_assignments assignments (λ s. s == AssignmentStatus.cancelled))
            "assignment was cancelled" "assignments were cancelled" refl,
        then_when_any _ (count_assignments assignments (λ s. s == AssignmentStatus.failed))
            "assignment failed" "assignments failed" refl,
        when_any-stays (count_assignments assignments is_active_closeout_assignment_status)
            "assignment is still active" "assignments are still active" refl,
      )
      (ground (arith, assignments-loose assignments evidence, open-length handoffs))

-- The blockers in one test.
blockers-tests :
    (quote : String → String) (assignments : List Assignment) (evidence : List Evidence)
    (reviews : List Review) (handoffs : List Handoff)
    → any stays (closeout_blockers quote assignments evidence reviews handoffs) ≡ (
        any (is_loose evidence) assignments
        || any is_open handoffs
        || any (λ r. not (is_answered handoffs (assignments_by_id assignments) r)) reviews)
unfolding closeout_blockers
blockers-tests quote assignments evidence reviews handoffs =
    let indexed = assignments_by_id assignments in
    rw
      (
        any-append stays (work_blockers assignments evidence handoffs)
            (map (λ f. f.blocker) (review_follow_ups quote reviews handoffs indexed)),
        work_blockers-tests assignments evidence handoffs,
        review_follow_ups-stays quote reviews handoffs indexed,
      )
      (ground (arith, reviews-answered quote reviews handoffs indexed))

ready-tests :
    (quote : String → String) (item : WorkItem) (assignments : List Assignment)
    (evidence : List Evidence) (reviews : List Review) (handoffs : List Handoff)
    → (evaluate_closeout_readiness quote item assignments evidence reviews handoffs).ready ≡ (
        not (work_item_closed item.status)
        && not (any stays (closeout_blockers quote assignments evidence reviews handoffs)))
unfolding evaluate_closeout_readiness settle already_done ready_to_close
ready-tests quote item assignments evidence reviews handoffs =
    let blockers = closeout_blockers quote assignments evidence reviews handoffs in
    elim (Bool-cases (work_item_closed item.status)) [
      | inl closed ↦ rw closed refl
      | inr unclosed ↦ rw unclosed (ground (arith, is_nil-unique_readiness_strings blockers))
    ]

loose-finished :
    (evidence : List Evidence) (a : Assignment)
    → (is_loose evidence a ≡ false) ↔ (
        (closeout_status a ≡ AssignmentStatus.completed)
        × (has_closeout_evidence a evidence ≡ true))
loose-finished evidence a =
    ground (arith, assignment_status_eq.beq_iff (closeout_status a) AssignmentStatus.completed)

ready-parts :
    (quote : String → String) (item : WorkItem) (assignments : List Assignment)
    (evidence : List Evidence) (reviews : List Review) (handoffs : List Handoff)
    → ((evaluate_closeout_readiness quote item assignments evidence reviews handoffs).ready ≡ true)
      ↔ ((work_item_closed item.status ≡ false)
          × (any (is_loose evidence) assignments ≡ false)
          × (any is_open handoffs ≡ false)
          × (any (λ r. not (is_answered handoffs (assignments_by_id assignments) r)) reviews
              ≡ false))
ready-parts quote item assignments evidence reviews handoffs =
    rw
      (
        ready-tests quote item assignments evidence reviews handoffs,
        blockers-tests quote assignments evidence reviews handoffs,
      )
      (ground arith)

-- The readiness report calls a work item ready exactly when the item is neither done nor
-- cancelled, each of its assignments is completed and has evidence, none of its handoffs is open,
-- and each review that asks for changes is answered: one of the handoffs that name it has a
-- completed target, or none of them has a target and one is dismissed or superseded.
pub closeout_ready :
    (quote : String → String) (item : WorkItem) (assignments : List Assignment)
    (evidence : List Evidence) (reviews : List Review) (handoffs : List Handoff)
    → ((evaluate_closeout_readiness quote item assignments evidence reviews handoffs).ready ≡ true)
      ↔ MayClose item assignments evidence reviews handoffs
closeout_ready quote item assignments evidence reviews handoffs =
    let parts = ready-parts quote item assignments evidence reviews handoffs in
    let loose = any-false_iff (is_loose evidence) assignments in
    let opened = any-false_iff is_open handoffs in
    let indexed = assignments_by_id assignments in
    let unanswered = any-false_iff (λ r. not (is_answered handoffs indexed r)) reviews in
    (
      λ e. record {
        unclosed = (parts.0 e).0;
        finished = λ a h. (loose-finished evidence a).0 (loose.0 (parts.0 e).1 a h);
        settled = opened.0 (parts.0 e).2;
        answered = λ r h. ground (arith, unanswered.0 (parts.0 e).3 r h);
      },
      λ m. parts.1 (
        m.unclosed,
        loose.1 (λ a h. (loose-finished evidence a).1 (m.finished a h)),
        opened.1 m.settled,
        unanswered.1 (λ r h. ground (arith, m.answered r h)),
      ),
    )

-- ===== src/Reports/FollowUps.antt =====
-- Review follow-ups of internal/core/closeout_readiness.go: what a review that asks for changes
-- waits for.
-- `fmt`'s quoting verb is a parameter: it depends on Unicode's table of printable characters.
use Prim.Native.String.{◌++◌}
use cairnline.Base.{
  ℕ, String, Bool, true, false, not, ◌&&◌, ◌||◌, List, [], ◌∷◌, Option, none, some, if◌then◌else◌,
  ◌==◌, ltb, nat_eq, string_eq,
}
use cairnline.Base.Lists.{is_nil, filter, any}
use cairnline.Base.Table
use cairnline.Base.Table.{Table}
use cairnline.Base.Text.{decimal, first_non_empty}
use cairnline.Base.Trim.{trim_space}
use cairnline.Model.Assignment
use cairnline.Model.Assignment.{Assignment, AssignmentStatus, status_eq as assignment_status_eq}
use cairnline.Model.Collaboration.{Review}
use cairnline.Model.Handoff
use cairnline.Model.Handoff.{Handoff, HandoffStatus, status_eq as handoff_status_eq}

pub record ReviewFollowUpReadiness : Type 0 where
  pub artifact_id : String
  pub title : String
  pub status : String
  pub blocker : String
  pub reviewed_assignment_id : String
  pub review_verdict : String
  pub review_risk : String

-- `assignmentsByID`: the last of two assignments with one id stays.
unfoldable index_assignments : Table String Assignment → List Assignment → Table String Assignment
unfolding Table.put
index_assignments out [] = out
index_assignments out (a ∷ rest) = index_assignments (Table.put a.id a out) rest

unfoldable pub assignments_by_id : List Assignment → Table String Assignment
unfolding index_assignments Table.empty
assignments_by_id assignments = index_assignments Table.empty assignments

-- `assignmentCloseoutStatus`
abbrev pub closeout_status : Assignment → AssignmentStatus
closeout_status a = Assignment.trimmed_status a.status

-- `reviewRequiresFollowUp`
unfoldable pub review_requires_follow_up : Review → Bool
review_requires_follow_up review =
    trim_space review.verdict == "changes_requested" || trim_space review.verdict == "blocked"

-- A handoff that names the review among its artifacts.
unfoldable pub is_linked : Review → Handoff → Bool
unfolding any
is_linked review h = any (λ id. trim_space id == review.id) h.linked_artifact_ids

-- What the loop over the linked handoffs of `reviewFollowUpBlocker` collects.
pub record FollowUp : Type 0 where
  pub has_target_assignment : Bool
  pub has_completed_target : Bool
  pub has_dismissed_or_superseded : Bool

abbrev pub is_completed : Option Assignment → Bool
is_completed none = false
is_completed (some a) = closeout_status a == AssignmentStatus.completed

abbrev pub is_dismissed_or_superseded : HandoffStatus → Bool
is_dismissed_or_superseded HandoffStatus.dismissed = true
is_dismissed_or_superseded HandoffStatus.superseded = true
is_dismissed_or_superseded _ = false

-- One round: the switch on the status, then the target assignment.
unfoldable pub note_handoff : Table String Assignment → Handoff → FollowUp → FollowUp
unfolding Table.get
note_handoff assignments h f = record {
  has_target_assignment = f.has_target_assignment || not (trim_space h.target_assignment_id == "");
  has_completed_target =
      f.has_completed_target
      || (not (trim_space h.target_assignment_id == "")
          && is_completed (Table.get (trim_space h.target_assignment_id) assignments));
  has_dismissed_or_superseded =
      f.has_dismissed_or_superseded || is_dismissed_or_superseded (Handoff.trimmed_status h.status);
}

-- The loop; an open handoff ends it, and the answer is `none` then.
unfoldable pub follow_up : Table String Assignment → List Handoff → FollowUp → Option FollowUp
unfolding note_handoff
follow_up assignments [] f = some f
follow_up assignments (h ∷ rest) f =
    let more = follow_up assignments rest (note_handoff assignments h f) in
    if Handoff.trimmed_status h.status == HandoffStatus.opened then none else more

abbrev pub nothing_noted : FollowUp
nothing_noted = record {
  has_target_assignment = false;
  has_completed_target = false;
  has_dismissed_or_superseded = false;
}

-- `readinessPlural`
unfoldable pub readiness_plural : ℕ → String → String → String
readiness_plural n singular plural = if n == 1 then "1 " ++ singular else decimal n ++ " " ++ plural

-- `if n > 0 { append(…) }`
abbrev pub when_any : ℕ → String → String → List String
when_any n singular plural = if ltb 0 n then readiness_plural n singular plural ∷ [] else []

module _ (quote : String → String) where
  abbrev pub after_loop : String → Option FollowUp → String
  after_loop title none = "Review follow-up " ++ quote title ++ " has an open handoff"
  after_loop title (some f) =
      if f.has_completed_target
      then ""
      else if f.has_target_assignment
      then "Review follow-up " ++ quote title ++ " assignment is not completed"
      else if f.has_dismissed_or_superseded
      then ""
      else "Review follow-up " ++ quote title ++ " is not triaged"

  -- `reviewFollowUpBlocker`
  unfoldable pub review_follow_up_blocker : Review → List Handoff → Table String Assignment → String
  unfolding filter follow_up review_requires_follow_up
  review_follow_up_blocker review handoffs assignments =
      let title = first_non_empty review.title review.id in
      let linked = filter (is_linked review) handoffs in
      if not (review_requires_follow_up review)
      then ""
      else if is_nil linked
      then "Review follow-up " ++ quote title ++ " is not triaged"
      else after_loop title (follow_up assignments linked nothing_noted)

  -- The reviews with a blocker.
  unfoldable pub review_follow_ups :
      List Review → List Handoff → Table String Assignment → List ReviewFollowUpReadiness
  unfolding review_follow_up_blocker
  review_follow_ups [] handoffs assignments = []
  review_follow_ups (r ∷ rest) handoffs assignments =
      let blocker = review_follow_up_blocker r handoffs assignments in
      let more = review_follow_ups rest handoffs assignments in
      let one : ReviewFollowUpReadiness = record {
        artifact_id = r.id;
        title = first_non_empty r.title r.id;
        status = "needs_path";
        blocker = blocker;
        reviewed_assignment_id = r.assignment_id;
        review_verdict = r.verdict;
        review_risk = r.risk;
      } in
      if blocker == "" then more else one ∷ more

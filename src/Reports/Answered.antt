-- ===== src/Reports/Answered.antt =====
-- When a review stops blocking a closeout, said without texts.
use Prim.Native.String.{◌++◌}
use cairnline.Base.{
  String, Bool, false, not, ◌&&◌, ◌||◌, some, List, [], ◌∷◌, ◌≡◌, inl, inr, refl, arith, ◌==◌,
  string_eq, Bool-cases, if◌then◌else◌,
}
use cairnline.Base.Lists.{any, filter, is_nil, any-filter}
use cairnline.Base.Table
use cairnline.Base.Table.{Table}
use cairnline.Base.Text.{first_non_empty}
use cairnline.Base.Trim.{trim_space}
use cairnline.Model.Assignment.{Assignment, status_eq as assignment_status_eq}
use cairnline.Model.Collaboration.{Review}
use cairnline.Model.Handoff
use cairnline.Model.Handoff.{Handoff, HandoffStatus, status_eq as handoff_status_eq}
use cairnline.Reports.FollowUps.{
  FollowUp, is_completed, is_dismissed_or_superseded, note_handoff, follow_up, nothing_noted,
  after_loop, review_follow_up_blocker, review_requires_follow_up, is_linked,
}
use cairnline.Reports.Closeout.{is_open}
use cairnline.Reports.Texts.{blocker-filled}

-- A handoff that names a target assignment, and one whose target is completed.
abbrev has_target : Handoff → Bool
has_target h = not (trim_space h.target_assignment_id == "")

unfoldable is_met : Table String Assignment → Handoff → Bool
unfolding Table.get
is_met assignments h =
    has_target h && is_completed (Table.get (trim_space h.target_assignment_id) assignments)

abbrev is_dropped : Handoff → Bool
is_dropped h = is_dismissed_or_superseded (Handoff.trimmed_status h.status)

-- A review that asks for nothing, or one of whose handoffs has a completed target, or whose
-- handoffs have no target and one of which is dismissed or superseded.
unfoldable pub is_answered : List Handoff → Table String Assignment → Review → Bool
unfolding is_met any filter review_requires_follow_up is_linked
is_answered handoffs assignments review =
    let linked = filter (is_linked review) handoffs in
    not (review_requires_follow_up review)
    || any (is_met assignments) linked
    || (not (any has_target linked) && any is_dropped linked)

-- What the loop has collected when it meets no open handoff.
abbrev noted : Table String Assignment → List Handoff → FollowUp → FollowUp
noted assignments linked f = record {
  has_target_assignment = f.has_target_assignment || any has_target linked;
  has_completed_target = f.has_completed_target || any (is_met assignments) linked;
  has_dismissed_or_superseded = f.has_dismissed_or_superseded || any is_dropped linked;
}

follow_up-closed :
    (assignments : Table String Assignment) (linked : List Handoff) (f : FollowUp)
    → any is_open linked ≡ false
    → follow_up assignments linked f ≡ some (noted assignments linked f)
unfolding follow_up note_handoff any is_open is_met
follow_up-closed assignments [] f h = ground arith
follow_up-closed assignments (x ∷ rest) f h =
    ground (arith, follow_up-closed assignments rest (note_handoff assignments x f) (ground arith))

after_loop-answered :
    (quote : String → String) (title : String) (f : FollowUp)
    → (after_loop quote title (some f) == "")
      ≡ (f.has_completed_target || (not f.has_target_assignment && f.has_dismissed_or_superseded))
after_loop-answered quote title f = elim (Bool-cases f.has_completed_target) [
  | inl met ↦ rw met refl
  | inr unmet ↦ rw unmet (elim (Bool-cases f.has_target_assignment) [
    | inl target ↦ rw target (blocker-filled (quote title ++ " assignment is not completed"))
    | inr no_target ↦ rw no_target (elim (Bool-cases f.has_dismissed_or_superseded) [
      | inl dropped ↦ rw dropped refl
      | inr pending ↦ rw pending (blocker-filled (quote title ++ " is not triaged"))
    ])
  ])
]

nil-answered :
    (quote : String → String) (title : String) (assignments : Table String Assignment)
    (linked : List Handoff)
    → ((if is_nil linked
          then "Review follow-up " ++ quote title ++ " is not triaged"
          else after_loop quote title (some (noted assignments linked nothing_noted)))
        == "")
      ≡ (any (is_met assignments) linked || (not (any has_target linked) && any is_dropped linked))
unfolding any
nil-answered quote title assignments [] = blocker-filled (quote title ++ " is not triaged")
nil-answered quote title assignments (h ∷ rest) =
    after_loop-answered quote title (noted assignments (h ∷ rest) nothing_noted)

-- While no handoff is open, a review blocks just when it is not answered.
blocker-answered :
    (quote : String → String) (review : Review) (handoffs : List Handoff)
    (assignments : Table String Assignment)
    → any is_open handoffs ≡ false
    → (review_follow_up_blocker quote review handoffs assignments == "")
      ≡ is_answered handoffs assignments review
unfolding review_follow_up_blocker is_answered
blocker-answered quote review handoffs assignments h =
    let linked = filter (is_linked review) handoffs in
    let closed = any-filter is_open (is_linked review) handoffs h in
    let title = first_non_empty review.title review.id in
    elim (Bool-cases (review_requires_follow_up review)) [
      | inl asked ↦
          rw (asked, follow_up-closed assignments linked nothing_noted closed)
            (nil-answered quote title assignments linked)
      | inr unasked ↦ rw unasked refl
    ]

-- Reviews block none while each of them is answered.
pub reviews-answered :
    (quote : String → String) (reviews : List Review) (handoffs : List Handoff)
    (assignments : Table String Assignment)
    → any is_open handoffs ≡ false
    → any (λ r. not (review_follow_up_blocker quote r handoffs assignments == "")) reviews
      ≡ any (λ r. not (is_answered handoffs assignments r)) reviews
unfolding any
reviews-answered quote [] handoffs assignments h = refl
reviews-answered quote (r ∷ rest) handoffs assignments h =
    rw
      (
        blocker-answered quote r handoffs assignments h,
        reviews-answered quote rest handoffs assignments h,
      )
      refl

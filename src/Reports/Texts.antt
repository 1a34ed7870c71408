-- ===== src/Reports/Texts.antt =====
-- The texts that block a closeout are never blank, so that none is dropped from the answer.
use Prim.Native.String.{◌++◌}
use cairnline.Base.{
  ℕ, String, Bool, true, false, not, Option, some, none, List, [], ◌∷◌, subst, nat_eq, ◌≡◌, inl,
  inr, refl, arith, ltb, ◌==◌, string_eq, eq_iff, Bool-cases,
}
use cairnline.Base.Lists.{any, filter, map, is_nil}
use cairnline.Base.Table.{Table}
use cairnline.Base.Text.{first_non_empty, has_ink, has_ink-append, is_blank-has_ink, decimal}
use cairnline.Base.Trim.{is_blank, is_space, trim_space, trim_left, trim_right}
use cairnline.Model.Assignment.{Assignment}
use cairnline.Model.Collaboration.{Review}
use cairnline.Model.Handoff.{Handoff}
use cairnline.Reports.FollowUps.{
  FollowUp, readiness_plural, when_any, after_loop, review_follow_up_blocker, review_follow_ups,
  review_requires_follow_up, is_linked, follow_up, nothing_noted,
}

-- A text that stays.
abbrev pub stays : String → Bool
stays s = not (is_blank s)

stays-prefix : (s t : String) → has_ink s ≡ true → stays (s ++ t) ≡ true
stays-prefix s t h = rw (is_blank-has_ink (s ++ t), has_ink-append s t, h) refl

stays-suffix : (r s t : String) → has_ink t ≡ true → stays (r ++ s ++ t) ≡ true
stays-suffix r s t h =
    rw (is_blank-has_ink (r ++ s ++ t), has_ink-append r (s ++ t), has_ink-append s t, h)
      (ground arith)

readiness_plural-stays :
    (n : ℕ) (singular plural : String)
    → has_ink plural ≡ true
    → stays (readiness_plural n singular plural) ≡ true
unfolding readiness_plural is_space
readiness_plural-stays n singular plural h = elim (Bool-cases (n == 1)) [
  | inl one ↦ rw one (stays-prefix "1 " singular refl)
  | inr many ↦ rw many (stays-suffix (decimal n) " " plural h)
]

pub when_any-stays :
    (n : ℕ) (singular plural : String)
    → has_ink plural ≡ true
    → any stays (when_any n singular plural) ≡ ltb 0 n
unfolding any
when_any-stays n singular plural h = ground (arith, readiness_plural-stays n singular plural h)

stays-filled : (s : String) → stays s ≡ true → (s == "") ≡ false
unfolding is_space trim_space trim_left trim_right
stays-filled s h = elim (Bool-cases (s == "")) [
  | inl empty ↦ cc (subst (λ t. stays t ≡ true) ((eq_iff s "").0 empty) h)
  | inr filled ↦ filled
]

pub blocker-filled : (t : String) → (("Review follow-up " ++ t) == "") ≡ false
unfolding is_space
blocker-filled t = stays-filled ("Review follow-up " ++ t) (stays-prefix "Review follow-up " t refl)

blocker-stays :
    (t : String) → stays ("Review follow-up " ++ t) ≡ not (("Review follow-up " ++ t) == "")
unfolding is_space
blocker-stays t = rw (stays-prefix "Review follow-up " t refl, blocker-filled t) refl

module _ (quote : String → String) where
  after_loop-stays :
      (title : String) (f : Option FollowUp)
      → stays (after_loop quote title f) ≡ not (after_loop quote title f == "")
  unfolding is_space trim_space trim_left trim_right
  after_loop-stays title none = blocker-stays (quote title ++ " has an open handoff")
  after_loop-stays title (some f) = elim (Bool-cases f.has_completed_target) [
    | inl met ↦ rw met refl
    | inr unmet ↦ rw unmet (elim (Bool-cases f.has_target_assignment) [
      | inl target ↦ rw target (blocker-stays (quote title ++ " assignment is not completed"))
      | inr no_target ↦ rw no_target (elim (Bool-cases f.has_dismissed_or_superseded) [
        | inl dropped ↦ rw dropped refl
        | inr pending ↦ rw pending (blocker-stays (quote title ++ " is not triaged"))
      ])
    ])
  ]

  review_follow_up_blocker-stays :
      (review : Review) (handoffs : List Handoff) (assignments : Table String Assignment)
      → stays (review_follow_up_blocker quote review handoffs assignments)
        ≡ not (review_follow_up_blocker quote review handoffs assignments == "")
  unfolding review_follow_up_blocker is_space trim_space trim_left trim_right
  review_follow_up_blocker-stays review handoffs assignments =
      elim (Bool-cases (review_requires_follow_up review)) [
        | inl asked ↦ rw asked (elim (Bool-cases (is_nil (filter (is_linked review) handoffs))) [
          | inl unlinked ↦ rw unlinked (blocker-stays (quote (title review) ++ " is not triaged"))
          | inr linked ↦ rw linked (
              after_loop-stays (title review)
                (follow_up assignments (filter (is_linked review) handoffs) nothing_noted))
        ])
        | inr unasked ↦ rw unasked refl
      ]
    where
      title : Review → String
      title r = first_non_empty r.title r.id

  pub review_follow_ups-stays :
      (reviews : List Review) (handoffs : List Handoff) (assignments : Table String Assignment)
      → any stays (map (λ f. f.blocker) (review_follow_ups quote reviews handoffs assignments))
        ≡ any (λ r. not (review_follow_up_blocker quote r handoffs assignments == "")) reviews
  unfolding review_follow_ups any map
  review_follow_ups-stays [] handoffs assignments = refl
  review_follow_ups-stays (r ∷ rest) handoffs assignments = ground (
    arith,
    review_follow_up_blocker-stays r handoffs assignments,
    review_follow_ups-stays rest handoffs assignments,
  )

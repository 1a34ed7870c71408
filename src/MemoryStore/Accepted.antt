-- ===== src/MemoryStore/Accepted.antt =====
-- What an accepted command that is not a repetition has found and done.
use cairnline.Base.{
  String, true, false, ◌||◌, some, ◌≡◌, ◌⊎◌, inl, inr, arith, ok, ◌==◌, string_eq, nat_eq,
  Result-cases, Option-cases, Bool-cases, is_some,
}
use cairnline.Base.Nested
use cairnline.Model.Clock.{Time}
use cairnline.Model.Work.{Role}
use cairnline.Model.Handoff.{
  Handoff, HandoffStatus, AcceptHandoffWithFollowUpCommand, HandoffFollowUpResult, status_eq,
}
use cairnline.MemoryStore.State.{Store}
use cairnline.MemoryStore.Handoffs.{find_handoff}
use cairnline.MemoryStore.Edits.{find_handoff-eq-ok}
use cairnline.MemoryStore.Accept.{
  RequestPayload, FollowUp, follow_up_for, conclude, accept_first, request_hash,
}
use cairnline.MemoryStore.FollowUps.{
  Linked, Created, link_existing-Linked, create_follow_up-Created,
}

follow_up-cases :
    (s : Store) (p : String) (h : Handoff) (role : Role) (new_id : String) (stamp : Time)
    (f : FollowUp)
    → follow_up_for s p h role new_id stamp ≡ ok f
    → Linked s p h f ⊎ Created s p h new_id f
follow_up-cases s p h role new_id stamp f e = elim (Bool-cases (h.target_assignment_id == "")) [
  | inl hit ↦ inr (create_follow_up-Created s p h role new_id stamp f (ground arith))
  | inr miss ↦ inl (link_existing-Linked s p h f (ground arith))
]

module _ (fingerprint : RequestPayload → String) where
  pub record AcceptedFirst (s : Store) (c : AcceptHandoffWithFollowUpCommand) (new_id : String)
      (now : Time) (r : HandoffFollowUpResult) (t : Store) : Type 0 where
    pub handoff : Handoff
    pub follow_up : FollowUp
    pub stored : Nested.get c.project_id c.handoff_id s.handoffs ≡ some handoff
    pub unseen : handoff.updated_at ≡ c.expected_updated_at
    pub open_status :
        (handoff.status == HandoffStatus.dismissed || handoff.status == HandoffStatus.superseded)
        ≡ false
    pub role_known : is_some (Nested.get c.project_id handoff.to_role_id s.roles) ≡ true
    pub followed :
        Linked s c.project_id handoff follow_up ⊎ Created s c.project_id handoff new_id follow_up
    pub concluded : conclude c (request_hash fingerprint c) now follow_up ≡ (r, t)

  pub accept_first-eq-ok :
      (s : Store) (c : AcceptHandoffWithFollowUpCommand) (new_id : String) (stamp now : Time)
      (r : HandoffFollowUpResult) (t : Store)
      → accept_first fingerprint s c new_id stamp now ≡ ok (r, t)
      → AcceptedFirst s c new_id now r t
  unfolding accept_first
  accept_first-eq-ok s c new_id stamp now r t e =
      elim (Result-cases (find_handoff s c.project_id c.work_item_id c.handoff_id)) [
        | inl (_, failed) ↦ ground arith
        | inr (h, found) ↦ elim (Option-cases (Nested.get c.project_id h.to_role_id s.roles)) [
          | inl absent ↦ ground arith
          | inr (role, known) ↦
              elim (Result-cases (follow_up_for s c.project_id h role new_id stamp)) [
                | inl (_, failed) ↦ ground arith
                | inr (f, followed) ↦ record {
                  handoff = h;
                  follow_up = f;
                  stored =
                      (find_handoff-eq-ok s c.project_id c.work_item_id c.handoff_id h found).0;
                  unseen = ground (arith, nat_eq);
                  open_status = ground arith;
                  role_known = ground arith;
                  followed = follow_up-cases s c.project_id h role new_id stamp f followed;
                  concluded = ground arith;
                }
              ]
        ]
      ]

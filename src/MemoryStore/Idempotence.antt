-- ===== src/MemoryStore/Idempotence.antt =====
-- Idempotency keys of `AcceptHandoffWithFollowUp`: repeated commands and keys used twice.
use cairnline.Base.{
  String, true, Option, some, none, ◌≡◌, ◌≢◌, ◌⊎◌, inl, inr, refl, sym, subst, ap, ◌∙◌, arith,
  Result, ok, err, conflict, eq_iff, string_eq, nat_eq, Result-cases,
}
use cairnline.Base.Table
use cairnline.Base.Nested
use cairnline.Model.Clock.{Time}
use cairnline.Model.Handoff.{
  Handoff, HandoffStatus, AcceptHandoffWithFollowUpCommand, FollowUpOutcome, already_satisfied,
  HandoffFollowUpResult, status_eq,
}
use cairnline.MemoryStore.State.{Store, Receipt, key_eq}
use cairnline.MemoryStore.Accept.{
  RequestPayload, FollowUp, conclude, settle, accepted_at, store_settled, request_hash, answer,
  replay, is_settled, accept_first, accept_handoff_with_follow_up, receipt_key,
}
use cairnline.MemoryStore.FollowUps.{Linked, Created}
use cairnline.MemoryStore.Accepted.{accept_first-eq-ok}
use cairnline.MemoryStore.Integrity.Defs.{IsConsistent}
use cairnline.MemoryStore.Integrity.Accept.{accept_handoff-IsConsistent}

-- The handoff points at its follow-up, and both are in the store, the handoff once it is settled.
record Ready (p id : String) (f : FollowUp) : Type 0 where
  own_id : f.current.id ≡ id
  assignment_id : f.current.target_assignment_id ≡ f.assignment.id
  work_item_id : f.current.target_work_item_id ≡ f.assignment.work_item_id
  role_id : f.current.to_role_id ≡ f.assignment.role_id
  stored : Nested.get p f.assignment.id f.store.assignments ≡ some f.assignment
  satisfied :
      f.outcome ≡ already_satisfied
      → (f.current.status ≡ HandoffStatus.accepted)
        × (Nested.get p id f.store.handoffs ≡ some f.current)

Linked-Ready :
    (s : Store) (p id : String) (h : Handoff) (f : FollowUp)
    → IsConsistent s
    → Nested.get p id s.handoffs ≡ some h
    → Linked s p h f
    → Ready p id f
Linked-Ready s p id h f v e l =
    let own = v.assignments p h.target_assignment_id f.assignment l.found in
    record {
      own_id = rw l.current ((v.handoffs p id h e).own_id);
      assignment_id = rw l.current (sym own.own_id);
      work_item_id = rw l.current refl;
      role_id = rw l.current (sym l.role);
      stored =
          rw l.store (
            subst (λ k. Nested.get p k s.assignments ≡ some f.assignment) (sym own.own_id) l.found);
      satisfied = λ same.
          let met = l.satisfied same in
          let whole : f.current ≡ h =
            l.current ∙ ap (λ w. record h { target_work_item_id = w }) (sym met.1) in
          (
            ap (λ x. x.status) whole ∙ (status_eq.beq_iff h.status HandoffStatus.accepted).0 met.0,
            rw (l.store, whole) e,
          );
    }

Created-Ready :
    (s : Store) (p id new_id : String) (h : Handoff) (f : FollowUp)
    → IsConsistent s
    → Nested.get p id s.handoffs ≡ some h
    → Created s p h new_id f
    → Ready p id f
Created-Ready s p id new_id h f v e n = record {
  own_id = rw n.current ((v.handoffs p id h e).own_id);
  assignment_id = rw n.current (sym n.id);
  work_item_id = rw n.current (sym n.work_item_id);
  role_id = rw n.current (sym n.role);
  stored = rw n.store (
      subst
        (λ k. Nested.get p k (Nested.put p new_id f.assignment s.assignments) ≡ some f.assignment)
        (sym n.id) (Nested.get-put_same p new_id f.assignment s.assignments));
  satisfied = λ same. ground arith;
}

settled-is_settled :
    (p id : String) (f : FollowUp) (now : Time) (o : FollowUpOutcome)
    → f.outcome ≡ o
    → Ready p id f
    → is_settled (settle o f.current now) f.assignment ≡ true
unfolding is_settled accepted_at
settled-is_settled p id f now already_satisfied e d = ground (
  arith,
  d.satisfied e,
  eq_iff f.current.target_assignment_id f.assignment.id,
  eq_iff f.current.target_work_item_id f.assignment.work_item_id,
  eq_iff f.current.to_role_id f.assignment.role_id,
)
settled-is_settled p id f now o e d = ground (
  arith,
  d.assignment_id,
  d.work_item_id,
  d.role_id,
  eq_iff f.current.target_assignment_id f.assignment.id,
  eq_iff f.current.target_work_item_id f.assignment.work_item_id,
  eq_iff f.current.to_role_id f.assignment.role_id,
)

settled-stored :
    (p id : String) (f : FollowUp) (now : Time) (o : FollowUpOutcome)
    → f.outcome ≡ o
    → Ready p id f
    → (Nested.get p
          (settle o f.current now).id
          (store_settled o p id (settle o f.current now) f.store).handoffs
        ≡ some (settle o f.current now))
      × (Nested.get p f.assignment.id
            (store_settled o p id (settle o f.current now) f.store).assignments
          ≡ some f.assignment)
unfolding accepted_at
settled-stored p id f now already_satisfied e d = (
  subst (λ k. Nested.get p k f.store.handoffs ≡ some f.current) (sym d.own_id) (d.satisfied e).1,
  d.stored,
)
settled-stored p id f now o e d = (
  subst
      (λ k.
        Nested.get p k (Nested.put p id (accepted_at f.current now) f.store.handoffs)
        ≡ some (accepted_at f.current now))
      (sym d.own_id) (Nested.get-put_same p id (accepted_at f.current now) f.store.handoffs),
  d.stored,
)

module _ (fingerprint : RequestPayload → String) where
  -- The store holds a receipt of the command, and the receipt is good for the answer `r`.
  record Receipted (s : Store) (c : AcceptHandoffWithFollowUpCommand) (r : HandoffFollowUpResult)
      : Type 0 where
    receipt : Receipt
    found : Table.get (receipt_key c) s.receipts ≡ some receipt
    hash : receipt.request_hash ≡ request_hash fingerprint c
    again : replay s c receipt.result ≡ ok (record r { replayed = true })

  conclude-Receipted :
      (c : AcceptHandoffWithFollowUpCommand) (now : Time) (f : FollowUp)
      → Ready c.project_id c.handoff_id f
      → (let done = conclude c (request_hash fingerprint c) now f in Receipted done.1 c done.0)
  unfolding conclude replay
  conclude-Receipted c now f d =
      let stored = settled-stored c.project_id c.handoff_id f now f.outcome refl d in
      record {
        receipt = record {
          request_hash = request_hash fingerprint c;
          result = (conclude c (request_hash fingerprint c) now f).0;
        };
        found =
            Table.get-put_same (receipt_key c)
              (record {
                request_hash = request_hash fingerprint c;
                result = (conclude c (request_hash fingerprint c) now f).0;
              })
              (store_settled f.outcome c.project_id c.handoff_id (settle f.outcome f.current now)
                f.store).receipts;
        hash = refl;
        again = ground (
          arith,
          stored.0,
          stored.1,
          settled-is_settled c.project_id c.handoff_id f now f.outcome refl d,
        );
      }

  first-Receipted :
      (s : Store) (c : AcceptHandoffWithFollowUpCommand) (new_id : String) (stamp now : Time)
      (r : HandoffFollowUpResult) (t : Store)
      → IsConsistent s
      → accept_first fingerprint s c new_id stamp now ≡ ok (r, t)
      → Receipted t c r
  first-Receipted s c new_id stamp now r t v e =
      let facts = accept_first-eq-ok fingerprint s c new_id stamp now r t e in
      let ready : Ready c.project_id c.handoff_id facts.follow_up = elim facts.followed [
        | inl l ↦
            Linked-Ready s c.project_id c.handoff_id facts.handoff facts.follow_up v facts.stored l
        | inr n ↦
            Created-Ready s c.project_id c.handoff_id new_id facts.handoff facts.follow_up v
              facts.stored n
      ] in
      subst (λ q. Receipted q.1 c q.0) facts.concluded
        (conclude-Receipted c now facts.follow_up ready)

  replay-replayed :
      (s : Store) (c : AcceptHandoffWithFollowUpCommand) (first r : HandoffFollowUpResult)
      → replay s c first ≡ ok r
      → record r { replayed = true } ≡ r
  unfolding replay
  replay-replayed s c first r e = ground arith

  answer-Receipted :
      (s : Store) (c : AcceptHandoffWithFollowUpCommand) (o : Option Receipt)
      (first : Result (HandoffFollowUpResult × Store)) (r : HandoffFollowUpResult) (t : Store)
      → Table.get (receipt_key c) s.receipts ≡ o
      → answer fingerprint s c o first ≡ ok (r, t)
      → Receipted t c r ⊎ (first ≡ ok (r, t))
  answer-Receipted s c none first r t k e = inr e
  answer-Receipted s c (some receipt) first r t k e =
      elim (Result-cases (replay s c receipt.result)) [
        | inl (_, failed) ↦ ground arith
        | inr (q, again) ↦
            let same : t ≡ s = ground arith in
            let answered : q ≡ r = ground arith in
            inl (
              subst (λ x. Receipted x c r) (sym same)
                (record {
                  receipt = receipt;
                  found = k;
                  hash = ground (arith, eq_iff receipt.request_hash (request_hash fingerprint c));
                  again =
                      again
                      ∙ ap ok (
                          answered
                          ∙ sym (replay-replayed s c receipt.result r (again ∙ ap ok answered)));
                }))
      ]

  accept-Receipted :
      (s : Store) (c : AcceptHandoffWithFollowUpCommand) (new_id : String) (stamp now : Time)
      (r : HandoffFollowUpResult) (t : Store)
      → IsConsistent s
      → accept_handoff_with_follow_up fingerprint s c new_id stamp now ≡ ok (r, t)
      → Receipted t c r
  unfolding accept_handoff_with_follow_up
  accept-Receipted s c new_id stamp now r t v e =
      elim (answer-Receipted s c (Table.get (receipt_key c) s.receipts)
        (accept_first fingerprint s c new_id stamp now) r t refl e) [
          | inl done ↦ done
          | inr first ↦ first-Receipted s c new_id stamp now r t v first
        ]

  -- On a consistent store, a command that has succeeded and is sent again at once gives the same
  -- answer, marked as replayed, whatever id and clock the second call brings, and writes nothing.
  pub accept_twice :
      (s : Store) (c : AcceptHandoffWithFollowUpCommand) (new_id other_id : String)
      (stamp now later_stamp later : Time) (r : HandoffFollowUpResult) (t : Store)
      → IsConsistent s
      → accept_handoff_with_follow_up fingerprint s c new_id stamp now ≡ ok (r, t)
      → accept_handoff_with_follow_up fingerprint t c other_id later_stamp later
        ≡ ok (record r { replayed = true }, t)
  unfolding accept_handoff_with_follow_up
  accept_twice s c new_id other_id stamp now later_stamp later r t v e =
      let known = accept-Receipted s c new_id stamp now r t v e in
      ground (
        arith,
        known.found,
        known.hash,
        known.again,
        eq_iff known.receipt.request_hash (request_hash fingerprint c),
      )

  -- On a consistent store, once a command has succeeded, another command under the same key whose
  -- request has another fingerprint is a conflict.
  pub key_reuse :
      (s : Store) (c d : AcceptHandoffWithFollowUpCommand) (new_id other_id : String)
      (stamp now later_stamp later : Time) (r : HandoffFollowUpResult) (t : Store)
      → IsConsistent s
      → accept_handoff_with_follow_up fingerprint s c new_id stamp now ≡ ok (r, t)
      → receipt_key d ≡ receipt_key c
      → request_hash fingerprint d ≢ request_hash fingerprint c
      → accept_handoff_with_follow_up fingerprint t d other_id later_stamp later ≡ err conflict
  unfolding accept_handoff_with_follow_up
  key_reuse s c d new_id other_id stamp now later_stamp later r t v e k other =
      let known = accept-Receipted s c new_id stamp now r t v e in
      let found : Table.get (receipt_key d) t.receipts ≡ some known.receipt = rw k known.found in
      ground (arith, known.hash, eq_iff known.receipt.request_hash (request_hash fingerprint d))

  replay-settled :
      (s : Store) (c : AcceptHandoffWithFollowUpCommand) (first r : HandoffFollowUpResult)
      → replay s c first ≡ ok r
      → (is_settled r.handoff r.assignment ≡ true)
        × (Nested.get c.project_id first.handoff.id s.handoffs ≡ some r.handoff)
        × (Nested.get c.project_id first.assignment.id s.assignments ≡ some r.assignment)
  unfolding replay
  replay-settled s c first r e = ground arith

  -- On a consistent store, an acceptance that succeeds answers with an accepted handoff of the
  -- follow-up assignment's role that points at this assignment and at its work item, and both are
  -- in the new store.
  pub accept_settles :
      (s : Store) (c : AcceptHandoffWithFollowUpCommand) (new_id : String) (stamp now : Time)
      (r : HandoffFollowUpResult) (t : Store)
      → IsConsistent s
      → accept_handoff_with_follow_up fingerprint s c new_id stamp now ≡ ok (r, t)
      → (is_settled r.handoff r.assignment ≡ true)
        × (Nested.get c.project_id r.handoff.id t.handoffs ≡ some r.handoff)
        × (Nested.get c.project_id r.assignment.id t.assignments ≡ some r.assignment)
  accept_settles s c new_id stamp now r t v e =
      let known = accept-Receipted s c new_id stamp now r t v e in
      let kept = accept_handoff-IsConsistent fingerprint s c new_id stamp now r t e v in
      let here =
        replay-settled t c known.receipt.result (record r { replayed = true }) known.again in
      (
        here.0,
        subst (λ k. Nested.get c.project_id k t.handoffs ≡ some r.handoff)
            (sym
              (kept.handoffs c.project_id known.receipt.result.handoff.id r.handoff here.1).own_id)
            here.1,
        subst (λ k. Nested.get c.project_id k t.assignments ≡ some r.assignment)
            (sym
              (kept.assignments c.project_id known.receipt.result.assignment.id r.assignment
                here.2).own_id)
            here.2,
      )

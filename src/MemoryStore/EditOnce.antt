-- ===== src/MemoryStore/EditOnce.antt =====
-- Compare-and-swap on handoffs: callers that have read the same revision.
use cairnline.Base.{
  ◌<◌, String, ◌≡◌, ◌⊎◌, inl, inr, refl, ap, ◌∙◌, arith, ok, err, eq_iff, string_eq, nat_eq,
  conflict,
}
use cairnline.Base.Nested
use cairnline.Model.Clock.{Time}
use cairnline.Model.Handoff.{Handoff, HandoffUpdate, HandoffDelete, status_eq}
use cairnline.Model.Patch.{apply_patch}
use cairnline.MemoryStore.State.{Store, require_work_item}
use cairnline.MemoryStore.Handoffs.{
  find_handoff, edit_handoff, update_handoff, delete_handoff, restamped, store_handoff,
  handoff_transition_time,
}
use cairnline.MemoryStore.Edits.{
  Edited, unchanged, rewritten, find_handoff-eq-ok, update_handoff-eq-ok,
}

pub handoff_transition_time-gt :
    (h : Handoff) (now : Time) → h.updated_at < handoff_transition_time h now
unfolding handoff_transition_time
handoff_transition_time-gt h now = ground arith

pub find_handoff-store_handoff :
    (s : Store) (p w id : String) (h : Handoff)
    → h.work_item_id ≡ w
    → find_handoff (store_handoff p id h s) p w id ≡ ok h
unfolding find_handoff
find_handoff-store_handoff s p w id h e =
    rw (Nested.get-put p id p id h s.handoffs)
      (ground (arith, eq_iff p p, eq_iff id id, eq_iff h.work_item_id w))

-- The refusals that a caller with revision `seen` meets on the handoff `g` of store `t`.
refused_edit :
    (t : Store) (p w id : String) (u : HandoffUpdate) (later : Time) (g : Handoff)
    → require_work_item t p w ≡ ok tt
    → find_handoff t p w id ≡ ok g
    → u.expected_updated_at < g.updated_at
    → update_handoff t p w id u later ≡ err conflict
unfolding update_handoff edit_handoff
refused_edit t p w id u later g r f old = ground arith

refused_delete :
    (t : Store) (p w id : String) (d : HandoffDelete) (g : Handoff)
    → require_work_item t p w ≡ ok tt
    → find_handoff t p w id ≡ ok g
    → d.expected_updated_at < g.updated_at
    → delete_handoff t p w id d ≡ err conflict
unfolding delete_handoff
refused_delete t p w id d g r f old = ground arith

restamped_later :
    (p : HandoffUpdate) (h : Handoff) (now : Time)
    → (h.updated_at < (restamped h (apply_patch p.patch h) now).updated_at)
      × ((restamped h (apply_patch p.patch h) now).work_item_id ≡ h.work_item_id)
unfolding restamped apply_patch
restamped_later p h now = (handoff_transition_time-gt h now, refl)

-- Every edit and every deletion by a caller who read revision `seen` is a conflict.
abbrev pub AreBeaten : Store → String → String → String → Time → Type 0
AreBeaten t p w id seen =
    ((v : HandoffUpdate) (later : Time)
      → v.expected_updated_at ≡ seen
      → update_handoff t p w id v later ≡ err conflict)
    × ((d : HandoffDelete)
        → d.expected_updated_at ≡ seen
        → delete_handoff t p w id d ≡ err conflict)

wins :
    (s : Store) (p w id : String) (u : HandoffUpdate) (now : Time) (h g : Handoff) (t : Store)
    → require_work_item s p w ≡ ok tt
    → h.work_item_id ≡ w
    → h.updated_at ≡ u.expected_updated_at
    → Edited s p id u now h g t
    → (t ≡ s) ⊎ AreBeaten t p w id u.expected_updated_at
wins s p w id u now h g t r own seen (unchanged _ _ same) = inl same
wins s p w id u now h g t r own seen (rewritten _ _ written stored) =
    let kept = ap (λ x. x.work_item_id) written ∙ (restamped_later u h now).1 ∙ own in
    let found : find_handoff t p w id ≡ ok g =
      rw stored (find_handoff-store_handoff s p w id g kept) in
    let known : require_work_item t p w ≡ ok tt = unfold require_work_item in rw stored r in
    let later : u.expected_updated_at < g.updated_at =
      rw written (omega (arith, seen, (restamped_later u h now).0)) in
    inr (
      (λ v at same. refused_edit t p w id v at g known found (rw same later)),
      (λ d same. refused_delete t p w id d g known found (rw same later)),
    )

-- After an edit of a handoff that wrote something, every other edit or deletion that read the same
-- revision is a conflict.
pub edit_wins :
    (s : Store) (p w id : String) (u : HandoffUpdate) (now : Time) (g : Handoff) (t : Store)
    → update_handoff s p w id u now ≡ ok (g, t)
    → (t ≡ s) ⊎ AreBeaten t p w id u.expected_updated_at
edit_wins s p w id u now g t e =
    let facts = update_handoff-eq-ok s p w id u now g t e in
    let own = (find_handoff-eq-ok s p w id facts.0 facts.2).1 in
    wins s p w id u now facts.0 g t facts.1 own facts.3 facts.4

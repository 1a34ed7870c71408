-- ===== src/MemoryStore/Edits.antt =====
-- What an accepted edit of a handoff has found and written.
use cairnline.Base.{
  String, true, false, some, ◌≡◌, inl, inr, arith, ok, ◌>>=◌, >>=-eq-ok, eq_iff, string_eq, nat_eq,
  Bool-cases,
}
use cairnline.Base.Nested
use cairnline.Model.Clock.{Time}
use cairnline.Model.Handoff.{Handoff, HandoffUpdate, status_eq}
use cairnline.Model.Patch.{apply_patch, same_content}
use cairnline.MemoryStore.State.{Store, require_work_item}
use cairnline.MemoryStore.Handoffs.{
  validate_handoff, find_handoff, edit_handoff, update_handoff, restamped, store_handoff,
}

pub find_handoff-eq-ok :
    (s : Store) (p w id : String) (h : Handoff)
    → find_handoff s p w id ≡ ok h
    → (Nested.get p id s.handoffs ≡ some h) × (h.work_item_id ≡ w)
unfolding find_handoff
find_handoff-eq-ok s p w id h e = ground (arith, eq_iff h.work_item_id w)

-- The two ways in which an edit succeeds: there is nothing to change, or the patched handoff is
-- valid and is written with new stamps.
pub data Edited (s : Store) (p id : String) (u : HandoffUpdate) (now : Time) (h g : Handoff)
    (t : Store) : Type 0 where
  unchanged :
      same_content h (apply_patch u.patch h) ≡ true → g ≡ h → t ≡ s → Edited s p id u now h g t
  rewritten :
      same_content h (apply_patch u.patch h) ≡ false
      → validate_handoff s (apply_patch u.patch h) ≡ ok tt
      → g ≡ restamped h (apply_patch u.patch h) now
      → t ≡ store_handoff p id g s
      → Edited s p id u now h g t

edit_handoff-Edited :
    (s : Store) (p id : String) (u : HandoffUpdate) (now : Time) (h g : Handoff) (t : Store)
    → edit_handoff s p id u now h ≡ ok (g, t)
    → (h.updated_at ≡ u.expected_updated_at) × Edited s p id u now h g t
unfolding edit_handoff
edit_handoff-Edited s p id u now h g t e =
    elim (Bool-cases (same_content h (apply_patch u.patch h))) [
      | inl same ↦ (ground arith, unchanged same (ground arith) (ground arith))
      | inr other ↦ (ground arith, rewritten other (ground arith) (ground arith) (ground arith))
    ]

pub update_handoff-eq-ok :
    (s : Store) (p w id : String) (u : HandoffUpdate) (now : Time) (g : Handoff) (t : Store)
    → update_handoff s p w id u now ≡ ok (g, t)
    → (h : Handoff) × (require_work_item s p w ≡ ok tt)
      × (find_handoff s p w id ≡ ok h)
      × (h.updated_at ≡ u.expected_updated_at)
      × Edited s p id u now h g t
unfolding update_handoff
update_handoff-eq-ok s p w id u now g t e =
    let outer =
      >>=-eq-ok (require_work_item s p w)
        (λ _. do h ← find_handoff s p w id; edit_handoff s p id u now h) e in
    let inner = >>=-eq-ok (find_handoff s p w id) (edit_handoff s p id u now) outer.2 in
    let edit = edit_handoff-Edited s p id u now inner.0 g t inner.2 in
    (inner.0, ground (arith, outer.1), inner.1, edit.0, edit.1)

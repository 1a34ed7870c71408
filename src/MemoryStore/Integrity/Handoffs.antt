-- ===== src/MemoryStore/Integrity/Handoffs.antt =====
-- The invariant under the handoff methods.
use cairnline.Base.{String, ◌≡◌, ◌⊎◌, refl, sym, subst, arith, ok, string_eq, nat_eq}
use cairnline.Base.Nested
use cairnline.Model.Clock.{Time}
use cairnline.Model.Handoff.{Handoff, HandoffUpdate, HandoffDelete, status_eq}
use cairnline.Model.Patch.{apply_patch}
use cairnline.MemoryStore.State.{Store, require_work_item}
use cairnline.MemoryStore.Each.{Each-put, Each-delete}
use cairnline.MemoryStore.Handoffs.{
  validate_handoff, create_handoff, restore_handoff_snapshot, update_handoff, restamped,
  delete_handoff, store_handoff,
}
use cairnline.MemoryStore.Edits.{
  Edited, unchanged, rewritten, find_handoff-eq-ok, update_handoff-eq-ok,
}
use cairnline.MemoryStore.Accept.{target_work_item_for}
use cairnline.MemoryStore.Integrity.Defs.{HasItem, HandoffFits, IsConsistent}

-- What `validateHandoffLocked` checks, as far as work items go.
pub validate_handoff-HasItem :
    (s : Store) (h : Handoff)
    → validate_handoff s h ≡ ok tt
    → HasItem s.projects s.work_items h.project_id h.work_item_id
      × HasItem s.projects s.work_items h.project_id (target_work_item_for h)
unfolding validate_handoff require_work_item
validate_handoff-HasItem s h v = ground arith

pub store_handoff-IsConsistent :
    (s : Store) (p id : String) (h : Handoff)
    → HandoffFits s.projects s.work_items p id h
    → IsConsistent s
    → IsConsistent (store_handoff p id h s)
store_handoff-IsConsistent s p id h f c = record {
  assignments = c.assignments;
  artifacts = c.artifacts;
  evidence = c.evidence;
  reviews = c.reviews;
  handoffs = Each-put (HandoffFits s.projects s.work_items) s.handoffs c.handoffs p id h f;
}

fits_own :
    (s : Store) (h : Handoff)
    → validate_handoff s h ≡ ok tt
    → HandoffFits s.projects s.work_items h.project_id h.id h
fits_own s h v = record {
  item = (validate_handoff-HasItem s h v).0;
  target = (validate_handoff-HasItem s h v).1;
  project_id = refl;
  own_id = refl;
}

pub write_handoff-IsConsistent :
    (s : Store) (h g : Handoff) (t : Store)
    → (create_handoff s h ≡ ok (g, t)) ⊎ (restore_handoff_snapshot s h ≡ ok (g, t))
    → IsConsistent s
    → IsConsistent t
unfolding create_handoff restore_handoff_snapshot
write_handoff-IsConsistent s h g t e c =
    subst IsConsistent written
      (store_handoff-IsConsistent s h.project_id h.id h (fits_own s h (ground arith)) c)
  where
    written : store_handoff h.project_id h.id h s ≡ t
    written = ground arith

restamped-fits :
    (s : Store) (p id : String) (u : HandoffUpdate) (now : Time) (h : Handoff)
    → HandoffFits s.projects s.work_items p id h
    → validate_handoff s (apply_patch u.patch h) ≡ ok tt
    → HandoffFits s.projects s.work_items p id (restamped h (apply_patch u.patch h) now)
unfolding apply_patch restamped
restamped-fits s p id u now h f v =
    let items = validate_handoff-HasItem s (apply_patch u.patch h) v in
    record {
      item = subst (λ q. HasItem s.projects s.work_items q h.work_item_id) f.project_id items.0;
      target =
          subst
            (λ q. HasItem s.projects s.work_items q (target_work_item_for (apply_patch u.patch h)))
            f.project_id items.1;
      project_id = f.project_id;
      own_id = f.own_id;
    }

Edited-IsConsistent :
    (s : Store) (p id : String) (u : HandoffUpdate) (now : Time) (h g : Handoff) (t : Store)
    → HandoffFits s.projects s.work_items p id h
    → Edited s p id u now h g t
    → IsConsistent s
    → IsConsistent t
Edited-IsConsistent s p id u now h g t f (unchanged _ _ same) c = subst IsConsistent (sym same) c
Edited-IsConsistent s p id u now h g t f (rewritten _ v e w) c = subst IsConsistent (sym w) (
    store_handoff-IsConsistent s p id g
      (subst (HandoffFits s.projects s.work_items p id) (sym e) (restamped-fits s p id u now h f v))
      c)

pub update_handoff-IsConsistent :
    (s : Store) (p w id : String) (u : HandoffUpdate) (now : Time) (g : Handoff) (t : Store)
    → update_handoff s p w id u now ≡ ok (g, t)
    → IsConsistent s
    → IsConsistent t
update_handoff-IsConsistent s p w id u now g t e c =
    let facts = update_handoff-eq-ok s p w id u now g t e in
    let stored = (find_handoff-eq-ok s p w id facts.0 facts.2).0 in
    Edited-IsConsistent s p id u now facts.0 g t (c.handoffs p id facts.0 stored) facts.4 c

pub delete_handoff-IsConsistent :
    (s : Store) (p w id : String) (d : HandoffDelete) (t : Store)
    → delete_handoff s p w id d ≡ ok t
    → IsConsistent s
    → IsConsistent t
unfolding delete_handoff
delete_handoff-IsConsistent s p w id d t e c = subst IsConsistent written (record {
  assignments = c.assignments;
  artifacts = c.artifacts;
  evidence = c.evidence;
  reviews = c.reviews;
  handoffs = Each-delete (HandoffFits s.projects s.work_items) s.handoffs c.handoffs p id;
})
  where
    written : record s { handoffs = Nested.delete p id s.handoffs } ≡ t
    written = ground arith

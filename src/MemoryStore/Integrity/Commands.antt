-- ===== src/MemoryStore/Integrity/Commands.antt =====
-- The invariant under the methods on assignments.
use cairnline.Base.{String, true, some, ◌≡◌, sym, subst, ◌∙◌, arith, is_some, ok}
use cairnline.Base.Nested
use cairnline.Model.Clock.{Time}
use cairnline.Model.Assignment.{Assignment}
use cairnline.Lifecycle.Commands.{Command, edit_queued, check, change}
use cairnline.Lifecycle.Identity.{work_item_after, SameIdentity, change-SameIdentity}
use cairnline.Lifecycle.Invariant.{change-IsWellClaimed}
use cairnline.MemoryStore.State.{Store, project_at}
use cairnline.MemoryStore.Assignments.{store_assignment}
use cairnline.MemoryStore.Each.{Each-put}
use cairnline.MemoryStore.Calls.{transact}
use cairnline.MemoryStore.Transact.{require_replacement, transact-eq-ok}
use cairnline.MemoryStore.Integrity.Defs.{HasItem, AssignmentFits, IsConsistent}

-- The work item that a command leaves an assignment with exists.
item_after :
    (s : Store) (p : String) (c : Command) (a : Assignment)
    → require_replacement s p c ≡ ok tt
    → HasItem s.projects s.work_items p a.work_item_id
    → HasItem s.projects s.work_items p (work_item_after c a)
item_after s p (edit_queued u) a r h = (h.0, ground arith)
item_after s p c a r h = h

pub transact-IsConsistent :
    (s : Store) (p id : String) (c : Command) (now : Time) (b : Assignment) (t : Store)
    → transact s p id c now ≡ ok (b, t)
    → IsConsistent s
    → IsConsistent t
transact-IsConsistent s p id c now b t h v = subst IsConsistent (sym written) (record {
  assignments =
      Each-put (AssignmentFits s.projects s.work_items) s.assignments v.assignments p id b fits;
  artifacts = v.artifacts;
  evidence = v.evidence;
  reviews = v.reviews;
  handoffs = v.handoffs;
})
  where
    facts :
        (a : Assignment) × (is_some (project_at s p) ≡ true)
        × (Nested.get p id s.assignments ≡ some a)
        × (check c ≡ ok tt)
        × (require_replacement s p c ≡ ok tt)
        × (change c now a ≡ ok b)
        × (t ≡ store_assignment p id b s)
    facts = transact-eq-ok s p id c now b t h

    old : AssignmentFits s.projects s.work_items p id facts.0
    old = v.assignments p id facts.0 facts.2

    same : SameIdentity facts.0 b (work_item_after c facts.0)
    same = change-SameIdentity c now facts.0 b facts.5

    fits : AssignmentFits s.projects s.work_items p id b
    fits = record {
      item =
          subst (HasItem s.projects s.work_items p) (sym same.work_item_id)
            (item_after s p c facts.0 facts.4 old.item);
      project_id = same.project_id ∙ old.project_id;
      own_id = same.id ∙ old.own_id;
      claim = change-IsWellClaimed c now facts.0 b facts.5 old.claim;
    }

    written : t ≡ store_assignment p id b s
    written = facts.6

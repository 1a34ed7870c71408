-- ===== src/MemoryStore/Integrity/Cascade.antt =====
-- The invariant under the deletions of a work item, an assignment and a project.
use cairnline.Base.{
  String, true, false, ◌&&◌, ◌||◌, none, ◌≡◌, ◌≢◌, arith, eq_iff, ◌==◌, string_eq, if◌then◌else◌,
  is_some, Bool-cases, inl, inr,
}
use cairnline.Base.Table
use cairnline.Base.Nested
use cairnline.MemoryStore.State.{Store, key_eq}
use cairnline.MemoryStore.Accept.{target_work_item_for}
use cairnline.MemoryStore.Each.{Each-delete, Each-delete_where, Each-delete_all}
use cairnline.MemoryStore.Projects.{without_project}
use cairnline.MemoryStore.WorkItems.{without_work_item}
use cairnline.MemoryStore.Assignments.{without_assignment}
use cairnline.MemoryStore.Integrity.Defs.{
  HasItem, AssignmentFits, ArtifactFits, EvidenceFits, ReviewFits, HandoffFits, IsConsistent,
}

-- Another work item, or one of another project, is still there when `id` of `p` is gone.
item-delete :
    (s : Store) (p id q w : String)
    → (p ≡ q → (w == id) ≡ false)
    → HasItem s.projects s.work_items q w
    → HasItem s.projects (Nested.delete p id s.work_items) q w
item-delete s p id q w other h = (h.0, rw (Nested.get-delete q w p id s.work_items) still)
  where
    still : is_some (if p == q && id == w then none else Nested.get q w s.work_items) ≡ true
    still = elim (Bool-cases (p == q)) [
      | inl e ↦ ground (arith, other ((eq_iff p q).0 e), eq_iff id w, eq_iff w id)
      | inr e ↦ ground arith
    ]

item-delete_all :
    (s : Store) (p q w : String)
    → p ≢ q
    → HasItem s.projects s.work_items q w
    → HasItem (Table.delete p s.projects) (Nested.delete_all p s.work_items) q w
item-delete_all s p q w other h = (
  rw (Table.get-delete q p s.projects) (ground (arith, eq_iff p q)),
  rw (Nested.get-delete_all q w p s.work_items) (ground (arith, eq_iff p q)),
)

pub without_work_item-IsConsistent :
    (s : Store) (p id : String) → IsConsistent s → IsConsistent (without_work_item p id s)
unfolding without_work_item
without_work_item-IsConsistent s p id c = record {
  assignments =
      Each-delete_where (AssignmentFits s.projects s.work_items) s.assignments c.assignments
        (AssignmentFits s.projects (Nested.delete p id s.work_items)) p (λ a. a.work_item_id == id)
        λ q j a f keep. record {
          item = item-delete s p id q a.work_item_id keep f.item;
          project_id = f.project_id;
          own_id = f.own_id;
          claim = f.claim;
        };
  artifacts =
      Each-delete_where (ArtifactFits s.projects s.work_items) s.artifacts c.artifacts
        (ArtifactFits s.projects (Nested.delete p id s.work_items)) p (λ a. a.work_item_id == id)
        λ q j a f keep. record {
          item = item-delete s p id q a.work_item_id keep f.item;
          project_id = f.project_id;
          own_id = f.own_id;
        };
  evidence =
      Each-delete_where (EvidenceFits s.projects s.work_items) s.evidence c.evidence
        (EvidenceFits s.projects (Nested.delete p id s.work_items)) p (λ a. a.work_item_id == id)
        λ q j a f keep. record {
          item = item-delete s p id q a.work_item_id keep f.item;
          project_id = f.project_id;
          own_id = f.own_id;
        };
  reviews =
      Each-delete_where (ReviewFits s.projects s.work_items) s.reviews c.reviews
        (ReviewFits s.projects (Nested.delete p id s.work_items)) p (λ a. a.work_item_id == id)
        λ q j a f keep. record {
          item = item-delete s p id q a.work_item_id keep f.item;
          project_id = f.project_id;
          own_id = f.own_id;
        };
  handoffs =
      Each-delete_where (HandoffFits s.projects s.work_items) s.handoffs c.handoffs
        (HandoffFits s.projects (Nested.delete p id s.work_items)) p
        (λ h. h.work_item_id == id || h.target_work_item_id == id)
        λ q j h f keep. record {
          item = item-delete s p id q h.work_item_id (λ e. ground (arith, keep e)) f.item;
          target =
              item-delete s p id q (target_work_item_for h) (λ e. ground (arith, keep e)) f.target;
          project_id = f.project_id;
          own_id = f.own_id;
        };
}

pub without_assignment-IsConsistent :
    (s : Store) (p id : String) → IsConsistent s → IsConsistent (without_assignment p id s)
unfolding without_assignment
without_assignment-IsConsistent s p id c = record {
  assignments =
      Each-delete (AssignmentFits s.projects s.work_items) s.assignments c.assignments p id;
  artifacts =
      Each-delete_where (ArtifactFits s.projects s.work_items) s.artifacts c.artifacts
        (ArtifactFits s.projects s.work_items) p (λ a. a.assignment_id == id) λ q j a f keep. f;
  evidence = c.evidence;
  reviews =
      Each-delete_where (ReviewFits s.projects s.work_items) s.reviews c.reviews
        (ReviewFits s.projects s.work_items) p (λ r. r.assignment_id == id) λ q j r f keep. f;
  handoffs = c.handoffs;
}

pub without_project-IsConsistent :
    (s : Store) (id : String) → IsConsistent s → IsConsistent (without_project id s)
unfolding without_project
without_project-IsConsistent s id c = record {
  assignments =
      Each-delete_all (AssignmentFits s.projects s.work_items) s.assignments c.assignments
        (AssignmentFits (Table.delete id s.projects) (Nested.delete_all id s.work_items)) id
        λ q j a other f. record {
          item = item-delete_all s id q a.work_item_id other f.item;
          project_id = f.project_id;
          own_id = f.own_id;
          claim = f.claim;
        };
  artifacts =
      Each-delete_all (ArtifactFits s.projects s.work_items) s.artifacts c.artifacts
        (ArtifactFits (Table.delete id s.projects) (Nested.delete_all id s.work_items)) id
        λ q j a other f. record {
          item = item-delete_all s id q a.work_item_id other f.item;
          project_id = f.project_id;
          own_id = f.own_id;
        };
  evidence =
      Each-delete_all (EvidenceFits s.projects s.work_items) s.evidence c.evidence
        (EvidenceFits (Table.delete id s.projects) (Nested.delete_all id s.work_items)) id
        λ q j e other f. record {
          item = item-delete_all s id q e.work_item_id other f.item;
          project_id = f.project_id;
          own_id = f.own_id;
        };
  reviews =
      Each-delete_all (ReviewFits s.projects s.work_items) s.reviews c.reviews
        (ReviewFits (Table.delete id s.projects) (Nested.delete_all id s.work_items)) id
        λ q j r other f. record {
          item = item-delete_all s id q r.work_item_id other f.item;
          project_id = f.project_id;
          own_id = f.own_id;
        };
  handoffs =
      Each-delete_all (HandoffFits s.projects s.work_items) s.handoffs c.handoffs
        (HandoffFits (Table.delete id s.projects) (Nested.delete_all id s.work_items)) id
        λ q j h other f. record {
          item = item-delete_all s id q h.work_item_id other f.item;
          target = item-delete_all s id q (target_work_item_for h) other f.target;
          project_id = f.project_id;
          own_id = f.own_id;
        };
}

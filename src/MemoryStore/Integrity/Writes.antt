-- ===== src/MemoryStore/Integrity/Writes.antt =====
-- The invariant under the methods that write one record.
use cairnline.Base.{◌≡◌, ◌⊎◌, refl, subst, arith, string_eq, ok}
use cairnline.Base.Table
use cairnline.Base.Table.{Table}
use cairnline.Base.Nested
use cairnline.Model.Project.{Project}
use cairnline.Model.Work.{WorkItem}
use cairnline.Model.Assignment.{Assignment}
use cairnline.Model.Collaboration.{Artifact, Evidence, Review}
use cairnline.Lifecycle.Validity.{validate_iff}
use cairnline.MemoryStore.State.{Store, require_work_item}
use cairnline.MemoryStore.Each.{Each-put}
use cairnline.MemoryStore.Projects.{create_project, update_project}
use cairnline.MemoryStore.WorkItems.{create_work_item, update_work_item, store_work_item}
use cairnline.MemoryStore.Assignments.{
  create_assignment, restore_assignment_snapshot, store_assignment,
}
use cairnline.MemoryStore.Records.{create_artifact, create_evidence, create_review}
use cairnline.MemoryStore.Integrity.Defs.{
  AssignmentFits, ArtifactFits, EvidenceFits, ReviewFits, IsConsistent, grow-IsConsistent,
}

pub put_project-IsConsistent :
    (s : Store) (p : Project)
    → IsConsistent s
    → IsConsistent (record s { projects = Table.put p.id p s.projects })
put_project-IsConsistent s p =
    grow-IsConsistent s (Table.put p.id p s.projects) s.work_items
      λ q w h. (rw (Table.get-put q p.id p s.projects) (ground (arith, h.0)), h.1)

put_work_item-IsConsistent :
    (s : Store) (w : WorkItem) → IsConsistent s → IsConsistent (store_work_item s w)
put_work_item-IsConsistent s w =
    grow-IsConsistent s s.projects (Nested.put w.project_id w.id w s.work_items)
      λ q j h. (h.0, rw (Nested.get-put q j w.project_id w.id w s.work_items) (ground (arith, h.1)))

pub write_project-IsConsistent :
    (s : Store) (p q : Project) (t : Store)
    → (create_project s p ≡ ok (q, t)) ⊎ (update_project s p ≡ ok (q, t))
    → IsConsistent s
    → IsConsistent t
unfolding create_project update_project
write_project-IsConsistent s p q t h c = subst IsConsistent written (put_project-IsConsistent s p c)
  where
    written : record s { projects = Table.put p.id p s.projects } ≡ t
    written = ground arith

pub write_work_item-IsConsistent :
    (s : Store) (w v : WorkItem) (t : Store)
    → (create_work_item s w ≡ ok (v, t)) ⊎ (update_work_item s w ≡ ok (v, t))
    → IsConsistent s
    → IsConsistent t
unfolding create_work_item update_work_item
write_work_item-IsConsistent s w v t h c =
    subst IsConsistent written (put_work_item-IsConsistent s w c)
  where
    written : store_work_item s w ≡ t
    written = ground arith

pub write_assignment-IsConsistent :
    (s : Store) (a b : Assignment) (t : Store)
    → (create_assignment s a ≡ ok (b, t)) ⊎ (restore_assignment_snapshot s a ≡ ok (b, t))
    → IsConsistent s
    → IsConsistent t
unfolding create_assignment restore_assignment_snapshot
write_assignment-IsConsistent s a b t h c = subst IsConsistent written (record {
  assignments =
      Each-put (AssignmentFits s.projects s.work_items) s.assignments c.assignments a.project_id
        a.id a
        (record {
          item = (ground arith, ground arith);
          project_id = refl;
          own_id = refl;
          claim = (validate_iff a).0 (ground arith);
        });
  artifacts = c.artifacts;
  evidence = c.evidence;
  reviews = c.reviews;
  handoffs = c.handoffs;
})
  where
    written : store_assignment a.project_id a.id a s ≡ t
    written = ground arith

pub create_artifact-IsConsistent :
    (s : Store) (a b : Artifact) (t : Store)
    → create_artifact s a ≡ ok (b, t)
    → IsConsistent s
    → IsConsistent t
unfolding create_artifact require_work_item
create_artifact-IsConsistent s a b t h c = subst IsConsistent written (record {
  assignments = c.assignments;
  artifacts =
      Each-put (ArtifactFits s.projects s.work_items) s.artifacts c.artifacts a.project_id a.id a
        (record { item = (ground arith, ground arith); project_id = refl; own_id = refl });
  evidence = c.evidence;
  reviews = c.reviews;
  handoffs = c.handoffs;
})
  where
    written : record s { artifacts = Nested.put a.project_id a.id a s.artifacts } ≡ t
    written = ground arith

pub create_evidence-IsConsistent :
    (s : Store) (e f : Evidence) (t : Store)
    → create_evidence s e ≡ ok (f, t)
    → IsConsistent s
    → IsConsistent t
unfolding create_evidence require_work_item
create_evidence-IsConsistent s e f t h c = subst IsConsistent written (record {
  assignments = c.assignments;
  artifacts = c.artifacts;
  evidence =
      Each-put (EvidenceFits s.projects s.work_items) s.evidence c.evidence e.project_id e.id e
        (record { item = (ground arith, ground arith); project_id = refl; own_id = refl });
  reviews = c.reviews;
  handoffs = c.handoffs;
})
  where
    written : record s { evidence = Nested.put e.project_id e.id e s.evidence } ≡ t
    written = ground arith

pub create_review-IsConsistent :
    (s : Store) (r q : Review) (t : Store)
    → create_review s r ≡ ok (q, t)
    → IsConsistent s
    → IsConsistent t
unfolding create_review require_work_item
create_review-IsConsistent s r q t h c = subst IsConsistent written (record {
  assignments = c.assignments;
  artifacts = c.artifacts;
  evidence = c.evidence;
  reviews =
      Each-put (ReviewFits s.projects s.work_items) s.reviews c.reviews r.project_id r.id r
        (record { item = (ground arith, ground arith); project_id = refl; own_id = refl });
  handoffs = c.handoffs;
})
  where
    written : record s { reviews = Nested.put r.project_id r.id r s.reviews } ≡ t
    written = ground arith

-- ===== src/MemoryStore/Integrity/Defs.antt =====
-- The invariant, and what a change of projects or work items does to it.
use cairnline.Base.{String, true, ◌≡◌, string_eq, is_some}
use cairnline.Base.Table
use cairnline.Base.Table.{Table}
use cairnline.Base.Nested
use cairnline.Base.Nested.{Nested}
use cairnline.Model.Project.{Project}
use cairnline.Model.Work.{WorkItem}
use cairnline.Model.Assignment.{Assignment}
use cairnline.Model.Collaboration.{Artifact, Evidence, Review}
use cairnline.Model.Handoff.{Handoff}
use cairnline.Lifecycle.Validity.{IsWellClaimed}
use cairnline.MemoryStore.State.{Store, key_eq}
use cairnline.MemoryStore.Accept.{target_work_item_for}
use cairnline.MemoryStore.Each.{Each, Each-weaken}

-- Project `p` exists, and work item `w` exists in it.
abbrev pub HasItem : Table String Project → Nested WorkItem → String → String → Type 0
HasItem ps ws p w = (is_some (Table.get p ps) ≡ true) × (is_some (Nested.get p w ws) ≡ true)

module _ (ps : Table String Project) (ws : Nested WorkItem) where
  -- An assignment under `p` and `id` carries these ids, its work item exists, and its claim fits.
  pub record AssignmentFits (p id : String) (a : Assignment) : Type 0 where
    pub item : HasItem ps ws p a.work_item_id
    pub project_id : a.project_id ≡ p
    pub own_id : a.id ≡ id
    pub claim : IsWellClaimed a

  pub record ArtifactFits (p id : String) (a : Artifact) : Type 0 where
    pub item : HasItem ps ws p a.work_item_id
    pub project_id : a.project_id ≡ p
    pub own_id : a.id ≡ id

  pub record EvidenceFits (p id : String) (e : Evidence) : Type 0 where
    pub item : HasItem ps ws p e.work_item_id
    pub project_id : e.project_id ≡ p
    pub own_id : e.id ≡ id

  pub record ReviewFits (p id : String) (r : Review) : Type 0 where
    pub item : HasItem ps ws p r.work_item_id
    pub project_id : r.project_id ≡ p
    pub own_id : r.id ≡ id

  -- A handoff's own work item exists, and its target's if it names one.
  pub record HandoffFits (p id : String) (h : Handoff) : Type 0 where
    pub item : HasItem ps ws p h.work_item_id
    pub target : HasItem ps ws p (target_work_item_for h)
    pub project_id : h.project_id ≡ p
    pub own_id : h.id ≡ id

pub record IsConsistent (s : Store) : Type 0 where
  pub assignments : Each (AssignmentFits s.projects s.work_items) s.assignments
  pub artifacts : Each (ArtifactFits s.projects s.work_items) s.artifacts
  pub evidence : Each (EvidenceFits s.projects s.work_items) s.evidence
  pub reviews : Each (ReviewFits s.projects s.work_items) s.reviews
  pub handoffs : Each (HandoffFits s.projects s.work_items) s.handoffs

-- More projects and more work items do no harm.
pub grow-IsConsistent :
    (s : Store) (ps : Table String Project) (ws : Nested WorkItem)
    → ((p w : String) → HasItem s.projects s.work_items p w → HasItem ps ws p w)
    → IsConsistent s
    → IsConsistent (record s { projects = ps; work_items = ws })
grow-IsConsistent s ps ws more c = record {
  assignments =
      Each-weaken (AssignmentFits s.projects s.work_items) s.assignments c.assignments
        (AssignmentFits ps ws)
        λ p id a f. record {
          item = more p a.work_item_id f.item;
          project_id = f.project_id;
          own_id = f.own_id;
          claim = f.claim;
        };
  artifacts =
      Each-weaken (ArtifactFits s.projects s.work_items) s.artifacts c.artifacts
        (ArtifactFits ps ws)
        λ p id a f. record {
          item = more p a.work_item_id f.item;
          project_id = f.project_id;
          own_id = f.own_id;
        };
  evidence =
      Each-weaken (EvidenceFits s.projects s.work_items) s.evidence c.evidence (EvidenceFits ps ws)
        λ p id a f. record {
          item = more p a.work_item_id f.item;
          project_id = f.project_id;
          own_id = f.own_id;
        };
  reviews =
      Each-weaken (ReviewFits s.projects s.work_items) s.reviews c.reviews (ReviewFits ps ws)
        λ p id a f. record {
          item = more p a.work_item_id f.item;
          project_id = f.project_id;
          own_id = f.own_id;
        };
  handoffs =
      Each-weaken (HandoffFits s.projects s.work_items) s.handoffs c.handoffs (HandoffFits ps ws)
        λ p id h f. record {
          item = more p h.work_item_id f.item;
          target = more p (target_work_item_for h) f.target;
          project_id = f.project_id;
          own_id = f.own_id;
        };
}

-- ===== src/MemoryStore/Deletion.antt =====
-- `DeleteWorkItem` and `DeleteProject`: what goes and what stays.
use cairnline.Base.{
  Eq, ◌↔◌, String, Bool, false, ◌||◌, some, none, ◌≡◌, ◌≢◌, ◌⊎◌, refl, subst, arith, ok, eq_iff,
  ◌==◌, string_eq, if◌then◌else◌, Bool-cases, inl, inr,
}
use cairnline.Base.Table
use cairnline.Base.Table.{Table}
use cairnline.Base.Nested
use cairnline.Base.Nested.{Nested}
use cairnline.Model.Assistant.{AssistantProposalRecord}
use cairnline.MemoryStore.State.{Store, Receipt, key_eq}
use cairnline.MemoryStore.WorkItems.{delete_work_item, without_work_item}
use cairnline.MemoryStore.Projects.{delete_project, without_project}

-- From `old` to `new` exactly the entries of project `p` that meet the test are gone.
pub record Purged {V : Type 0} (p : String) (test : V → Bool) (old new : Nested V) : Type 0 where
  pub gone : (j : String) (v : V) → Nested.get p j new ≡ some v → test v ≡ false
  pub kept :
      (q j : String) (v : V)
      → Nested.get q j old ≡ some v
      → (p ≡ q → test v ≡ false)
      → Nested.get q j new ≡ some v
  pub nothing_new :
      (q j : String) (v : V) → Nested.get q j new ≡ some v → Nested.get q j old ≡ some v

delete_where-Purged :
    {V : Type 0} (p : String) (test : V → Bool) (t : Nested V)
    → Purged p test t (Nested.delete_where p test t)
delete_where-Purged p test t = record {
  gone = λ j v e. ground (arith, Nested.get-delete_where p j p test t, eq_iff p p);
  kept = λ q j v e other. elim (Bool-cases (p == q)) [
    | inl same ↦ ground (arith, Nested.get-delete_where q j p test t, other ((eq_iff p q).0 same))
    | inr apart ↦ ground (arith, Nested.get-delete_where q j p test t)
  ];
  nothing_new = λ q j v e. ground (arith, Nested.get-delete_where q j p test t);
}

-- After the deletion of a work item.
pub record WorkItemPurged (p id : String) (s t : Store) : Type 0 where
  pub item : Nested.get p id t.work_items ≡ none
  pub other_items :
      (q w : String)
      → (p ≢ q) ⊎ (id ≢ w)
      → Nested.get q w t.work_items ≡ Nested.get q w s.work_items
  pub assignments : Purged p (λ a. a.work_item_id == id) s.assignments t.assignments
  pub artifacts : Purged p (λ a. a.work_item_id == id) s.artifacts t.artifacts
  pub evidence : Purged p (λ e. e.work_item_id == id) s.evidence t.evidence
  pub reviews : Purged p (λ r. r.work_item_id == id) s.reviews t.reviews
  pub handoffs :
      Purged p (λ h. h.work_item_id == id || h.target_work_item_id == id) s.handoffs t.handoffs
  pub projects : t.projects ≡ s.projects
  pub memory : (t.entries ≡ s.entries) × (t.memory ≡ s.memory)

without_work_item-Purged :
    (p id : String) (s : Store) → WorkItemPurged p id s (without_work_item p id s)
unfolding without_work_item
without_work_item-Purged p id s = record {
  item = rw (Nested.get-delete p id p id s.work_items) (ground (arith, eq_iff p p, eq_iff id id));
  other_items = λ q w o.
      rw (Nested.get-delete q w p id s.work_items) (ground (arith, o, eq_iff p q, eq_iff id w));
  assignments = delete_where-Purged p (λ a. a.work_item_id == id) s.assignments;
  artifacts = delete_where-Purged p (λ a. a.work_item_id == id) s.artifacts;
  evidence = delete_where-Purged p (λ e. e.work_item_id == id) s.evidence;
  reviews = delete_where-Purged p (λ r. r.work_item_id == id) s.reviews;
  handoffs =
      delete_where-Purged p (λ h. h.work_item_id == id || h.target_work_item_id == id) s.handoffs;
  projects = refl;
  memory = (refl, refl);
}

-- Deleting a work item removes it and exactly the assignments, artifacts, evidence, reviews and
-- handoffs of its project that name it (a handoff with either of its ends), and changes neither
-- other work items nor projects nor memory.
pub delete_work_item-Purged :
    (s : Store) (p id : String) (t : Store)
    → delete_work_item s p id ≡ ok t
    → WorkItemPurged p id s t
unfolding delete_work_item
delete_work_item-Purged s p id t e =
    let written : without_work_item p id s ≡ t = ground arith in
    subst (WorkItemPurged p id s) written (without_work_item-Purged p id s)

-- From `old` to `new` exactly the entries of project `p` are gone.
abbrev pub Dropped : {V : Type 0} → String → Nested V → Nested V → Type 0
Dropped p old new =
    (q j : String) → Nested.get q j new ≡ (if p == q then none else Nested.get q j old)

-- From `old` to `new` exactly the entries that belong to project `p` are gone, whatever their key.
abbrev pub Expelled :
    {K V : Type 0} ⦃e : Eq K⦄ → (V → String) → String → Table K V → Table K V → Type 0
Expelled {K} {V} owner p old new =
    (k : K) (v : V) → (Table.get k new ≡ some v) ↔ ((Table.get k old ≡ some v) × (owner v ≢ p))

delete_where-Expelled :
    {K V : Type 0} ⦃e : Eq K⦄ (owner : V → String) (p : String) (t : Table K V)
    → Expelled owner p t (Table.delete_where (λ _ v. owner v == p) t)
delete_where-Expelled owner p t k v =
    ground (arith, Table.get-delete_where k (λ _ w. owner w == p) t, eq_iff (owner v) p)

pub record ProjectPurged (p : String) (s t : Store) : Type 0 where
  pub project :
      (q : String) → Table.get q t.projects ≡ (if p == q then none else Table.get q s.projects)
  pub skills : Dropped p s.skills t.skills
  pub work_items : Dropped p s.work_items t.work_items
  pub roles : Dropped p s.roles t.roles
  pub assignments : Dropped p s.assignments t.assignments
  pub artifacts : Dropped p s.artifacts t.artifacts
  pub evidence : Dropped p s.evidence t.evidence
  pub reviews : Dropped p s.reviews t.reviews
  pub handoffs : Dropped p s.handoffs t.handoffs
  pub entries : Dropped p s.entries t.entries
  pub memory : Dropped p s.memory t.memory
  pub receipts : Expelled (λ (r : Receipt). r.result.handoff.project_id) p s.receipts t.receipts
  pub assistant : Expelled (λ (a : AssistantProposalRecord). a.project_id) p s.assistant t.assistant

without_project-Purged : (p : String) (s : Store) → ProjectPurged p s (without_project p s)
unfolding without_project
without_project-Purged p s = record {
  project = λ q. Table.get-delete q p s.projects;
  skills = λ q j. Nested.get-delete_all q j p s.skills;
  work_items = λ q j. Nested.get-delete_all q j p s.work_items;
  roles = λ q j. Nested.get-delete_all q j p s.roles;
  assignments = λ q j. Nested.get-delete_all q j p s.assignments;
  artifacts = λ q j. Nested.get-delete_all q j p s.artifacts;
  evidence = λ q j. Nested.get-delete_all q j p s.evidence;
  reviews = λ q j. Nested.get-delete_all q j p s.reviews;
  handoffs = λ q j. Nested.get-delete_all q j p s.handoffs;
  entries = λ q j. Nested.get-delete_all q j p s.entries;
  memory = λ q j. Nested.get-delete_all q j p s.memory;
  receipts = delete_where-Expelled (λ (r : Receipt). r.result.handoff.project_id) p s.receipts;
  assistant = delete_where-Expelled (λ (a : AssistantProposalRecord). a.project_id) p s.assistant;
}

-- Deleting a project removes it and everything that is filed under it (skills, work items, roles,
-- assignments, artifacts, evidence, reviews, handoffs, memory), the receipts of acceptances of its
-- handoffs and the assistant's proposals for it, and nothing else: what other projects have is found
-- as before, and so are their receipts and proposals.
pub delete_project-Purged :
    (s : Store) (p : String) (t : Store) → delete_project s p ≡ ok t → ProjectPurged p s t
unfolding delete_project
delete_project-Purged s p t e =
    let written : without_project p s ≡ t = ground arith in
    subst (ProjectPurged p s) written (without_project-Purged p s)

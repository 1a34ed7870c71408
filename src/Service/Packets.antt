-- ===== src/Service/Packets.antt =====
-- The launch packet of an assignment, in a store that only a service has written.
use cairnline.Base.{
  subst, String, true, false, List, [], ◌++◌, Option, none, some, ok, ◌≡◌, ◌↔◌, refl, arith, ◌==◌,
  string_eq, eq_iff, is_some,
}
use cairnline.Base.Nested
use cairnline.Base.Sorting.{Has}
use cairnline.Base.Texts.{compact_strings}
use cairnline.Model.Assignment.{Assignment}
use cairnline.Model.Collaboration.{Artifact}
use cairnline.Model.Handoff.{Handoff}
use cairnline.Model.Memory.{MemoryEntry}
use cairnline.Model.Project.{Project, ProjectSkill}
use cairnline.Model.Work.{Role, WorkItem}
use cairnline.MemoryStore.Assignments
use cairnline.MemoryStore.Lists
use cairnline.MemoryStore.Lists.{
  listing, latest, compare_memory_entries, compare_artifacts, compare_memory_candidates,
  candidate_passes,
}
use cairnline.MemoryStore.Listing.{listing-Has}
use cairnline.MemoryStore.Projects
use cairnline.MemoryStore.State.{Store, project_at, require_work_item}
use cairnline.MemoryStore.WorkItems
use cairnline.Service.Env.{Env}
use cairnline.Service.History.{IsOrderly}
use cairnline.Service.Launch.{
  AssignmentContext, AssignmentLaunchPacket, assignment_role, assignment_context,
  resolve_launch_packet_skills, assignment_launch_packet, default_skills,
}
use cairnline.Service.Offers.{IsOffered, AllOffered, resolve_skills-AllOffered, role-ok}
use cairnline.Service.Stated.{IsStated}

-- What the packet of an assignment holds.
pub record IsPacketFor (s : Store) (p : String) (a : Assignment) (packet : AssignmentLaunchPacket)
    : Type 0 where
  pub assignment : packet.assignment ≡ a
  pub project : project_at s p ≡ some packet.project
  pub work_item : Nested.get p a.work_item_id s.work_items ≡ some packet.work_item
  pub skills : (k : ProjectSkill) → Has k packet.skills → IsOffered s p k
  pub memory :
      (e : MemoryEntry)
      → Has e packet.memory
        ↔ (((id : String) × (Nested.get p id s.entries ≡ some e)) × (e.enabled ≡ true))
  pub artifacts :
      (x : Artifact)
      → Has x packet.artifacts ↔ (
          ((id : String) × (Nested.get p id s.artifacts ≡ some x))
          × (x.work_item_id ≡ a.work_item_id))
  pub handoffs :
      (h : Handoff)
      → Has h packet.handoffs ↔ (
          ((id : String) × (Nested.get p id s.handoffs ≡ some h))
          × (h.work_item_id ≡ a.work_item_id))

module _ (env : Env) (s : Store) (p id : String) (a : Assignment) (project : Project) (w : WorkItem)
    (stated_p : IsStated p) (stated_id : IsStated id) (found : project_at s p ≡ some project)
    (there : Nested.get p id s.assignments ≡ some a)
    (item : Nested.get p a.work_item_id s.work_items ≡ some w) where
  -- The context of the assignment, whatever has become of its role.
  context_with : Option Role × List String → AssignmentContext
  context_with role = record {
    id = env.new_id "ctx" 0;
    project = project;
    work_item = w;
    role = role.0;
    assignment = a;
    memory = listing compare_memory_entries (λ e. e.enabled) p s.entries;
    warnings = role.1;
    created_at = env.now;
  }

  assignment_context-eq-ok :
      (role : Option Role × List String)
      → assignment_role s p a.role_id ≡ ok role
      → assignment_context env s p id ≡ ok (context_with role)
  unfolding assignment_context context_with Projects.get_project Assignments.get_assignment
      Assignments.locate WorkItems.get_work_item Lists.list_memory_entries
  assignment_context-eq-ok role played =
      rw
        (
          stated_p.trimmed, stated_id.trimmed, stated_p.said, stated_id.said, found, there, item,
          played,
        )
        refl

  -- The packet around a context, with the skills that were resolved.
  packet_with : Option Role × List String → List ProjectSkill × List String → AssignmentLaunchPacket
  unfolding context_with
  packet_with role skills = record {
    id = env.new_id "launch" 0;
    kind = "assignment_launch_packet";
    project = project;
    work_item = w;
    role = role.0;
    skills = skills.0;
    assignment = a;
    artifacts = listing compare_artifacts (λ x. x.work_item_id == a.work_item_id) p s.artifacts;
    evidence =
        listing (λ x y. latest x.updated_at y.updated_at) (λ x. x.work_item_id == a.work_item_id) p
          s.evidence;
    reviews =
        listing (λ x y. latest x.updated_at y.updated_at) (λ x. x.work_item_id == a.work_item_id) p
          s.reviews;
    handoffs =
        listing (λ x y. latest x.updated_at y.updated_at) (λ x. x.work_item_id == a.work_item_id) p
          s.handoffs;
    memory = listing compare_memory_entries (λ e. e.enabled) p s.entries;
    memory_candidates =
        listing compare_memory_candidates
          (candidate_passes (record { project_id = p; status = ""; include_resolved = false })) p
          s.memory;
    warnings = role.1 ++ skills.1;
    created_at = env.now;
  }

  launch_packet-eq-ok :
      (role : Option Role × List String) (skills : List ProjectSkill × List String)
      → project.id ≡ p
      → w.id ≡ a.work_item_id
      → assignment_role s p a.role_id ≡ ok role
      → resolve_launch_packet_skills env s p a role.0 ≡ ok skills
      → assignment_launch_packet env s p id ≡ ok (packet_with role skills)
  unfolding assignment_launch_packet context_with packet_with Lists.list_artifacts
      Lists.list_evidence Lists.list_reviews Lists.list_handoffs Lists.list_memory_entries
      Lists.list_memory_candidates require_work_item
  launch_packet-eq-ok role skills own_p own_w played resolved =
      rw (assignment_context-eq-ok role played, own_p, own_w, found, item, resolved) refl

  packet_with-IsPacketFor :
      (role : Option Role × List String) (skills : List ProjectSkill × List String)
      → AllOffered s p skills.0
      → IsPacketFor s p a (packet_with role skills)
  unfolding packet_with
  packet_with-IsPacketFor role skills offered = record {
    assignment = refl;
    project = found;
    work_item = item;
    skills = offered;
    memory = listing-Has compare_memory_entries (λ e. e.enabled) p s.entries;
    artifacts = λ x. ground (
      arith,
      listing-Has compare_artifacts (λ y. y.work_item_id == a.work_item_id) p s.artifacts x,
      eq_iff x.work_item_id a.work_item_id,
    );
    handoffs = λ h. ground (
      arith,
      listing-Has (λ (x y : Handoff). latest x.updated_at y.updated_at)
          (λ y. y.work_item_id == a.work_item_id) p s.handoffs h,
      eq_iff h.work_item_id a.work_item_id,
    );
  }

some-of : {A : Type 0} (o : Option A) → is_some o ≡ true → (a : A) × (o ≡ some a)
some-of none h = ground arith
some-of (some a) h = (a, refl)

-- In a store in good order every assignment whose id is trimmed and not empty has a launch packet,
-- under any environment: it holds the
-- assignment, its project and its work item, just the enabled memory entries of the project, just
-- the artifacts and the handoffs of the work item, and no skill but registered, enabled and
-- available ones.
pub launch_packet-IsPacketFor :
    (env : Env) (s : Store) (p id : String) (a : Assignment)
    → IsOrderly s
    → IsStated id
    → Nested.get p id s.assignments ≡ some a
    → (packet : AssignmentLaunchPacket) × (assignment_launch_packet env s p id ≡ ok packet)
      × IsPacketFor s p a packet
unfolding resolve_launch_packet_skills
launch_packet-IsPacketFor env s p id a o stated_id there =
    let fits = o.consistent.assignments p id a there in
    let (project, found) = some-of (project_at s p) fits.item.0 in
    let filed = o.projects p project found in
    let stated_p : IsStated p = subst IsStated filed.own_id filed.canonical.id in
    let (w, item) = some-of (Nested.get p a.work_item_id s.work_items) fits.item.1 in
    let (role, played) = role-ok env s p project found a.role_id in
    let (skills, resolved, offered) =
      resolve_skills-AllOffered env s p project found
        (compact_strings (a.desired_agent.skill_ids ++ default_skills role.0)) [] []
        (λ k h. absurd h) in
    (
      packet_with env s p id a project w stated_p stated_id found there item role skills,
      launch_packet-eq-ok env s p id a project w stated_p stated_id found there item role skills
          (o.projects p project found).own_id (o.filed p a.work_item_id w item).own_id played
          resolved,
      packet_with-IsPacketFor env s p id a project w stated_p stated_id found there item role skills
          offered,
    )

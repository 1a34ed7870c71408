-- ===== src/Service/Canonical.antt =====
-- The calls of the store that the service makes. Ids and titles are stated (of a skill's id only
-- that it is not empty, and nothing of a candidate that is updated), closed vocabularies are
-- respected, and what a record refers to has been looked up.
use cairnline.Base.{
  String, true, false, ◌&&◌, List, [], ◌∷◌, none, ◌≡◌, ◌⊎◌, ◌≤◌, ◌==◌, ltb, string_eq, nat_eq, ok,
}
use cairnline.Base.Lists.{length}
use cairnline.Base.Sorting.{Has}
use cairnline.Lifecycle.Commands.{
  renew, prepare, release, update_status, complete, Command, claim_lease, fenced, recover,
  host_claim, host_release, host_prepare, host_update_status, host_complete, edit_queued,
}
use cairnline.Lifecycle.Status.{is_progress, is_completion}
use cairnline.Model.Assignment.{queued, status_eq as assignment_status_eq}
use cairnline.Model.Clock.{is_zero}
use cairnline.Model.Memory.{pending, promoted, status_eq}
use cairnline.Model.Project.{Root, Source, Project}
use cairnline.MemoryStore.Calls.{
  Call, create_project, update_project, delete_project, create_skill, update_skill,
  create_work_item, update_work_item, delete_work_item, create_role, update_role, delete_role,
  create_assignment, restore_assignment, command_assignment, delete_assignment, create_artifact,
  create_evidence, create_review, create_handoff, restore_handoff, update_handoff, delete_handoff,
  accept_handoff, create_entry, update_entry, delete_entry, create_candidate, update_candidate,
  delete_candidate, promote_candidate,
}
use cairnline.MemoryStore.State.{Store}
use cairnline.Service.Claims.{new_lease, require_references}
use cairnline.Service.Env.{Env}
use cairnline.Service.HandoffEdits.{is_handoff_status, require_given, require_given_status}
use cairnline.Service.Handoffs.{rune_count}
use cairnline.Service.Memories.{is_memory_candidate_status}
use cairnline.Service.Normalize.{suggested_tools_max_items, valid_skill_status}
use cairnline.Service.Stated.{IsStated, AllStated}
use cairnline.Service.WorkItems.{validate_project_root, validate_project_role_refs}

-- The default root is one of the roots, or "" where there is none.
abbrev pub DefaultRoot : List Root → String → Type 0
DefaultRoot roots id = ((roots ≡ []) × (id ≡ "")) ⊎ ((r : Root) × Has r roots × (r.id ≡ id))

pub record IsCanonicalProject (p : Project) : Type 0 where
  pub id : IsStated p.id
  pub name : IsStated p.name
  pub roots : (r : Root) → Has r p.roots → IsStated r.id
  pub sources : (x : Source) → Has x p.context_sources → IsStated x.id
  pub default_root : DefaultRoot p.roots p.default_root_id

abbrev pub IsCanonicalCommand : Env → Store → String → Command → Type 0
IsCanonicalCommand env s p (claim_lease by lease ttl) =
    IsStated by × (lease ≡ new_lease env.claim_id) × (ttl ≡ env.lease_ttl)
IsCanonicalCommand env s p (fenced c (renew ttl)) = IsStated c × (ttl ≡ env.lease_ttl)
IsCanonicalCommand env s p (fenced c (prepare q)) = IsStated c × (require_references q ≡ ok tt)
IsCanonicalCommand env s p (fenced c release) = IsStated c
IsCanonicalCommand env s p (fenced c (update_status status ref)) =
    IsStated c × (is_progress status ≡ true)
IsCanonicalCommand env s p (fenced c (complete status ref)) =
    IsStated c × (is_completion status ≡ true)
IsCanonicalCommand env s p (recover c) = IsStated c
IsCanonicalCommand env s p (host_claim by) = IsStated by
IsCanonicalCommand env s p (host_release by) = IsStated by
IsCanonicalCommand env s p (host_prepare q) = IsStated q.claimed_by × (require_references q ≡ ok tt)
IsCanonicalCommand env s p (host_update_status status ref) = is_progress status ≡ true
IsCanonicalCommand env s p (host_complete status ref) = is_completion status ≡ true
IsCanonicalCommand env s p (edit_queued u) =
    IsStated u.replacement.work_item_id
    × IsStated u.replacement.role_id
    × (is_zero u.expected_updated_at ≡ false)
    × (validate_project_root s p u.replacement.root_id ≡ ok tt)

-- A call that the service may make on a store.
abbrev pub IsCanonical : Env → Store → Call → Type 0
IsCanonical env s (create_project p) = IsCanonicalProject p
IsCanonical env s (update_project p) = IsCanonicalProject p
IsCanonical env s (delete_project id) = IsStated id
IsCanonical env s (create_skill k) =
    IsStated k.project_id
    × ((k.id == "") ≡ false)
    × (k.format ≡ "skill_md")
    × (valid_skill_status k.status ≡ true)
    × (length k.suggested_tools ≤ suggested_tools_max_items)
    × (k.enabled ≡ true)
IsCanonical env s (update_skill k) =
    IsStated k.project_id
    × ((k.id == "") ≡ false)
    × (k.format ≡ "skill_md")
    × (valid_skill_status k.status ≡ true)
    × (length k.suggested_tools ≤ suggested_tools_max_items)
IsCanonical env s (create_work_item w) =
    AllStated (w.project_id ∷ w.id ∷ w.title ∷ [])
    × (validate_project_root s w.project_id w.root_id ≡ ok tt)
    × (validate_project_role_refs s w.project_id w.owner_role_id w.reviewer_role_ids ≡ ok tt)
IsCanonical env s (update_work_item w) =
    AllStated (w.project_id ∷ w.id ∷ w.title ∷ [])
    × (validate_project_root s w.project_id w.root_id ≡ ok tt)
    × (validate_project_role_refs s w.project_id w.owner_role_id w.reviewer_role_ids ≡ ok tt)
IsCanonical env s (delete_work_item p id) = AllStated (p ∷ id ∷ [])
IsCanonical env s (create_role r) = AllStated (r.project_id ∷ r.id ∷ r.name ∷ [])
IsCanonical env s (update_role r) = AllStated (r.project_id ∷ r.id ∷ r.name ∷ [])
IsCanonical env s (delete_role p id) = AllStated (p ∷ id ∷ [])
IsCanonical env s (create_assignment a) =
    AllStated (a.project_id ∷ a.id ∷ a.work_item_id ∷ a.role_id ∷ [])
    × (a.status ≡ queued)
    × (a.claim ≡ none)
    × (validate_project_root s a.project_id a.root_id ≡ ok tt)
IsCanonical env s (restore_assignment a) = ⊥
IsCanonical env s (command_assignment p id c now) =
    AllStated (p ∷ id ∷ []) × (now ≡ env.now) × IsCanonicalCommand env s p c
IsCanonical env s (delete_assignment p id) = AllStated (p ∷ id ∷ [])
IsCanonical env s (create_artifact a) =
    AllStated (a.project_id ∷ a.work_item_id ∷ a.id ∷ a.kind ∷ a.body ∷ [])
IsCanonical env s (create_evidence e) =
    AllStated (e.project_id ∷ e.work_item_id ∷ e.id ∷ e.title ∷ [])
    × ((e.body == "" && e.locator == "") ≡ false)
IsCanonical env s (create_review r) =
    AllStated (r.project_id ∷ r.work_item_id ∷ r.id ∷ r.body ∷ r.verdict ∷ [])
    × (r.status ≡ "recorded")
IsCanonical env s (create_handoff h) =
    AllStated (h.project_id ∷ h.work_item_id ∷ h.id ∷ h.title ∷ h.body ∷ [])
    × (is_handoff_status h.status ≡ true)
IsCanonical env s (restore_handoff h) = ⊥
IsCanonical env s (update_handoff p w id u now) =
    AllStated (p ∷ w ∷ id ∷ [])
    × (now ≡ env.now)
    × (is_zero u.expected_updated_at ≡ false)
    × (require_given u.patch.title "handoff title is required" ≡ ok tt)
    × (require_given u.patch.body "handoff body is required" ≡ ok tt)
    × (require_given_status u.patch.status ≡ ok tt)
IsCanonical env s (delete_handoff p w id d) =
    AllStated (p ∷ w ∷ id ∷ []) × (is_zero d.expected_updated_at ≡ false)
IsCanonical env s (accept_handoff c new_id stamp now) =
    AllStated (c.project_id ∷ c.work_item_id ∷ c.handoff_id ∷ c.idempotency_key ∷ new_id ∷ [])
    × (is_zero c.expected_updated_at ≡ false)
    × (ltb 128 (rune_count c.idempotency_key) ≡ false)
    × (stamp ≡ env.stamp)
    × (now ≡ env.now)
IsCanonical env s (create_entry e) = AllStated (e.project_id ∷ e.id ∷ e.title ∷ e.body ∷ [])
IsCanonical env s (update_entry e) = AllStated (e.project_id ∷ e.id ∷ e.title ∷ e.body ∷ [])
IsCanonical env s (delete_entry p id) = AllStated (p ∷ id ∷ [])
IsCanonical env s (create_candidate c) =
    AllStated (c.project_id ∷ c.id ∷ c.title ∷ c.body ∷ [])
    × (c.status ≡ pending)
    × (c.promoted_memory_id ≡ "")
IsCanonical env s (update_candidate c) =
    (is_memory_candidate_status c.status ≡ true)
    × ((c.status == promoted) ≡ false → c.promoted_memory_id ≡ "")
    × (c.status ≡ pending → c.status_reason ≡ "")
IsCanonical env s (delete_candidate p id) = AllStated (p ∷ id ∷ [])
IsCanonical env s (promote_candidate p id e) =
    AllStated (p ∷ id ∷ e.project_id ∷ e.id ∷ e.title ∷ e.body ∷ [])

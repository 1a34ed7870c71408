-- ===== src/Reports/Health/Sound.antt =====
-- The health report is given, bounded and without repetitions.
use cairnline.Base.{
  ℕ, ◌+◌, ◌≤◌, zero, suc, String, true, false, ◌≡◌, ◌≢◌, ◌↔◌, inl, inr, refl, ap, arith, List, [],
  ◌∷◌, some, ok, ◌==◌, ◌||◌, string_eq, eq_iff, Bool-cases, ltb,
}
use Prim.Native.Nat.{min}
use cairnline.Base.Lists.{length, take, length-take, any}
use cairnline.Base.Sorting.{Has}
use cairnline.Base.Trim.{trim_space, is_blank}
use cairnline.Base.Trimmed.{trim_space_idem}
use cairnline.Model.Clock.{Time}
use cairnline.Model.Collaboration.{Review}
use cairnline.Model.Handoff.{Handoff}
use cairnline.Model.Project.{Project}
use cairnline.Model.Work.{WorkItem}
use cairnline.MemoryStore.State.{Store, project_at, require_work_item}
use cairnline.MemoryStore.Integrity.Filed.{IsFiled}
use cairnline.MemoryStore.Projects.{get_project}
use cairnline.MemoryStore.Lists.{list_work_items, list_handoffs, list_reviews}
use cairnline.MemoryStore.Listing.{
  list_work_items-ok, list_work_items-Has, list_roles-ok, list_project_skills-ok,
  list_assignments-ok, list_memory_entries-ok, list_memory_candidates-ok,
}
use cairnline.Reports.Onboarding.{project_setup_readiness-IsSetup}
use cairnline.Reports.Operations.Sound.{operations-IsBrief}
use cairnline.Reports.Health.Types.{ProjectHealthSummary, ProjectHealthAttentionItem, ProjectHealth}
use cairnline.Reports.Health.Attention.{unique_attention, skill_issues}
use cairnline.Reports.Health.Report.{
  health_of, health_artifacts, health_summary, all_attention, project_health,
}

-- No item has this id.
abbrev pub Avoids : String → List ProjectHealthAttentionItem → Type 0
Avoids id [] = Unit
Avoids id (i ∷ rest) = (i.id ≢ id) × Avoids id rest

-- No id is blank, and none stands twice.
abbrev pub IsDistinct : List ProjectHealthAttentionItem → Type 0
IsDistinct [] = Unit
IsDistinct (i ∷ rest) = (is_blank i.id ≡ false) × Avoids i.id rest × IsDistinct rest

unique_attention-Avoids :
    (id : String) (seen : List String) (items : List ProjectHealthAttentionItem)
    → any (λ s. s == id) seen ≡ true
    → Avoids id (unique_attention seen items)
unfolding unique_attention any
unique_attention-Avoids id seen [] h = tt
unique_attention-Avoids id seen (i ∷ rest) h =
    elim (Bool-cases (trim_space i.id == "" || any (λ s. s == i.id) seen)) [
      | inl skipped ↦ rw skipped (unique_attention-Avoids id seen rest h)
      | inr fresh ↦ rw fresh (
        λ e. ground (arith, ap (λ x. any (λ s. s == x) seen) e),
        unique_attention-Avoids id (i.id ∷ seen) rest (ground arith),
      )
    ]

unique_attention-IsDistinct :
    (seen : List String) (items : List ProjectHealthAttentionItem)
    → IsDistinct (unique_attention seen items)
unfolding unique_attention any
unique_attention-IsDistinct seen [] = tt
unique_attention-IsDistinct seen (i ∷ rest) =
    elim (Bool-cases (trim_space i.id == "" || any (λ s. s == i.id) seen)) [
      | inl skipped ↦ rw skipped (unique_attention-IsDistinct seen rest)
      | inr fresh ↦ rw fresh (
        ground arith,
        unique_attention-Avoids i.id (i.id ∷ seen) rest (ground (arith, eq_iff i.id i.id)),
        unique_attention-IsDistinct (i.id ∷ seen) rest,
      )
    ]

take-Avoids :
    (n : ℕ) (id : String) (items : List ProjectHealthAttentionItem)
    → Avoids id items
    → Avoids id (take n items)
unfolding take
take-Avoids zero id items h = tt
take-Avoids (suc n) id [] h = tt
take-Avoids (suc n) id (i ∷ rest) h = (h.0, take-Avoids n id rest h.1)

take-IsDistinct :
    (n : ℕ) (items : List ProjectHealthAttentionItem) → IsDistinct items → IsDistinct (take n items)
unfolding take
take-IsDistinct zero items h = tt
take-IsDistinct (suc n) [] h = tt
take-IsDistinct (suc n) (i ∷ rest) h =
    (h.0, take-Avoids n i.id rest h.1, take-IsDistinct n rest h.2)

pub record IsHealth (h : ProjectHealth) : Type 0 where
  pub bounded : length h.attention ≤ 5
  pub counted : length h.attention ≡ h.summary.attention_count
  pub omitted :
      h.summary.attention_count + h.summary.omitted_attention_count
      ≡ h.summary.available_attention_count
  pub full : length h.attention ≡ min 5 h.summary.available_attention_count
  pub distinct : IsDistinct h.attention
  pub clear : (h.status ≡ "clear") ↔ (h.summary.available_attention_count ≡ 0)

health_of-IsHealth :
    (project : Project) (summary : ProjectHealthSummary) (issues : List String)
    (candidates : List ProjectHealthAttentionItem) (created_at : Time)
    → IsHealth (health_of project summary issues candidates created_at)
unfolding health_of
health_of-IsHealth project summary issues candidates created_at =
    let attention = unique_attention [] candidates in
    let shorter = length-take 5 attention in
    record {
      bounded = ground (arith, shorter);
      counted = refl;
      omitted = ground (arith, shorter);
      full = ground (arith, shorter);
      distinct = elim (Bool-cases (ltb 5 (length attention))) [
        | inl long ↦
            rw long (take-IsDistinct 5 attention (unique_attention-IsDistinct [] candidates))
        | inr short ↦ rw short (unique_attention-IsDistinct [] candidates)
      ];
      clear = ground (arith, eq_iff "attention" "clear");
    }

-- The listed work items are found by their ids.
listed_under :
    (s : Store) (p : String) (project : Project) (work_items : List WorkItem)
    → project_at s p ≡ some project
    → IsFiled s
    → list_work_items s p ≡ ok work_items
    → (w : WorkItem) → Has w work_items
    → require_work_item s p w.id ≡ ok tt
unfolding require_work_item
listed_under s p project work_items found filed listed w h =
    let stored = list_work_items-Has s p project work_items w found listed h in
    let names = filed p stored.0 w stored.1 in rw (names.own_id, found, stored.1) refl

health_artifacts-ok :
    (s : Store) (p : String) (work_items : List WorkItem)
    → ((w : WorkItem) → Has w work_items → require_work_item s p w.id ≡ ok tt)
    → (out : List Handoff × List Review) × (health_artifacts s p work_items ≡ ok out)
unfolding health_artifacts list_handoffs list_reviews
health_artifacts-ok s p [] found = (([], []), refl)
health_artifacts-ok s p (w ∷ rest) found =
    let others = health_artifacts-ok s p rest (λ v h. found v (inr h)) in
    rw (found w (inl refl), others.1) (_, refl)

-- For a project that exists, in a store that files each work item under its own ids, the health
-- report is given: it shows at most five items, and as many as there are up to five; the shown and
-- the omitted ones together are the available ones; no id is blank or stands twice; and the status
-- is "clear" exactly when no item is available.
pub project_health-IsHealth :
    (quote to_lower : String → String) (s : Store) (now : Time) (project_id : String)
    (project : Project)
    → is_blank project_id ≡ false
    → project_at s (trim_space project_id) ≡ some project
    → IsFiled s
    → (h : ProjectHealth) × (project_health quote to_lower s now project_id ≡ ok h) × IsHealth h
unfolding project_health get_project
project_health-IsHealth quote to_lower s now project_id project named found filed =
    let p = trim_space project_id in
    let same : trim_space p ≡ p = trim_space_idem project_id in
    let named_p : is_blank p ≡ false = rw same named in
    let found_p : project_at s (trim_space p) ≡ some project = rw same found in
    let setup = project_setup_readiness-IsSetup s now p project named_p found_p in
    let operations = operations-IsBrief quote s now p project named_p found_p filed in
    let roles = list_roles-ok s p project found in
    let skills = list_project_skills-ok s p project found in
    let assignments = list_assignments-ok s p project found in
    let work_items = list_work_items-ok s p project found in
    let entries = list_memory_entries-ok s p project found true in
    let candidates = list_memory_candidates-ok s p project found "" true in
    let listed = listed_under s p project work_items.0 found filed work_items.1 in
    let artifacts = health_artifacts-ok s p work_items.0 listed in
    let summary =
      health_summary project setup.0 operations.0 entries.0 candidates.0 artifacts.0.0
        artifacts.0.1 in
    let issues = skill_issues to_lower roles.0 assignments.0 skills.0 in
    let all = all_attention project setup.0 operations.0 summary issues in
    rw
      (
        named, found, setup.2, operations.1, roles.1, skills.1, assignments.1, work_items.1,
        entries.1, candidates.1, artifacts.1,
      )
      (
        health_of project summary issues all operations.0.created_at,
        refl,
        health_of-IsHealth project summary issues all operations.0.created_at,
      )

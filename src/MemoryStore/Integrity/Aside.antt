-- ===== src/MemoryStore/Integrity/Aside.antt =====
-- Skills, roles and memory, which the invariant does not read.
use cairnline.Base.{String, ◌≡◌, ◌⊎◌, sym, subst, arith, ok, string_eq}
use cairnline.Model.Project.{ProjectSkill}
use cairnline.Model.Work.{Role}
use cairnline.Model.Memory.{MemoryEntry, MemoryCandidate, status_eq}
use cairnline.MemoryStore.State.{Store}
use cairnline.MemoryStore.Skills.{create_project_skill, update_project_skill}
use cairnline.MemoryStore.Roles.{create_role, update_role, delete_role}
use cairnline.MemoryStore.Memory.{
  create_memory_entry, update_memory_entry, delete_memory_entry, create_memory_candidate,
  update_memory_candidate, delete_memory_candidate, promote_memory_candidate,
}
use cairnline.MemoryStore.Integrity.Defs.{IsConsistent}

-- The new store has the old one's records, whatever its skills, roles and memory are.
abbrev pub Aside : Store → Store → Type 0
Aside s t =
    t ≡ record s { skills = t.skills; roles = t.roles; entries = t.entries; memory = t.memory }

pub Aside-IsConsistent : (s t : Store) → Aside s t → IsConsistent s → IsConsistent t
Aside-IsConsistent s t e c = subst IsConsistent (sym e) (record {
  assignments = c.assignments;
  artifacts = c.artifacts;
  evidence = c.evidence;
  reviews = c.reviews;
  handoffs = c.handoffs;
})

pub skill-Aside :
    (s : Store) (k l : ProjectSkill) (t : Store)
    → (create_project_skill s k ≡ ok (l, t)) ⊎ (update_project_skill s k ≡ ok (l, t))
    → Aside s t
unfolding create_project_skill update_project_skill
skill-Aside s k l t e = ground arith

pub role-Aside :
    (s : Store) (r q : Role) (t : Store)
    → (create_role s r ≡ ok (q, t)) ⊎ (update_role s r ≡ ok (q, t))
    → Aside s t
unfolding create_role update_role
role-Aside s r q t e = ground arith

pub delete_role-Aside :
    (s : Store) (p id : String) (t : Store) → delete_role s p id ≡ ok t → Aside s t
unfolding delete_role
delete_role-Aside s p id t e = ground arith

pub entry-Aside :
    (s : Store) (m n : MemoryEntry) (t : Store)
    → (create_memory_entry s m ≡ ok (n, t)) ⊎ (update_memory_entry s m ≡ ok (n, t))
    → Aside s t
unfolding create_memory_entry update_memory_entry
entry-Aside s m n t e = ground arith

pub candidate-Aside :
    (s : Store) (m n : MemoryCandidate) (t : Store)
    → (create_memory_candidate s m ≡ ok (n, t)) ⊎ (update_memory_candidate s m ≡ ok (n, t))
    → Aside s t
unfolding create_memory_candidate update_memory_candidate
candidate-Aside s m n t e = ground arith

pub delete_memory-Aside :
    (s : Store) (p id : String) (t : Store)
    → (delete_memory_entry s p id ≡ ok t) ⊎ (delete_memory_candidate s p id ≡ ok t)
    → Aside s t
unfolding delete_memory_entry delete_memory_candidate
delete_memory-Aside s p id t e = ground arith

pub promote-Aside :
    (s : Store) (p id : String) (e f : MemoryEntry) (c : MemoryCandidate) (t : Store)
    → promote_memory_candidate s p id e ≡ ok (c, f, t)
    → Aside s t
unfolding promote_memory_candidate
promote-Aside s p id e f c t h = ground arith

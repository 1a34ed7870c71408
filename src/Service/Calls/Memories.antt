-- ===== src/Service/Calls/Memories.antt =====
-- Requests on project memory as calls of the store.
use cairnline.Base.{String, true, ok, ◌≡◌, refl, arith, string_eq, Result-cases, inl, inr}
use cairnline.Base.Trim.{trim_space}
use cairnline.Base.Text.{first_non_empty}
use cairnline.Model.Memory.{pending, rejected, status_eq, MemoryEntry, MemoryCandidate}
use cairnline.MemoryStore.Accept.{RequestPayload}
use cairnline.MemoryStore.Calls
use cairnline.MemoryStore.Calls.{dispatch, state, state_of_pair}
use cairnline.MemoryStore.Memory as MemoryTable
use cairnline.MemoryStore.State.{Store}
use cairnline.Service.Calls.Step.{Called}
use cairnline.Service.Env.{Env}
use cairnline.Service.Memories
use cairnline.Service.Memories.{
  MemoryCandidatePromotion, entry_of, candidate_of, pending_or, promoted_entry,
}
use cairnline.Service.Normalize.{imported_timestamps, stamp_or}
use cairnline.Service.Stated.{
  IsSound, pair-AllStated, trim_space-IsStated, first_non_empty-IsStated,
}

module _ (fingerprint : RequestPayload → String) (env : Env) (sound : IsSound env) where
  pub create_memory_entry-Called :
      (s : Store) (input e : MemoryEntry) (t : Store)
      → Memories.create_memory_entry env s input ≡ ok (e, t)
      → Called fingerprint env s t
  unfolding Memories.create_memory_entry dispatch entry_of
  create_memory_entry-Called s input e t h =
      let stamps = imported_timestamps input.created_at input.updated_at env.now in
      let id = first_non_empty (trim_space input.id) (env.new_id "mem" 0) in
      record {
        call = Calls.create_entry (entry_of id true stamps.0 stamps.1 input);
        canonical = (
          trim_space-IsStated _ (ground arith),
          (
            first_non_empty-IsStated _ _ (sound.new_id "mem" 0),
            (trim_space-IsStated _ (ground arith), (trim_space-IsStated _ (ground arith), tt)),
          ),
        );
        dispatched = ground arith;
      }

  pub update_memory_entry-Called :
      (s : Store) (input e : MemoryEntry) (t : Store)
      → Memories.update_memory_entry env s input ≡ ok (e, t)
      → Called fingerprint env s t
  unfolding Memories.update_memory_entry dispatch entry_of
  update_memory_entry-Called s input e t h =
      let id = trim_space input.id in
      elim (Result-cases (MemoryTable.get_memory_entry s (trim_space input.project_id) id)) [
        | inl (f, gone) ↦ absurd (ground arith)
        | inr (old, found) ↦ record {
          call =
              Calls.update_entry (
                entry_of id input.enabled old.created_at (stamp_or input.updated_at env.now) input);
          canonical = (
            trim_space-IsStated _ (ground arith),
            (
              trim_space-IsStated _ (ground arith),
              (trim_space-IsStated _ (ground arith), (trim_space-IsStated _ (ground arith), tt)),
            ),
          );
          dispatched = ground arith;
        }
      ]

  pub delete_memory_entry-Called :
      (s : Store) (p id : String) (t : Store)
      → Memories.delete_memory_entry s p id ≡ ok t
      → Called fingerprint env s t
  unfolding Memories.delete_memory_entry dispatch
  delete_memory_entry-Called s p id t h = record {
    call = Calls.delete_entry (trim_space p) (trim_space id);
    canonical = pair-AllStated p id (ground arith) (ground arith);
    dispatched = ground arith;
  }

  pub create_memory_candidate-Called :
      (s : Store) (input c : MemoryCandidate) (t : Store)
      → Memories.create_memory_candidate env s input ≡ ok (c, t)
      → Called fingerprint env s t
  unfolding Memories.create_memory_candidate dispatch candidate_of
  create_memory_candidate-Called s input c t h =
      let stamps = imported_timestamps input.created_at input.updated_at env.now in
      let id = first_non_empty (trim_space input.id) (env.new_id "memcand" 0) in
      record {
        call = Calls.create_candidate (candidate_of id pending stamps.0 stamps.1 input);
        canonical = (
          (
            trim_space-IsStated _ (ground arith),
            (
              first_non_empty-IsStated _ _ (sound.new_id "memcand" 0),
              (trim_space-IsStated _ (ground arith), (trim_space-IsStated _ (ground arith), tt)),
            ),
          ),
          refl,
          refl,
        );
        dispatched = ground arith;
      }

  pub update_memory_candidate-Called :
      (s : Store) (input c : MemoryCandidate) (t : Store)
      → Memories.update_memory_candidate env s input ≡ ok (c, t)
      → Called fingerprint env s t
  unfolding Memories.update_memory_candidate dispatch candidate_of
  update_memory_candidate-Called s input c t h =
      let id = trim_space input.id in
      let status = pending_or input.status in
      elim (Result-cases (MemoryTable.get_memory_candidate s (trim_space input.project_id) id)) [
        | inl (f, gone) ↦ absurd (ground arith)
        | inr (old, found) ↦ record {
          call =
              Calls.update_candidate
                (candidate_of id status old.created_at (stamp_or input.updated_at env.now) input);
          canonical = (ground arith, ground arith, ground arith);
          dispatched = ground arith;
        }
      ]

  pub reject_memory_candidate-Called :
      (s : Store) (p id reason : String) (c : MemoryCandidate) (t : Store)
      → Memories.reject_memory_candidate env s p id reason ≡ ok (c, t)
      → Called fingerprint env s t
  unfolding Memories.reject_memory_candidate dispatch
  reject_memory_candidate-Called s p id reason c t h =
      elim (Result-cases (MemoryTable.get_memory_candidate s (trim_space p) (trim_space id))) [
        | inl (f, gone) ↦ absurd (ground arith)
        | inr (old, found) ↦ record {
          call = Calls.update_candidate (record old {
            status = rejected;
            status_reason = trim_space reason;
            promoted_memory_id = "";
            updated_at = env.now;
          });
          canonical = (refl, (λ _. refl), λ same. ground arith);
          dispatched = ground arith;
        }
      ]

  pub promote_memory_candidate-Called :
      (s : Store) (input : MemoryCandidatePromotion) (c : MemoryCandidate) (e : MemoryEntry)
      (t : Store)
      → Memories.promote_memory_candidate env s input ≡ ok (c, e, t)
      → Called fingerprint env s t
  unfolding Memories.promote_memory_candidate dispatch promoted_entry
  promote_memory_candidate-Called s input c e t h =
      let p = trim_space input.project_id in
      let id = trim_space input.candidate_id in
      elim (Result-cases (MemoryTable.get_memory_candidate s p id)) [
        | inl (f, gone) ↦ absurd (ground arith)
        | inr (old, found) ↦ record {
          call = Calls.promote_candidate p id (promoted_entry env input old);
          canonical = (
            trim_space-IsStated _ (ground arith),
            (
              trim_space-IsStated _ (ground arith),
              (
                trim_space-IsStated _ (ground arith),
                (
                  sound.new_id "mem" 0,
                  (
                    trim_space-IsStated _ (ground arith),
                    (trim_space-IsStated _ (ground arith), tt),
                  ),
                ),
              ),
            ),
          );
          dispatched = ground arith;
        }
      ]

  pub delete_memory_candidate-Called :
      (s : Store) (p id : String) (t : Store)
      → Memories.delete_memory_candidate s p id ≡ ok t
      → Called fingerprint env s t
  unfolding Memories.delete_memory_candidate dispatch
  delete_memory_candidate-Called s p id t h = record {
    call = Calls.delete_candidate (trim_space p) (trim_space id);
    canonical = pair-AllStated p id (ground arith) (ground arith);
    dispatched = ground arith;
  }

-- ===== src/Service/Calls/Handoffs.antt =====
-- Requests on handoffs as calls of the store.
use cairnline.Base.{
  String, false, ok, ◌≡◌, refl, arith, string_eq, nat_eq, Result-cases, inl, inr, some,
}
use cairnline.Base.Trim.{trim_space}
use cairnline.Model.Clock.{Time, is_zero}
use cairnline.Model.Handoff.{
  HandoffStatus, Handoff, HandoffUpdate, HandoffDelete, HandoffFollowUpResult,
  AcceptHandoffWithFollowUpCommand, trimmed_status,
}
use cairnline.MemoryStore.Accept.{RequestPayload}
use cairnline.MemoryStore.Calls
use cairnline.MemoryStore.Calls.{dispatch, state}
use cairnline.MemoryStore.State.{Store}
use cairnline.Service.Calls.Step.{Called}
use cairnline.Service.Env.{Env}
use cairnline.Service.Handoffs
use cairnline.Service.HandoffEdits.{
  full_patch, empty_patch, normalize_handoff_update, require_given, require_given_status,
}
use cairnline.Service.Handoffs.{handoff_of, trimmed_command, rune_count}
use cairnline.Service.Stated.{
  IsSound, pair-AllStated, trim_space-IsStated, first_non_empty-IsStated,
}

record IsNormalized (u : HandoffUpdate) : Type 0 where
  seen : is_zero u.expected_updated_at ≡ false
  title : require_given u.patch.title "handoff title is required" ≡ ok tt
  body : require_given u.patch.body "handoff body is required" ≡ ok tt
  status : require_given_status u.patch.status ≡ ok tt

normalize-IsNormalized : (u v : HandoffUpdate) → normalize_handoff_update u ≡ ok v → IsNormalized v
unfolding normalize_handoff_update
normalize-IsNormalized u v h = record {
  seen = ground arith;
  title = ground arith;
  body = ground arith;
  status = ground arith;
}

module _ (fingerprint : RequestPayload → String) (env : Env) (sound : IsSound env) where
  pub create_handoff-Called :
      (s : Store) (input h : Handoff) (t : Store)
      → Handoffs.create_handoff env s input ≡ ok (h, t)
      → Called fingerprint env s t
  unfolding Handoffs.create_handoff dispatch handoff_of
  create_handoff-Called s input h t e = record {
    call = Calls.create_handoff (handoff_of env input);
    canonical = (
      (
        trim_space-IsStated _ (ground arith),
        (
          trim_space-IsStated _ (ground arith),
          (
            first_non_empty-IsStated _ _ (sound.new_id "handoff" 0),
            (trim_space-IsStated _ (ground arith), (trim_space-IsStated _ (ground arith), tt)),
          ),
        ),
      ),
      ground arith,
    );
    dispatched = ground arith;
  }

  pub patch_handoff-Called :
      (s : Store) (p w id : String) (u : HandoffUpdate) (h : Handoff) (t : Store)
      → Handoffs.patch_handoff env s p w id u ≡ ok (h, t)
      → Called fingerprint env s t
  unfolding Handoffs.patch_handoff dispatch
  patch_handoff-Called s p w id u h t e = elim (Result-cases (normalize_handoff_update u)) [
    | inl (f, bad) ↦ absurd (ground arith)
    | inr (v, done) ↦
        let facts = normalize-IsNormalized u v done in
        record {
          call = Calls.update_handoff (trim_space p) (trim_space w) (trim_space id) v env.now;
          canonical = (
            (
              trim_space-IsStated p (ground arith),
              pair-AllStated w id (ground arith) (ground arith),
            ),
            refl,
            facts.seen,
            facts.title,
            facts.body,
            facts.status,
          );
          dispatched = ground arith;
        }
  ]

  pub update_handoff-Called :
      (s : Store) (input h : Handoff) (t : Store)
      → Handoffs.update_handoff env s input ≡ ok (h, t)
      → Called fingerprint env s t
  unfolding Handoffs.update_handoff
  update_handoff-Called s input h t e =
      patch_handoff-Called s input.project_id input.work_item_id input.id
        (record { expected_updated_at = input.updated_at; patch = full_patch input }) h t e

  pub update_handoff_status-Called :
      (s : Store) (p w id : String) (seen : Time) (status : HandoffStatus) (h : Handoff) (t : Store)
      → Handoffs.update_handoff_status env s p w id seen status ≡ ok (h, t)
      → Called fingerprint env s t
  unfolding Handoffs.update_handoff_status
  update_handoff_status-Called s p w id seen status h t e =
      patch_handoff-Called s p w id
        (record {
          expected_updated_at = seen;
          patch = record empty_patch { status = some (trimmed_status status) };
        })
        h t (ground arith)

  pub delete_handoff-Called :
      (s : Store) (p w id : String) (d : HandoffDelete) (t : Store)
      → Handoffs.delete_handoff s p w id d ≡ ok t
      → Called fingerprint env s t
  unfolding Handoffs.delete_handoff dispatch
  delete_handoff-Called s p w id d t e = record {
    call = Calls.delete_handoff (trim_space p) (trim_space w) (trim_space id) d;
    canonical = (
      (trim_space-IsStated p (ground arith), pair-AllStated w id (ground arith) (ground arith)),
      ground arith,
    );
    dispatched = ground arith;
  }

  pub accept_handoff_with_follow_up-Called :
      (s : Store) (c : AcceptHandoffWithFollowUpCommand) (r : HandoffFollowUpResult) (t : Store)
      → Handoffs.accept_handoff_with_follow_up fingerprint env s c ≡ ok (r, t)
      → Called fingerprint env s t
  unfolding Handoffs.accept_handoff_with_follow_up dispatch trimmed_command
  accept_handoff_with_follow_up-Called s c r t e = record {
    call = Calls.accept_handoff (trimmed_command c) (env.new_id "asgn" 0) env.stamp env.now;
    canonical = (
      (
        trim_space-IsStated _ (ground arith),
        (
          trim_space-IsStated _ (ground arith),
          (
            trim_space-IsStated _ (ground arith),
            (trim_space-IsStated _ (ground arith), (sound.new_id "asgn" 0, tt)),
          ),
        ),
      ),
      ground arith,
      ground arith,
      refl,
      refl,
    );
    dispatched = ground arith;
  }

-- ===== src/Service/Calls/Assignments.antt =====
-- The creation, the edit and the deletion of an assignment as calls of the store.
use cairnline.Base.{String, false, ok, ◌≡◌, refl, arith, string_eq, nat_eq, Result-cases, inl, inr}
use cairnline.Base.Text.{first_non_empty}
use cairnline.Base.Trim.{trim_space}
use cairnline.Lifecycle.Commands.{edit_queued}
use cairnline.Model.Assignment.{Assignment, AssignmentCoordination, QueuedAssignmentUpdate}
use cairnline.Model.Clock.{is_zero}
use cairnline.MemoryStore.Accept.{RequestPayload}
use cairnline.MemoryStore.Calls
use cairnline.MemoryStore.Calls.{dispatch, state, transact}
use cairnline.MemoryStore.State.{Store}
use cairnline.Service.Assignments
use cairnline.Service.Assignments.{
  assignment_of, normalize_coordination, normalize_queued_assignment_update,
}
use cairnline.Service.Calls.Step.{Called}
use cairnline.Service.Env.{Env}
use cairnline.Service.Normalize.{normalize_execution_mode}
use cairnline.Service.Stated.{
  IsStated, pair-AllStated, IsSound, trim_space-IsStated, first_non_empty-IsStated,
}

coordination-IsStated :
    (c d : AssignmentCoordination)
    → normalize_coordination c ≡ ok d
    → IsStated d.work_item_id × IsStated d.role_id
unfolding normalize_coordination
coordination-IsStated c d h = (
  ground (arith, trim_space-IsStated c.work_item_id),
  ground (arith, trim_space-IsStated c.role_id),
)

update-IsStated :
    (u v : QueuedAssignmentUpdate)
    → normalize_queued_assignment_update u ≡ ok v
    → (is_zero v.expected_updated_at ≡ false)
      × IsStated v.replacement.work_item_id
      × IsStated v.replacement.role_id
unfolding normalize_queued_assignment_update
update-IsStated u v h = elim (Result-cases (normalize_coordination u.replacement)) [
  | inl (e, bad) ↦ absurd (ground arith)
  | inr (d, done) ↦
      let stated = coordination-IsStated u.replacement d done in
      (ground arith, ground arith, ground arith)
]

module _ (fingerprint : RequestPayload → String) (env : Env) (sound : IsSound env) where
  pub create_assignment-Called :
      (s : Store) (input a : Assignment) (t : Store)
      → Assignments.create_assignment env s input ≡ ok (a, t)
      → Called fingerprint env s t
  unfolding Assignments.create_assignment dispatch assignment_of
  create_assignment-Called s input a t h =
      let id = first_non_empty (trim_space input.id) (env.new_id "asgn" 0) in
      elim (Result-cases (normalize_execution_mode input.execution_mode false)) [
        | inl (e, bad) ↦ absurd (ground arith)
        | inr (mode, done) ↦ record {
          call = Calls.create_assignment (assignment_of env id mode input);
          canonical = (
            (
              trim_space-IsStated _ (ground arith),
              (
                first_non_empty-IsStated _ _ (sound.new_id "asgn" 0),
                (trim_space-IsStated _ (ground arith), (trim_space-IsStated _ (ground arith), tt)),
              ),
            ),
            refl,
            refl,
            ground arith,
          );
          dispatched = ground arith;
        }
      ]

  pub update_queued_assignment-Called :
      (s : Store) (p id : String) (u : QueuedAssignmentUpdate) (a : Assignment) (t : Store)
      → Assignments.update_queued_assignment env s p id u ≡ ok (a, t)
      → Called fingerprint env s t
  unfolding Assignments.update_queued_assignment dispatch transact
  update_queued_assignment-Called s p id u a t h =
      elim (Result-cases (normalize_queued_assignment_update u)) [
        | inl (e, bad) ↦ absurd (ground arith)
        | inr (v, done) ↦
            let stated = update-IsStated u v done in
            record {
              call =
                  Calls.command_assignment (trim_space p) (trim_space id) (edit_queued v) env.now;
              canonical = (
                pair-AllStated p id (ground arith) (ground arith),
                refl,
                (stated.1, stated.2, stated.0, ground arith),
              );
              dispatched = ground arith;
            }
      ]

  pub delete_assignment-Called :
      (s : Store) (p id : String) (t : Store)
      → Assignments.delete_assignment s p id ≡ ok t
      → Called fingerprint env s t
  unfolding Assignments.delete_assignment dispatch
  delete_assignment-Called s p id t h = record {
    call = Calls.delete_assignment (trim_space p) (trim_space id);
    canonical = pair-AllStated p id (ground arith) (ground arith);
    dispatched = ground arith;
  }

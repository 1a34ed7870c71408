-- ===== src/Examples/Requests.antt =====
-- A service at work, from a new store.
use cairnline.Base.{
  ℕ, String, true, false, some, none, List, [], ◌∷◌, Result, ok, err, not_found, ◌≡◌, refl, inl,
  inr, subst, false, ◌==◌, string_eq,
}
use cairnline.Base.Lists.{any}
use cairnline.Base.Nested
use cairnline.Base.Table
use cairnline.Base.Trim.{trim_space, is_space}
use cairnline.Model.Assignment.{Assignment, AssignmentStatus, no_execution}
use cairnline.Model.Project.{Project, Root}
use cairnline.MemoryStore.Projects
use cairnline.MemoryStore.State.{Store, new_store, key_eq}
use cairnline.Service.Env.{Env}
use cairnline.Service.History.{IsOrderly, serve_all_new-IsOrderly, AllSound}
use cairnline.Service.Launch.{AssignmentLaunchPacket, assignment_launch_packet}
use cairnline.Service.Packets.{IsPacketFor, launch_packet-IsPacketFor}
use cairnline.Service.Requests.{
  Request, create_project, create_role, create_work_item, create_assignment, serve, serve_all,
}
use cairnline.Service.Projects.{root_of, write_through}
use cairnline.Service.Stated.{IsStated, IsSound}
use cairnline.Examples.Shop.{fingerprint, project, role, item}

abbrev pub bench : Env
bench = record {
  now = 10;
  stamp = 10;
  lease_ttl = 300;
  claim_id = "claim_1";
  new_id = λ prefix n. "fresh";
  clean = λ path. path;
  to_slash = λ path. path;
  to_lower = λ text. text;
}

bench-IsSound : IsSound bench
unfolding trim_space is_space
bench-IsSound = record {
  new_id = λ prefix n. record { trimmed = refl; said = refl };
  claim_id = record { trimmed = refl; said = refl };
}

abbrev pub root : Root
root = record {
  id = "";
  path = " /srv/shop ";
  kind = "local";
  git_remote = "";
  git_branch = "";
  active = true;
}

abbrev padded : Project
padded = record project { id = " p1 "; name = " Shop "; roots = root ∷ [] }

abbrev first : Assignment
first = record {
  id = "a1";
  project_id = "p1";
  work_item_id = "w1";
  role_id = "dev";
  root_id = "fresh";
  execution_mode = "";
  status = AssignmentStatus.queued;
  desired_agent = record { kind = ""; skill_ids = "sewing" ∷ [] };
  claimed_by = "";
  claim = none;
  execution_ref = no_execution;
  context_snapshot_id = "";
  created_at = 0;
  updated_at = 0;
  started_at = 0;
  completed_at = 0;
}

abbrev day : List (Env × Request)
day =
    ((bench, create_project padded)
      ∷ (bench, create_role role)
      ∷ (bench, create_work_item (record item { title = "  Till " }))
      ∷ (bench, create_assignment first)
      ∷ [])

abbrev pub office : Store
office = serve_all fingerprint day new_store

day-AllSound : AllSound fingerprint day
day-AllSound = (bench-IsSound, (bench-IsSound, (bench-IsSound, (bench-IsSound, tt))))

pub office-IsOrderly : IsOrderly office
office-IsOrderly = serve_all_new-IsOrderly fingerprint day day-AllSound

serve_all_new-IsOrderly_example : IsOrderly (serve_all fingerprint day new_store)
serve_all_new-IsOrderly_example = serve_all_new-IsOrderly fingerprint day day-AllSound

-- What the day has left in the store.
first_stored :
    (a : Assignment) × (Nested.get "p1" "a1" office.assignments ≡ some a)
    × (a.execution_mode ≡ "mcp_pull")
unfolding serve_all serve new_store Nested.get Nested.put Table.get Table.put trim_space is_space
    cairnline.Service.Projects.create_project cairnline.Service.Roles.create_role
    cairnline.Service.WorkItems.create_work_item cairnline.Service.Assignments.create_assignment
    cairnline.MemoryStore.Projects.create_project cairnline.MemoryStore.Projects.get_project
    cairnline.MemoryStore.Roles.create_role cairnline.MemoryStore.Roles.get_role
    cairnline.MemoryStore.WorkItems.create_work_item cairnline.MemoryStore.WorkItems.get_work_item
    cairnline.MemoryStore.Assignments.create_assignment
    cairnline.Lifecycle.Validate.validate_assignment_claim_state cairnline.Base.Lists.filter
    cairnline.Base.Lists.map cairnline.Base.Lists.any
first_stored = (_, refl, refl)

first_id : IsStated "a1"
unfolding trim_space is_space
first_id = record { trimmed = refl; said = refl }

launch_packet-IsPacketFor_example :
    (packet : AssignmentLaunchPacket) × (assignment_launch_packet bench office "p1" "a1"
      ≡ ok packet)
    × IsPacketFor office "p1" first_stored.0 packet
launch_packet-IsPacketFor_example =
    launch_packet-IsPacketFor bench office "p1" "a1" first_stored.0 office-IsOrderly first_id
      first_stored.1

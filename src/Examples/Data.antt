-- ===== src/Examples/Data.antt =====
-- An assignment at each stage of its life, and a few histories.
use cairnline.Base.{String, some, none, List, [], ◌∷◌}
use cairnline.Model.Clock.{Time}
use cairnline.Model.Assignment.{
  AssignmentStatus, Assignment, AssignmentClaimLease, QueuedAssignmentUpdate, no_execution,
}
use cairnline.Lifecycle.Commands.{Command, release, claim_lease, fenced, recover, host_complete}

abbrev pub lease : String → Time → Time → AssignmentClaimLease
lease id acquired_at expires_at = record {
  id = id;
  acquired_at = acquired_at;
  expires_at = expires_at;
}

abbrev pub waiting : Assignment
waiting = record {
  id = "a1";
  project_id = "p1";
  work_item_id = "w1";
  role_id = "dev";
  root_id = "";
  execution_mode = "mcp_pull";
  status = AssignmentStatus.queued;
  desired_agent = record { kind = "any"; skill_ids = [] };
  claimed_by = "";
  claim = none;
  execution_ref = no_execution;
  context_snapshot_id = "";
  created_at = 5;
  updated_at = 5;
  started_at = 0;
  completed_at = 0;
}

abbrev pub reserved : Assignment
reserved = record waiting {
  status = AssignmentStatus.claimed;
  claimed_by = "worker";
  claim = some (lease "c1" 10 20);
  updated_at = 10;
}

abbrev pub working : Assignment
working = record waiting {
  status = AssignmentStatus.running;
  claimed_by = "worker";
  claim = some (lease "c1" 10 0);
  updated_at = 12;
  started_at = 12;
}

abbrev pub done : Assignment
done = record waiting {
  status = AssignmentStatus.completed;
  claimed_by = "worker";
  claim = some (lease "c1" 10 0);
  updated_at = 15;
  started_at = 12;
  completed_at = 15;
}

abbrev pub edit : QueuedAssignmentUpdate
edit = record {
  expected = record {
    work_item_id = "w1";
    role_id = "dev";
    root_id = "";
    execution_mode = "mcp_pull";
    desired_agent = record { kind = "any"; skill_ids = [] };
  };
  expected_updated_at = 5;
  replacement = record {
    work_item_id = "w1";
    role_id = "ops";
    root_id = "";
    execution_mode = "manual";
    desired_agent = record { kind = "human"; skill_ids = [] };
  };
}

-- The reservation lapses, is taken back, and goes to another worker.
abbrev pub taken_over : List (Time × Command)
taken_over = (25, recover "c1") ∷ (26, claim_lease "other" (lease "c2" 0 0) 50) ∷ []

-- What other workers may try while the reservation is live.
abbrev pub intrusions : List (Time × Command)
intrusions =
    (12, fenced "c0" release)
    ∷ (13, recover "c1")
    ∷ (14, claim_lease "other" (lease "c2" 0 0) 50)
    ∷ []

abbrev pub host_history : List (Time × Command)
host_history = (30, host_complete AssignmentStatus.cancelled no_execution) ∷ taken_over

-- `waiting` after `edit` at 6, and `reserved` after its recovery at 25.
abbrev pub relabelled : Assignment
relabelled = record waiting {
  role_id = "ops";
  execution_mode = "manual";
  desired_agent = record { kind = "human"; skill_ids = [] };
  updated_at = 6;
}

abbrev pub freed : Assignment
freed = record waiting { updated_at = 25 }

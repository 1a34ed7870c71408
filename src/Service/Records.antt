-- ===== src/Service/Records.antt =====
-- Artifacts, evidence and reviews in internal/core/service.go.
use cairnline.Base.{
  String, Result, ok, not_found, invalid, reject, guard, List, if◌then◌else◌, ◌==◌, ◌&&◌, string_eq,
  nat_eq, ◌>>◌, ◌>>=◌,
}
use cairnline.Base.Text.{first_non_empty}
use cairnline.Base.Trim.{trim_space}
use cairnline.Model.Collaboration.{Artifact, Evidence, Review}
use cairnline.MemoryStore.Assignments
use cairnline.MemoryStore.Lists
use cairnline.MemoryStore.Records
use cairnline.MemoryStore.Roles
use cairnline.MemoryStore.State.{Store}
use cairnline.Service.Env.{Env}
use cairnline.Service.Normalize.{
  require_text, trimmed_or, imported_timestamps, normalize_review_verdict, normalize_review_risk,
}

-- The ids of a record of a work item.
abbrev pub require_place : String → String → Result (Unit {0})
require_place project_id work_item_id = do
  require_text (trim_space project_id) "project_id is required"
  require_text (trim_space work_item_id) "work_item_id is required"

-- A named assignment must exist and belong to the work item.
unfoldable pub check_assignment : Store → String → String → String → Result (Unit {0})
check_assignment s project_id work_item_id id = if id == "" then ok tt else (do
  assignment ← Assignments.get_assignment s project_id id
  guard (assignment.work_item_id == work_item_id) not_found)

unfoldable pub check_role : Store → String → String → Result (Unit {0})
check_role s project_id id =
    if id == "" then ok tt else (do _ ← Roles.get_role s project_id id; ok tt)

unfoldable pub list_artifacts : Store → String → String → Result (List Artifact)
list_artifacts s project_id work_item_id = do
  require_place project_id work_item_id
  Lists.list_artifacts s (trim_space project_id) (trim_space work_item_id)

unfoldable pub get_artifact : Store → String → String → String → Result Artifact
get_artifact s project_id work_item_id id = do
  require_place project_id work_item_id
  require_text (trim_space id) "artifact_id is required"
  Records.get_artifact s (trim_space project_id) (trim_space work_item_id) (trim_space id)

unfoldable pub list_evidence : Store → String → String → Result (List Evidence)
list_evidence s project_id work_item_id = do
  require_place project_id work_item_id
  Lists.list_evidence s (trim_space project_id) (trim_space work_item_id)

unfoldable pub get_evidence : Store → String → String → String → Result Evidence
get_evidence s project_id work_item_id id = do
  require_place project_id work_item_id
  require_text (trim_space id) "evidence_id is required"
  Records.get_evidence s (trim_space project_id) (trim_space work_item_id) (trim_space id)

unfoldable pub list_reviews : Store → String → String → Result (List Review)
list_reviews s project_id work_item_id = do
  require_place project_id work_item_id
  Lists.list_reviews s (trim_space project_id) (trim_space work_item_id)

unfoldable pub get_review : Store → String → String → String → Result Review
get_review s project_id work_item_id id = do
  require_place project_id work_item_id
  require_text (trim_space id) "review_id is required"
  Records.get_review s (trim_space project_id) (trim_space work_item_id) (trim_space id)

module _ (env : Env) where
  -- The artifact that a request stores.
  unfoldable pub artifact_of : Artifact → Artifact
  unfolding imported_timestamps
  artifact_of input =
      let stamps = imported_timestamps input.created_at input.updated_at env.now in
      record {
        id = first_non_empty (trim_space input.id) (env.new_id "art" 0);
        project_id = trim_space input.project_id;
        work_item_id = trim_space input.work_item_id;
        assignment_id = trim_space input.assignment_id;
        kind = trim_space input.kind;
        title = trim_space input.title;
        body = trim_space input.body;
        author_role_id = trim_space input.author_role_id;
        provenance_kind = trim_space input.provenance_kind;
        trust_label = trim_space input.trust_label;
        created_at = stamps.0;
        updated_at = stamps.1;
      }

  unfoldable pub create_artifact : Store → Artifact → Result (Artifact × Store)
  unfolding artifact_of check_assignment check_role
  create_artifact s input = do
    require_place input.project_id input.work_item_id
    require_text (trim_space input.kind) "artifact kind is required"
    require_text (trim_space input.body) "artifact body is required"
    check_assignment s (trim_space input.project_id) (trim_space input.work_item_id)
        (trim_space input.assignment_id)
    check_role s (trim_space input.project_id) (trim_space input.author_role_id)
    Records.create_artifact s (artifact_of input)

  -- The evidence that a request stores.
  unfoldable pub evidence_of : Evidence → Evidence
  unfolding imported_timestamps
  evidence_of input =
      let stamps = imported_timestamps input.created_at input.updated_at env.now in
      record {
        id = first_non_empty (trim_space input.id) (env.new_id "ev" 0);
        project_id = trim_space input.project_id;
        work_item_id = trim_space input.work_item_id;
        assignment_id = trim_space input.assignment_id;
        title = trim_space input.title;
        body = trim_space input.body;
        locator = trim_space input.locator;
        source_kind = trim_space input.source_kind;
        external_id = trim_space input.external_id;
        provider = trim_space input.provider;
        trust_label = trimmed_or input.trust_label "operator_provided";
        created_at = stamps.0;
        updated_at = stamps.1;
      }

  unfoldable pub create_evidence : Store → Evidence → Result (Evidence × Store)
  unfolding evidence_of check_assignment
  create_evidence s input = do
    require_place input.project_id input.work_item_id
    require_text (trim_space input.title) "evidence title is required"
    reject (trim_space input.body == "" && trim_space input.locator == "")
        (invalid "evidence body or locator is required")
    check_assignment s (trim_space input.project_id) (trim_space input.work_item_id)
        (trim_space input.assignment_id)
    Records.create_evidence s (evidence_of input)

  -- The review that a request stores.
  unfoldable pub review_of : String → String → Review → Review
  unfolding imported_timestamps
  review_of verdict risk input =
      let stamps = imported_timestamps input.created_at input.updated_at env.now in
      record {
        id = first_non_empty (trim_space input.id) (env.new_id "rev" 0);
        project_id = trim_space input.project_id;
        work_item_id = trim_space input.work_item_id;
        assignment_id = trim_space input.assignment_id;
        reviewer_role_id = trim_space input.reviewer_role_id;
        title = trimmed_or input.title "Review";
        body = trim_space input.body;
        verdict = verdict;
        risk = risk;
        status = "recorded";
        created_at = stamps.0;
        updated_at = stamps.1;
      }

  unfoldable pub create_review : Store → Review → Result (Review × Store)
  unfolding review_of normalize_review_verdict normalize_review_risk
  create_review s input = do
    require_place input.project_id input.work_item_id
    require_text (trim_space input.body) "review body is required"
    verdict ← normalize_review_verdict input.verdict
    risk ← normalize_review_risk input.risk
    Records.create_review s (review_of verdict risk input)

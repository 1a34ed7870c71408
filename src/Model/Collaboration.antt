-- ===== src/Model/Collaboration.antt =====
-- What is recorded beside the work: artifacts, evidence and reviews.
use cairnline.Base.{String}
use cairnline.Model.Clock.{Time}

pub record Artifact : Type 0 where
  pub id : String
  pub project_id : String
  pub work_item_id : String
  pub assignment_id : String
  pub kind : String
  pub title : String
  pub body : String
  pub author_role_id : String
  pub provenance_kind : String
  pub trust_label : String
  pub created_at : Time
  pub updated_at : Time

pub record Evidence : Type 0 where
  pub id : String
  pub project_id : String
  pub work_item_id : String
  pub assignment_id : String
  pub title : String
  pub body : String
  pub locator : String
  pub source_kind : String
  pub external_id : String
  pub provider : String
  pub trust_label : String
  pub created_at : Time
  pub updated_at : Time

pub record Review : Type 0 where
  pub id : String
  pub project_id : String
  pub work_item_id : String
  pub assignment_id : String
  pub reviewer_role_id : String
  pub title : String
  pub body : String
  pub verdict : String
  pub risk : String
  pub status : String
  pub created_at : Time
  pub updated_at : Time

-- ===== src/Model/Work.antt =====
-- Roles and work items.
use cairnline.Base.{String, List}
use cairnline.Model.Clock.{Time}

pub record Role : Type 0 where
  pub id : String
  pub project_id : String
  pub name : String
  pub description : String
  pub instructions : String
  pub default_skill_ids : List String
  pub default_execution_mode : String

pub record WorkItem : Type 0 where
  pub id : String
  pub project_id : String
  pub title : String
  pub brief : String
  pub status : String
  pub priority : String
  pub owner_role_id : String
  pub reviewer_role_ids : List String
  pub root_id : String
  pub created_at : Time
  pub updated_at : Time

-- ===== src/Model/Project.antt =====
-- Projects with their roots, context sources and skills.
use cairnline.Base.{String, Bool, List, Option}
use cairnline.Model.Clock.{Time}

pub record Root : Type 0 where
  pub id : String
  pub path : String
  pub kind : String
  pub git_remote : String
  pub git_branch : String
  pub active : Bool

pub record Source : Type 0 where
  pub id : String
  pub kind : String
  pub title : String
  pub locator : String
  pub enabled : Bool
  pub format : String
  pub scope : String
  pub trust_label : String
  pub source_category : String
  pub metadata : List (String × String)
  pub created_at : Time
  pub updated_at : Time

pub record Project : Type 0 where
  pub id : String
  pub name : String
  pub description : String
  pub roots : List Root
  pub default_root_id : String
  pub context_sources : List Source
  pub created_at : Time
  pub updated_at : Time

-- A nil pointer is `none`.
pub record RequiredPermissions : Type 0 where
  pub tools : Option Bool
  pub writes : Option Bool
  pub network : Option Bool

pub record ProjectSkill : Type 0 where
  pub id : String
  pub project_id : String
  pub title : String
  pub description : String
  pub path : String
  pub root_id : String
  pub format : String
  pub suggested_tools : List String
  pub required_permissions : RequiredPermissions
  pub enabled : Bool
  pub status : String
  pub trust_label : String
  pub source_refs : List String
  pub warnings : List String
  pub discovered_at : Time
  pub created_at : Time
  pub updated_at : Time

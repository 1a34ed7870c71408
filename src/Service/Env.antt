-- ===== src/Service/Env.antt =====
-- What a request of `Service` (internal/core/service.go) reads of the world around the store: the
-- clock, the ids that are drawn, and the functions of Go's library that the model does not define.
use cairnline.Base.{ℕ, String}
use cairnline.Model.Clock.{Time, Duration}

-- `new_id prefix n` is the id that `newID(prefix)` draws for the record at place `n` of a request.
-- `stamp` is the clock at the start of a request that reads it twice, `now` where it reads it last.
-- `claim_id` is what `s.newAssignmentClaimID` draws: a request that it fails ends before the store
-- is called.
pub record Env : Type 0 where
  pub now : Time
  pub stamp : Time
  pub lease_ttl : Duration
  pub claim_id : String
  pub new_id : String → ℕ → String
  pub clean : String → String
  pub to_slash : String → String
  pub to_lower : String → String

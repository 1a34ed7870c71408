-- ===== src/Model.antt =====
-- The records that Cairnline keeps (internal/core/types.go). A Go `time.Time` is the number of
-- nanoseconds since its zero value, so `IsZero` is a test for 0; an empty text means "not set".
pub mod Clock
pub mod Project
pub mod Work
pub mod Assignment
pub mod Collaboration
pub mod Handoff
pub mod Patch
pub mod Memory
pub mod Assistant
pub mod SkillId

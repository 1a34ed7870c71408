-- ===== src/Reports.antt =====
-- The read-only reports of internal/core: closeout readiness, activity, setup readiness, the
-- operations brief and project health. Each reads the store and answers with a record.
pub mod FollowUps
pub mod Closeout
pub mod Activity
pub mod Shares
pub mod Buckets
pub mod Operations
pub mod Setup
pub mod Onboarding
pub mod Health
pub mod Texts
pub mod Answered
pub mod Ready

-- ===== src/Reports/Health.antt =====
-- internal/core/project_health.go: the state of a project in numbers, and the few items that its
-- operator should see first. `now` is the reading of the service's clock, `quote` the quoting verb
-- of `fmt` and `to_lower` is `strings.ToLower`.
pub mod Types
pub mod Attention
pub mod Report
pub mod Sound

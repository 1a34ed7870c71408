-- ===== src/Reports/Operations.antt =====
-- internal/core/operations_brief.go: what in a project waits for its operator. `now` is the reading
-- of the service's clock, `quote` the quoting verb of `fmt`.
pub mod Types
pub mod Items
pub mod Brief
pub mod Tally
pub mod Draft
pub mod Sound

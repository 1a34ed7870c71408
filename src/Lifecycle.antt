-- ===== src/Lifecycle.antt =====
-- The lifecycle of one assignment (internal/core/assignment_claim.go and the assignment methods of
-- internal/core/memory_store.go), apart from the maps that hold it.
pub mod Status
pub mod Validate
pub mod Stamp
pub mod Fenced
pub mod Host
pub mod Commands
pub mod Monotone
pub mod Validity
pub mod Identity
pub mod Revision
pub mod Reservation
pub mod Outcome
pub mod History
pub mod Fence
pub mod Refines
pub mod Stamps
pub mod Invariant

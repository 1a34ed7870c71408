-- ===== src/MemoryStore.antt =====
-- The in-memory store (internal/core/memory_store.go). A method takes the store and returns its
-- result with the new store, or an error: the code writes nothing before its last error return.
-- The mutex makes each method one step.
pub mod State
pub mod Projects
pub mod Skills
pub mod WorkItems
pub mod Roles
pub mod Assignments
pub mod Records
pub mod Handoffs
pub mod Accept
pub mod Memory
pub mod Lists
pub mod Listing
pub mod Memories
pub mod Each
pub mod FollowUps
pub mod Accepted
pub mod Edits
pub mod EditOnce
pub mod Idempotence
pub mod Promotion
pub mod Deletion
pub mod Transact
pub mod Calls
pub mod Integrity

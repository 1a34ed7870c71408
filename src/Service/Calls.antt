-- ===== src/Service/Calls.antt =====
-- What each request that is served comes to: one canonical call of the store, which an update of a
-- root or a source has written through before.
pub mod Step
pub mod Shared
pub mod Projects
pub mod Work
pub mod Skills
pub mod Assignments
pub mod Claims
pub mod Records
pub mod Handoffs
pub mod Memories
pub mod Serve

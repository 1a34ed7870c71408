-- ===== src/Service.antt =====
-- `Service` of internal/core/service.go: the rules that a request passes before the store is called.
pub mod Env
pub mod Normalize
pub mod Projects
pub mod Roots
pub mod Sources
pub mod Skills
pub mod WorkItems
pub mod Roles
pub mod Assignments
pub mod Claims
pub mod Records
pub mod HandoffEdits
pub mod Handoffs
pub mod Memories
pub mod Launch
pub mod Requests
pub mod Stated
pub mod Canonical
pub mod Calls
pub mod History
pub mod Offers
pub mod Packets
pub mod TidyRoots
pub mod RootTrip
pub mod RootEdit
pub mod RootAtomic

-- ===== src/MemoryStore/Integrity.antt =====
-- Referential integrity of the store, with a module for each group of methods.
pub mod Defs
pub mod Cascade
pub mod Writes
pub mod Commands
pub mod Handoffs
pub mod Accept
pub mod Aside
pub mod Calls
pub mod Keeps
pub mod Filed

-- ===== src/Examples.antt =====
-- The theorems on concrete records.
mod Data
mod Shop
mod Leases
mod Store
mod Reports
mod Requests
mod Roots

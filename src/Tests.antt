-- ===== src/Tests.antt =====
-- Runs of the program in a small world, and the theorems at concrete data.
pub mod Cloud
pub mod Reconciling
pub mod Phases
pub mod Lifecycle
pub mod Bounds
pub mod Progress
pub mod Waits
pub mod Filters
pub mod Deleting
pub mod Starting
pub mod Listeners
pub mod Balancing
pub mod Sets
pub mod Subnets
pub mod Addresses
pub mod Health

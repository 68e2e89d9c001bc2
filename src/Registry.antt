-- ===== src/Registry.antt =====
-- The package internal/registry: the gateway's view of the control plane.
pub mod Budgets
pub mod Changes
pub mod Cache
pub mod Index

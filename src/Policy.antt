-- ===== src/Policy.antt =====
-- The package internal/policy: tenancy, limits and how they combine, prices, bills and routers.
pub mod Names
pub mod Model
pub mod Calendar
pub mod Scope
pub mod AllowList
pub mod Limits
pub mod Resolve
pub mod Cost
pub mod Bill
pub mod Filter
pub mod Route
pub mod Router

-- ===== src/Gateway.antt =====
-- The parts of internal/gateway that decide which models may answer a request.
pub mod Serve
pub mod Sorting
pub mod Load
pub mod Size
pub mod Choice
pub mod Limits
pub mod Route
pub mod Walk
pub mod Target
pub mod Credit
pub mod Window
pub mod Admission
pub mod Request
pub mod Forward
pub mod Pattern
pub mod Filters

-- ===== src/Tests.antt =====
-- Concrete inputs on which the theorems of the other modules are used.
mod Caches
mod Data
mod Access
mod Money
mod Rates
mod Routers
mod Walks
mod Requests
mod Backends
mod Guards
mod Spend
mod Events

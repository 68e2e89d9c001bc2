-- ===== src/Ratelimit.antt =====
-- The token buckets of internal/ratelimit.
pub mod Limiter

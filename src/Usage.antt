-- ===== src/Usage.antt =====
-- The package internal/usage: the events on their way from the requests to the database.
pub mod Recorder

-- ===== src/DataCache/Trace.antt =====
-- The gateway's steps as sequences of primitive moves (internal/datacache).
pub mod Eviction
pub mod Commits
pub mod Uploads
pub mod Steps

-- ===== src/Jobs.antt =====
-- The transfer jobs (internal/jobs).
pub mod Types
pub mod Engine
pub mod Submitting
pub mod Stopping
pub mod Running
pub mod Lifecycle
pub mod Calls
pub mod Orders
pub mod Sleeping
pub mod Waking
pub mod Steps
pub mod Rounds
pub mod Backoff
pub mod Attempts
pub mod Reclaim
pub mod Recovering
pub mod Restart
pub mod Crash
mod Tests

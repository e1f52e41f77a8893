-- ===== src/DataCache.antt =====
-- The caching gateway (internal/datacache).
pub mod Types
pub mod Journal
pub mod Path
pub mod Index
pub mod Writing
pub mod Flush
pub mod Discard
pub mod Startup
pub mod Settings
pub mod Steps
pub mod Moves
pub mod Accounting
pub mod Trace
pub mod Recovery
pub mod Rules
pub mod Status
mod Tests

-- ===== src/DataCache/Rules.antt =====
-- The rules of the package on data that nobody else has (internal/datacache/datacache.go).
pub mod Keeping
pub mod Survival
pub mod Acknowledged
pub mod Limits
pub mod Losses
pub mod Concurrent

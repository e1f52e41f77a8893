-- ===== src/Upload.antt =====
-- The upload of a file in chunks (pkg/opendrive/upload.go).
pub mod Types
pub mod Chunks
pub mod Assembly
pub mod Loop
pub mod Refines
pub mod Pipeline
pub mod Delivery
pub mod Outcome
pub mod Ledger
pub mod Orphans
pub mod Bodies
pub mod Closing
mod Tests

-- ===== src/Sdk.antt =====
-- The client library's judgement of upstream's answers (pkg/opendrive).
pub mod Errors
pub mod Evidence
pub mod Classify
pub mod Resolve
pub mod Verdicts
pub mod Doubts
pub mod Denials
pub mod Call
pub mod Ending
mod Tests

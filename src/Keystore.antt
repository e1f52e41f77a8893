-- ===== src/Keystore.antt =====
-- The credential file (internal/keystore).
pub mod Env
pub mod Quoting
pub mod Trimming
pub mod RoundTrip
pub mod Envelope
pub mod Sealing
pub mod Credentials
pub mod Saving
mod Tests

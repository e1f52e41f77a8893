-- ===== src/DataCache/Recovery.antt =====
-- What a crash leaves of the journal and the content files, and what `Open` makes of it
-- (internal/datacache/journal.go, store.go).
pub mod Records
pub mod Runs
pub mod Invariant
pub mod Scan
pub mod Contents
pub mod Reopen

-- ===== src/Sync.antt =====
-- The synchronisation with the server (sync.go): back-off after failures, and the calendar round.
pub mod Backoff
pub mod Calendar
pub mod Rounds
pub mod Reads

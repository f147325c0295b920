-- ===== src/Calendar.antt =====
-- The calendar cache (sync.go, state.go): events by server ID, aliases of folded duplicates, and the
-- log of changes that is appended to events.jsonl.
pub mod Equality
pub mod Index
pub mod Changes
pub mod Cache
pub mod Log
pub mod WellFormed
pub mod Operations
pub mod Promotion
pub mod Edits
pub mod Recovery
pub mod Page
pub mod Paging
pub mod Durable

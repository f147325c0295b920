-- ===== src/Cache.antt =====
-- The cache of messages (cache.go): single flight, and the pruning of the cached directories.
pub mod Flight
pub mod Prune
pub mod Bounds

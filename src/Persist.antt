-- ===== src/Persist.antt =====
-- The persistence of the state (state.go): the files of the state directory, the writes that an
-- operation makes, in their order and with their failures, and the loading at startup.
pub mod Names
pub mod Disk
pub mod Load
pub mod Operations
pub mod Crash
pub mod Marks
pub mod Events
pub mod Memory

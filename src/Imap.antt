-- ===== src/Imap.antt =====
-- The IMAP server (imapd.go): the session with its snapshot of a folder, and the commands on it.
-- The protocol is the library go-imap; a set of numbers is known by its `Contains`.
pub mod Session
pub mod Flags
pub mod Stored
pub mod Effects
pub mod Reports
pub mod Moves
pub mod Expunged
pub mod Moved
pub mod Confirmed
pub mod Taken
pub mod Counts

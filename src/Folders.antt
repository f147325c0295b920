-- ===== src/Folders.antt =====
-- The IMAP names of the folders (folders.go), and the folder list after a FolderSync (sync.go).
pub mod Component
pub mod Names
pub mod Resolved
pub mod Update
pub mod Synced

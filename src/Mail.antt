-- ===== src/Mail.antt =====
-- The mail of a folder (sync.go, mime.go): the pages of a sync, the merge of sparse changes, the new
-- contents of the folder, and address lists (mime.go, imapd.go).
pub mod Merge
pub mod Collect
pub mod Apply
pub mod Contents
pub mod Addresses

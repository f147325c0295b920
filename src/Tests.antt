-- ===== src/Tests.antt =====
-- Runs of the model on small inputs, and the theorems applied to them.
mod Uids
mod Calendar
mod Mail
mod Sync
mod Imap
mod Caldav
mod Access
mod Folders
mod Attachments

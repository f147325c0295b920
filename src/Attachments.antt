-- ===== src/Attachments.antt =====
-- Attachments (mime_engine.go, with the decoding of mime.go): the download in chunks, the successor of an
-- attachment whose reference the server has changed, and the back-off of a failing attachment.
pub mod Download
pub mod Chunks
pub mod Match
pub mod Best
pub mod Retry

-- ===== src/Lib.antt =====
-- The core of eas-bridge, a bridge from Exchange ActiveSync (EAS) to IMAP, SMTP and CalDAV, as a model
-- with theorems. The bridge keeps one copy of the server's mail and calendar (state.go), brings it up to
-- date page by page through a client library (sync.go), and serves the local protocols from it.
--
-- The parts and their files:
-- - Eas: the data types of the client library (third_party/go-activesync/eas). The library itself is
--   another project's; where the code calls its client, a function on an arbitrary type of worlds is a
--   parameter.
-- - Store: the state of state.go (diskState and its parts). Store/Uids: assignUIDs, which gives IMAP UIDs,
--   and the lookups of the UID table. The uint32 counter wraps in the model too; the theorems on it ask
--   for room (HasRoom), which 2^32 - 1 UIDs per folder give.
-- - Calendar: the calendar cache. Equality and Index: the comparisons and the duplicate index. Changes and
--   Log: calendarMutations, the line of events.jsonl and its replay. Cache: addCalendarEventLocked,
--   changeCalendarEventLocked and deleteCalendarEventLocked. Page: one page of changes, with the
--   test for a replayed page and the pruning of aliases. WellFormed is the invariant; Operations, Promotion
--   and Paging are about its preservation; Edits, Recovery and Durable are about the log.
-- - Persist: the state directory. Disk: the writes, each of which succeeds or fails as a list of fates says.
--   Load: loadState. Operations: the marks, removals and moves of mail, the accessors of the client, and the
--   calendar writes of CalDAV. Crash, Marks and Events: their theorems.
-- - Mail: one mail synchronisation (syncMailOnce). Merge: mime.go's merge of sparse changes. Collect: the
--   page loop. Apply: the new contents of the folder. Contents: its theorem. Addresses: address lists.
-- - Sync: the back-off (Backoff), the calendar round (Calendar, syncCalendarOnce) and its end (Rounds), and
--   the guards of syncMail with the choice of stale mail for a read (Reads).
-- - Imap: a session on its snapshot of a folder (imapd.go). Session: SELECT, STATUS, LIST, Poll. Flags: STORE.
--   Moves: EXPUNGE and COPY. Stored, Effects, Reports, Expunged, Moved, Confirmed,
--   Taken and Counts: their theorems.
-- - Search: the criteria of a SEARCH and the stripping of tags (search.go), with Results and Markup.
-- - Folders: the names of the mailboxes (folders.go). Component: cleanMailboxComponent. Names:
--   imapFolderNames. Resolved: the end of its recursion. Update and
--   Synced: syncFolders (sync.go).
-- - Cache: the message cache (cache.go). Flight: the single flight, as an interleaving of its critical
--   sections. Prune and Bounds: pruneMIMECache.
-- - Caldav: recurrence rules, alarms, exceptions and the writes (caldavd.go, caldav_write.go). Weeks,
--   Reading, RoundTrip, Triggers, Exceptions and Stored: their theorems.
-- - Attachments: the download of an attachment in chunks, the successor of one whose reference has changed,
--   and the back-off per attachment (mime_engine.go, with the decoding of mime.go). Download and Chunks,
--   Match and Best, Retry.
-- - Smtp: a mail session (smtpd.go). Digest: nonces and logins of CalDAV (digest.go). Config: loadConfig
--   (config.go).
-- - Dict: a Go map, as an association list; a range loop visits its keys in some order, and where the
--   order could be seen the source sorts first, as the model does. Prelude: shared names.
--
-- Bounds: the page loops run on fuel. The loop of a mail synchronisation takes at most 501 rounds per
-- key, the last without a request, and resets the key once, so 1002 is enough; that of a calendar round
-- takes at most 101 and resets once, so 202 is enough. The recursion of a folder's name to the parents
-- visits a folder at most once, so the number of folders and one is enough. The download of an
-- attachment has a fuel that its caller chooses. Times are nanoseconds since the zero time.
--
-- Not modelled: JSON and the file system below a whole write (a failed append leaves the log as it was,
-- and a line that cannot be read is a value of its own); locks, channels and goroutines, since the
-- operations run under the lock of the state; log output; the protocol libraries (go-imap, go-smtp, the
-- XML and HTTP of CalDAV), whose commands are taken in any order; the conversion of library objects
-- (icalEventToDraft, eventToICal); the construction of messages (the rest of mime.go and mime_engine.go), which
-- is output around net/mail and mime; the files of the message cache; the start of the process (main.go).
pub mod Prelude
pub mod Dict
pub mod Eas
pub mod Store
pub mod Calendar
pub mod Persist
pub mod Mail
pub mod Sync
pub mod Attachments
pub mod Cache
pub mod Folders
pub mod Caldav
pub mod Smtp
pub mod Config
pub mod Digest
pub mod Search
pub mod Imap
pub mod Tests

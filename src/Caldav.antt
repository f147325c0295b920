-- ===== src/Caldav.antt =====
-- The calendar objects of CalDAV (caldavd.go, caldav_write.go): recurrence rules in both directions, the
-- time of an alarm, and the exceptions of an update.
pub mod Days
pub mod Weeks
pub mod Rules
pub mod Alarm
pub mod Exceptions
pub mod Writes
pub mod Stored
pub mod Triggers
pub mod Reading
pub mod RoundTrip

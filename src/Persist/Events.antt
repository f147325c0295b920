-- ===== src/Persist/Events.antt =====
-- The calendar writes of CalDAV (upsertEvent, state.go) and the log that a restart replays.
use eas_bridge.Prelude.{String, ◌≡◌, Option, none, some, List, [], ◌∷◌}
use eas_bridge.Dict.{get, put, remove}
use eas_bridge.Eas.{EventItem}
use eas_bridge.Store.{DiskState}
use eas_bridge.Calendar.Changes.{CalendarMutations, no_changes, record_upsert, record_alias_delete}
use eas_bridge.Calendar.Log.{Maps, EventLogEntry, batch_of, entry_of, append_event_log, replay}
use eas_bridge.Persist.Disk.{Disk, Host, Error, holds, save_main, lines_of}

-- The log on the disk replays, from the maps of the snapshot, into those of the state.
unfoldable pub Logged : Maps → Disk → DiskState → Type 0
Logged start d s =
    (k : String)
    → (get (replay (lines_of d.event_log) start).events k ≡ get s.events k)
      × (get (replay (lines_of d.event_log) start).aliases k ≡ get s.event_aliases k)

abbrev changes_of : EventItem → CalendarMutations
changes_of ev = record_alias_delete ev.server_id (record_upsert ev no_changes)

-- The state with the event, and the log with its line.
after_upsert : EventItem → DiskState → DiskState
after_upsert ev s = record s {
  events = put s.events ev.server_id ev;
  event_aliases = remove s.event_aliases ev.server_id;
}

module _ (start : Maps) (ev : EventItem) (h : Host) (logged : Logged start h.disk h.state) where
  line : List (Option EventLogEntry)
  line = some (entry_of (batch_of (changes_of ev))) ∷ []

  finish : Error × Host → Error × Host
  finish r = elim (r.0) [ some e ↦ (some e, r.1) | none ↦ save_main (r.1) ]

  abbrev Kept : Error × Host → Type 0
  Kept r = (r.0 ≡ none) → Logged start (r.1).disk (r.1).state

  written : Host
  written = record h { state = after_upsert ev h.state }

  change : Disk → Disk
  change d = record d {
    event_log = holds (append_event_log (changes_of ev) (lines_of d.event_log));
  }

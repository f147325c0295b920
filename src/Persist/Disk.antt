-- ===== src/Persist/Disk.antt =====
-- The state directory: state.json, folders/<id>.json, events.json and events.jsonl, and the atomic
-- writes of them. JSON itself and the file system are not modelled: a file holds the value
-- that was encoded, and each write succeeds or fails as the next of the given fates says.
use eas_bridge.Prelude.{
  String, Bool, true, false, Option, none, some, List, [], ◌∷◌, map, if◌then◌else◌,
}
use eas_bridge.Dict.{Dict, empty, put, get_or}
use eas_bridge.Eas.{Folder, EmailItem, EventItem}
use eas_bridge.Store.{DiskState, UidEntry, FolderMeta, CalendarEventAlias}
use eas_bridge.Calendar.Changes.{CalendarMutations, is_unchanged}
use eas_bridge.Calendar.Log.{EventLogEntry, append_event_log}
use eas_bridge.Persist.Names.{shard_file_name}

pub record StateMain : Type 0 where
  pub device_id : String
  pub policy_key_val : String
  pub sync_keys : Dict String
  pub folders : List Folder
  pub folder_meta : Dict FolderMeta
  pub legacy_items : Dict (List EmailItem)
  pub legacy_uids : Dict (List UidEntry)
  pub legacy_events : Dict EventItem
  pub legacy_deleted : Dict (Dict Bool)

pub record FolderShard : Type 0 where
  pub folder_id : String
  pub items : List EmailItem
  pub uids : List UidEntry
  pub deleted : Dict Bool

pub record EventsShard : Type 0 where
  pub events : Dict EventItem
  pub aliases : Dict CalendarEventAlias

-- A file as a read finds it.
pub data File (A : Type 0) : Type 0 where
  absent : File A
  unreadable : File A
  corrupt : File A
  holds : A → File A

pub record Disk : Type 0 where
  pub main : File StateMain
  pub shards : Dict (File FolderShard)
  pub snapshot : File EventsShard
  pub event_log : File (List (Option EventLogEntry))

-- The state in memory, the disk, and the fates of the writes to come; the writes after the last
-- fate succeed.
pub record Host : Type 0 where
  pub state : DiskState
  pub disk : Disk
  pub fates : List Bool

-- `some` text of an error, or `none` for nil
abbrev pub Error : Type 0
Error = Option String

unfoldable pub next_fate : List Bool → Bool × List Bool
next_fate [] = (true, [])
next_fate (b ∷ bs) = (b, bs)

-- atomicWriteFile: the new content, or the old one and an error.
unfoldable pub write : (Disk → Disk) → Host → Error × Host
unfolding next_fate
write change h =
    let fate = next_fate h.fates in
    if fate.0
    then (none, record h { disk = change h.disk; fates = fate.1 })
    else (some "write failed", record h { fates = fate.1 })

-- `if err := a; err != nil { return err }; return b`
unfoldable pub and_then : (Host → Error × Host) → (Host → Error × Host) → Host → Error × Host
and_then a b h = let r = a h in elim (r.0) [ some e ↦ (some e, r.1) | none ↦ b (r.1) ]

-- saveMainLocked
unfoldable pub main_of : DiskState → StateMain
main_of s = record {
  device_id = s.device_id;
  policy_key_val = s.policy_key_val;
  sync_keys = s.sync_keys;
  folders = s.folders;
  folder_meta = s.folder_meta;
  legacy_items = empty;
  legacy_uids = empty;
  legacy_events = empty;
  legacy_deleted = empty;
}

unfoldable pub save_main : Host → Error × Host
unfolding write main_of
save_main h = write (λ d. record d { main = holds (main_of h.state) }) h

-- saveFolderLocked
unfoldable pub shard_of : String → DiskState → FolderShard
shard_of f s = record {
  folder_id = f;
  items = get_or [] s.items f;
  uids = get_or [] s.uids f;
  deleted = get_or empty s.deleted f;
}

unfoldable pub save_folder : String → Host → Error × Host
unfolding write shard_of
save_folder f h =
    write (λ d. record d { shards = put d.shards (shard_file_name f) (holds (shard_of f h.state)) })
      h

-- writeEventsSnapshotLocked: a failure to truncate the log is only logged.
unfoldable pub log_exists : Disk → Bool
log_exists d = elim (d.event_log) [
  | absent ↦ false
  | unreadable ↦ true
  | corrupt ↦ true
  | holds _ ↦ true
]

unfoldable pub write_events_snapshot : Host → Error × Host
unfolding write log_exists
write_events_snapshot h =
    let r =
      write
        (λ d. record d {
          snapshot = holds (record { events = h.state.events; aliases = h.state.event_aliases });
        })
        h in
    elim (r.0) [
      | some e ↦ (some e, r.1)
      | none ↦
          if log_exists (r.1).disk
          then (none, (write (λ d. record d { event_log = holds [] }) (r.1)).1)
          else (none, r.1)
    ]

unfoldable pub save_folders : List String → Host → Error × Host
unfolding save_folder and_then
save_folders [] h = (none, h)
save_folders (f ∷ fs) h = and_then (save_folder f) (save_folders fs) h

-- saveLocked
unfoldable pub save_all : Host → Error × Host
unfolding save_folders write_events_snapshot save_main and_then
save_all h =
    and_then (save_folders (map (λ e. e.0) h.state.items.entries))
      (and_then write_events_snapshot save_main) h

-- The lines of the log; a log that cannot be read takes no line.
unfoldable pub lines_of : File (List (Option EventLogEntry)) → List (Option EventLogEntry)
lines_of absent = []
lines_of unreadable = []
lines_of corrupt = []
lines_of (holds lines) = lines

-- appendEventLogLocked: no write at all where nothing has changed.
unfoldable pub append_event_log_file : CalendarMutations → Host → Error × Host
unfolding write lines_of
append_event_log_file m h =
    if is_unchanged m
    then (none, h)
    else write (λ d. record d { event_log = holds (append_event_log m (lines_of d.event_log)) }) h

-- saveCalendarLocked
unfoldable pub save_calendar : CalendarMutations → Host → Error × Host
unfolding append_event_log_file save_main and_then
save_calendar m h = and_then (append_event_log_file m) save_main h

-- mutate and mutateFolder: the main file is written before the shard.
unfoldable pub mutate : (DiskState → DiskState) → Host → Error × Host
unfolding save_main
mutate fn h = save_main (record h { state = fn h.state })

unfoldable pub mutate_folder : String → (DiskState → DiskState) → Host → Error × Host
unfolding save_main save_folder and_then
mutate_folder f fn h = and_then save_main (save_folder f) (record h { state = fn h.state })

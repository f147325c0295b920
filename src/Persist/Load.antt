-- ===== src/Persist/Load.antt =====
-- loadState (state.go): the main file, the shards, the snapshot and the log of the calendar, the
-- repair of what was read, and the migration of the single-file format.
use eas_bridge.Prelude.{
  String, ◌≡◌, ◌≢◌, Bool-cases, inl, inr, arith, eq_iff, Bool, true, false, not, ◌&&◌, ◌||◌, Option,
  none, some, List, [], ◌∷◌, map, is_nil, is_empty, str_eq, if◌then◌else◌,
}
use eas_bridge.Dict.{Dict, get, put, has}
use eas_bridge.Eas.{EventItem}
use eas_bridge.Store.{DiskState, CalendarEventAlias, empty_state}
use eas_bridge.Calendar.Log.{EventLogEntry, replay}
use eas_bridge.Persist.Disk.{
  StateMain, FolderShard, EventsShard, File, absent, unreadable, corrupt, holds, Disk, Host, Error,
  write_events_snapshot, save_folders, save_main, and_then,
}

-- `for k, v := range from { to[k] = v }`
unfoldable pub put_each : {A : Type 0} → List (String × A) → Dict A → Dict A
put_each [] to = to
put_each ((k, v) ∷ rest) to = put_each rest (put to k v)

unfoldable pub read_main : StateMain → DiskState → DiskState
unfolding put_each
read_main m s = record s {
  device_id = m.device_id;
  policy_key_val = m.policy_key_val;
  sync_keys = m.sync_keys;
  folders = m.folders;
  folder_meta = m.folder_meta;
  items = put_each m.legacy_items.entries s.items;
  uids = put_each m.legacy_uids.entries s.uids;
  events = put_each m.legacy_events.entries s.events;
  deleted = put_each m.legacy_deleted.entries s.deleted;
}

unfoldable pub is_legacy : StateMain → Bool
is_legacy m =
    not (is_nil m.legacy_items.entries)
    || not (is_nil m.legacy_uids.entries)
    || not (is_nil m.legacy_events.entries)
    || not (is_nil m.legacy_deleted.entries)

-- A shard that cannot be read, or has no folder ID, is skipped.
unfoldable pub read_shard : File FolderShard → DiskState → DiskState
read_shard absent s = s
read_shard unreadable s = s
read_shard corrupt s = s
read_shard (holds sh) s = if is_empty sh.folder_id then s else record s {
  items = put s.items sh.folder_id sh.items;
  uids = put s.uids sh.folder_id sh.uids;
  deleted = if is_nil sh.deleted.entries then s.deleted else put s.deleted sh.folder_id sh.deleted;
}

unfoldable pub read_shards : List (String × File FolderShard) → DiskState → DiskState
unfolding read_shard
read_shards [] s = s
read_shards ((name, file) ∷ rest) s = read_shards rest (read_shard file s)

unfoldable pub read_snapshot : File EventsShard → DiskState → DiskState
read_snapshot absent s = s
read_snapshot unreadable s = s
read_snapshot corrupt s = s
read_snapshot (holds es) s = record s { events = es.events; event_aliases = es.aliases }

-- A log that cannot be read is set aside, and the snapshot stands.
unfoldable pub read_log : File (List (Option EventLogEntry)) → DiskState → DiskState
unfolding replay
read_log absent s = s
read_log unreadable s = s
read_log corrupt s = s
read_log (holds lines) s =
    let m = replay lines (record { events = s.events; aliases = s.event_aliases }) in
    record s { events = m.events; event_aliases = m.aliases }

-- normalize: an alias that names nothing, itself or an event is dropped; an alias under another UID is
-- marked as a replay.
unfoldable pub is_broken_alias : Dict EventItem → String → CalendarEventAlias → Bool
is_broken_alias events id alias =
    is_empty id
    || is_empty alias.canonical_id
    || str_eq id alias.canonical_id
    || has events id
    || not (has events alias.canonical_id)

unfoldable pub mark_replay : Dict EventItem → CalendarEventAlias → CalendarEventAlias
mark_replay events alias = elim (get events alias.canonical_id) [
  | none ↦ alias
  | some target ↦
      if not alias.replay && not (is_empty alias.uid) && not (str_eq alias.uid target.uid)
      then record alias { replay = true }
      else alias
]

unfoldable pub repair_aliases :
    Dict EventItem → List (String × CalendarEventAlias) → List (String × CalendarEventAlias)
unfolding is_broken_alias mark_replay
repair_aliases events [] = []
repair_aliases events ((id, alias) ∷ rest) =
    let kept = repair_aliases events rest in
    if is_broken_alias events id alias then kept else (id, mark_replay events alias) ∷ kept

unfoldable pub normalize : DiskState → DiskState
unfolding repair_aliases
normalize s = record s {
  event_aliases = record { entries = repair_aliases s.events s.event_aliases.entries };
}

-- Steps 2 and 3, on what the main file gave.
unfoldable pub read_files : Disk → DiskState → DiskState
unfolding read_shards read_snapshot read_log
read_files d s = read_log d.event_log (read_snapshot d.snapshot (read_shards d.shards.entries s))

-- The migration: shards, then the snapshot, and the slim main file last.
unfoldable pub migrate : Host → Error × Host
unfolding save_folders write_events_snapshot save_main and_then
migrate h =
    and_then (save_folders (map (λ e. e.0) h.state.items.entries))
      (and_then write_events_snapshot save_main) h

unfoldable pub finish_load :
    (needs_compaction : File (List (Option EventLogEntry)) → Bool) → Bool → Host → Error × Host
unfolding write_events_snapshot normalize migrate and_then
finish_load needs_compaction legacy h =
    let compacted =
      if needs_compaction h.disk.event_log then write_events_snapshot h else (none, h) in
    elim (compacted.0) [
      | some e ↦ (some e, compacted.1)
      | none ↦
          let normal = record (compacted.1) { state = normalize (compacted.1).state } in
          if legacy then migrate normal else (none, normal)
    ]

-- `needs_compaction` compares the size of the file with the threshold of 16 MB.
unfoldable pub load_state :
    (needs_compaction : File (List (Option EventLogEntry)) → Bool) → Disk → List Bool → Error × Host
unfolding read_main is_legacy read_files finish_load
load_state needs_compaction d fates = elim (d.main) [
  | absent ↦
      finish_load needs_compaction false
        (record { state = read_files d empty_state; disk = d; fates = fates })
  | unreadable ↦
      (some "state.json unreadable", record { state = empty_state; disk = d; fates = fates })
  | corrupt ↦ (some "state.json corrupt", record { state = empty_state; disk = d; fates = fates })
  | holds m ↦
      finish_load needs_compaction (is_legacy m)
        (record { state = read_files d (read_main m empty_state); disk = d; fates = fates })
]

not_broken :
    (events : Dict EventItem) (k : String) (alias : CalendarEventAlias)
    → is_broken_alias events k alias ≡ false
    → (get events k ≡ none) × (get events alias.canonical_id ≢ none)
unfolding is_broken_alias
not_broken events k alias h = (ground arith, λ n. ground arith)

mark_replay-canonical_id :
    (events : Dict EventItem) (alias : CalendarEventAlias)
    → (mark_replay events alias).canonical_id ≡ alias.canonical_id
unfolding mark_replay
mark_replay-canonical_id events alias = ground arith

repair_aliases_lem :
    (events : Dict EventItem) (l : List (String × CalendarEventAlias)) (k : String)
    (a : CalendarEventAlias)
    → get (record { entries = repair_aliases events l }) k ≡ some a
    → (get events k ≡ none) × (get events a.canonical_id ≢ none)
unfolding repair_aliases get
repair_aliases_lem events [] k a h = cc
repair_aliases_lem events ((id, alias) ∷ rest) k a h =
    elim (Bool-cases (is_broken_alias events id alias)) [
      | inl e ↦ repair_aliases_lem events rest k a (ground arith)
      | inr e ↦ elim (Bool-cases (str_eq id k)) [
        | inl q ↦ (
          ground (arith, (not_broken events id alias e).0, eq_iff id k),
          λ n.
              ground
                (arith, (not_broken events id alias e).1, mark_replay-canonical_id events alias),
        )
        | inr q ↦ repair_aliases_lem events rest k a (ground arith)
      ]
    ]

-- After the repair, an alias that can be looked up names no event itself, and stands for an event.
pub normalize-aliases :
    (s : DiskState) (k : String) (a : CalendarEventAlias)
    → get (normalize s).event_aliases k ≡ some a
    → (get (normalize s).events k ≡ none) × (get (normalize s).events a.canonical_id ≢ none)
unfolding normalize
normalize-aliases s k a h = repair_aliases_lem s.events s.event_aliases.entries k a h

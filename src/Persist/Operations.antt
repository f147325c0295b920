-- ===== src/Persist/Operations.antt =====
-- The operations of the state that mark, remove and move mail, the accessors that the EAS client calls
-- (state.go), and the calendar writes of CalDAV. Each changes the memory and then writes its files.
use eas_bridge.Prelude.{
  ℕ, String, Bool, true, false, none, some, List, [], ◌∷◌, ◌++◌, str_eq, contains, if◌then◌else◌,
  ◌||◌,
}
use eas_bridge.Dict.{Dict, empty, get, put, remove, get_or}
use eas_bridge.Eas.{EmailItem, EventItem}
use eas_bridge.Store.{DiskState, CalendarEventAlias}
use eas_bridge.Store.Uids.{assign_uids}
use eas_bridge.Calendar.Changes.{
  CalendarMutations, no_changes, record_upsert, record_delete, record_alias_delete,
}
use eas_bridge.Persist.Disk.{Host, Error, save_folder, save_calendar, mutate, mutate_folder}

-- The loop that changes the first item with the ID and stops.
unfoldable pub change_first : (EmailItem → EmailItem) → String → List EmailItem → List EmailItem
change_first g id [] = []
change_first g id (it ∷ its) =
    let rest = change_first g id its in if str_eq it.server_id id then g it ∷ its else it ∷ rest

unfoldable pub change_item : (EmailItem → EmailItem) → String → String → DiskState → DiskState
unfolding change_first
change_item g f id s = elim (get s.items f) [
  | none ↦ s
  | some items ↦ record s { items = put s.items f (change_first g id items) }
]

unfoldable pub mark_read : String → String → Host → Error × Host
unfolding change_item save_folder
mark_read f id h =
    save_folder f (record h { state = change_item (λ it. record it { read = true }) f id h.state })

unfoldable pub mark_unread : String → String → Host → Error × Host
unfolding change_item save_folder
mark_unread f id h =
    save_folder f (record h { state = change_item (λ it. record it { read = false }) f id h.state })

unfoldable pub set_flagged : String → String → Bool → Host → Error × Host
unfolding change_item save_folder
set_flagged f id flagged h = save_folder f (record h {
  state = change_item (λ it. record it { flag_status = if flagged then 2 else 0 }) f id h.state;
})

unfoldable pub deleted_marks : String → DiskState → Dict Bool
deleted_marks f s = get_or empty s.deleted f

unfoldable pub mark_deleted : String → String → Bool → DiskState → DiskState
unfolding deleted_marks
mark_deleted f id deleted s =
    let m = deleted_marks f s in
    record s { deleted = put s.deleted f (if deleted then put m id true else remove m id) }

unfoldable pub set_deleted : String → String → Bool → Host → Error × Host
unfolding mark_deleted save_folder
set_deleted f id deleted h = save_folder f (record h { state = mark_deleted f id deleted h.state })

unfoldable pub is_deleted : String → String → DiskState → Bool
unfolding deleted_marks
is_deleted f id s = get_or false (deleted_marks f s) id

unfoldable pub keep_items : List String → List EmailItem → List EmailItem
keep_items drop [] = []
keep_items drop (it ∷ its) =
    let rest = keep_items drop its in if contains it.server_id drop then rest else it ∷ rest

unfoldable pub remove_marks : List String → Dict Bool → Dict Bool
remove_marks [] m = m
remove_marks (id ∷ ids) m = remove_marks ids (remove m id)

unfoldable pub without_items : String → List String → DiskState → DiskState
unfolding keep_items remove_marks
without_items f ids s = record s {
  items = put s.items f (keep_items ids (get_or [] s.items f));
  deleted = elim (get s.deleted f) [
    | none ↦ s.deleted
    | some m ↦ put s.deleted f (remove_marks ids m)
  ];
}

unfoldable pub remove_items : String → List String → Host → Error × Host
unfolding without_items save_folder
remove_items f ids h = save_folder f (record h { state = without_items f ids h.state })

-- addMovedItems: the whole folder, with what was moved in at its end, is given to assignUIDs.
unfoldable pub add_moved : ℕ → String → List EmailItem → DiskState → DiskState
add_moved now f items s =
    let all = get_or [] s.items f ++ items in
    let r = assign_uids now f all (record s { items = put s.items f all }) in
    record r.1 { items = put (r.1).items f (r.0) }

unfoldable pub add_moved_items : ℕ → String → List EmailItem → Host → Error × Host
unfolding add_moved mutate_folder
add_moved_items now f items = mutate_folder f (add_moved now f items)

unfoldable pub reset_sync_key : String → Host → Error × Host
unfolding mutate
reset_sync_key f = mutate (λ s. record s { sync_keys = remove s.sync_keys f })

unfoldable pub policy_key : Host → String
policy_key h = h.state.policy_key_val

unfoldable pub set_policy_key : String → Host → Error × Host
unfolding mutate
set_policy_key key = mutate (λ s. record s { policy_key_val = key })

unfoldable pub sync_key : String → Host → String
sync_key f h = get_or "" h.state.sync_keys f

-- A new sync key stays in memory until the next write of the main file.
unfoldable pub set_sync_key : String → String → Host → Error × Host
set_sync_key f key h =
    (none, record h { state = record (h.state) { sync_keys = put h.state.sync_keys f key } })

-- upsertEvent
unfoldable pub upsert_event : EventItem → Host → Error × Host
unfolding save_calendar
upsert_event ev h =
    let s = record (h.state) {
      events = put h.state.events ev.server_id ev;
      event_aliases = remove h.state.event_aliases ev.server_id;
    } in
    save_calendar (record_alias_delete ev.server_id (record_upsert ev no_changes))
      (record h { state = s })

-- The aliases that stand for the event, or are its own ID, in the order of the `range` loop.
unfoldable pub aliases_of : String → List (String × CalendarEventAlias) → List String
aliases_of id [] = []
aliases_of id ((alias_id, alias) ∷ rest) =
    let found = aliases_of id rest in
    if str_eq alias_id id || str_eq alias.canonical_id id then alias_id ∷ found else found

unfoldable pub remove_each : List String → Dict CalendarEventAlias → Dict CalendarEventAlias
remove_each [] d = d
remove_each (id ∷ ids) d = remove_each ids (remove d id)

unfoldable pub record_alias_deletes : List String → CalendarMutations → CalendarMutations
record_alias_deletes [] m = m
record_alias_deletes (id ∷ ids) m = record_alias_deletes ids (record_alias_delete id m)

-- deleteEvent
unfoldable pub delete_event : String → Host → Error × Host
unfolding aliases_of remove_each record_alias_deletes save_calendar
delete_event id h =
    let gone = aliases_of id h.state.event_aliases.entries in
    let s = record (h.state) {
      events = remove h.state.events id;
      event_aliases = remove_each gone h.state.event_aliases;
    } in
    save_calendar (record_alias_deletes gone (record_delete id no_changes)) (record h { state = s })

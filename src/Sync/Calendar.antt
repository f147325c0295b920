-- ===== src/Sync/Calendar.antt =====
-- One calendar round, syncCalendarOnce (sync.go): the repair of stored duplicates, then the pages of
-- the server, which are applied and saved in batches. The client is a parameter: `fetch` answers the next
-- request of the world `W`.
use eas_bridge.Prelude.{
  ℕ, ◌+◌, ◌%◌, zero, suc, String, Bool, true, false, not, ◌&&◌, ◌||◌, Option, none, some, List, [],
  ◌∷◌, ◌++◌, is_nil, is_empty, if◌then◌else◌, leb, ◌==◌, sort_strings,
}
use eas_bridge.Dict.{Dict, get, put, remove, get_or, keys}
use eas_bridge.Eas.{Folder, EventItem, folder_type_calendar}
use eas_bridge.Store.{CalendarEventAlias, no_alias}
use eas_bridge.Calendar.Index.{DuplicateIndex, add, find_equivalent}
use eas_bridge.Calendar.Changes.{CalendarMutations, no_changes, record_delete, record_alias}
use eas_bridge.Calendar.Cache.{Cache}
use eas_bridge.Calendar.Page.{CalendarSyncResult, apply_page}
use eas_bridge.Persist.Disk.{Host, Error, save_calendar}
use eas_bridge.Persist.Operations.{reset_sync_key}
use eas_bridge.Mail.Collect.{SyncError, is_status_5}

-- calendarFolderID: the first calendar folder; "" where there is none
unfoldable pub calendar_folder_id : List Folder → String
calendar_folder_id [] = ""
calendar_folder_id (f ∷ fs) =
    if f.kind == folder_type_calendar then f.server_id else calendar_folder_id fs

-- dedupeEquivalentCalendarEventsLocked, over the sorted IDs
pub record Deduped : Type 0 where
  pub events : Dict EventItem
  pub aliases : Dict CalendarEventAlias
  pub representatives : DuplicateIndex
  pub duplicates : List String

unfoldable pub dedupe_one : String → EventItem → Deduped → Deduped
dedupe_one id ev d =
    if is_empty ev.uid
    then record d { representatives = add id ev d.representatives }
    else elim (find_equivalent ev false d.representatives) [
      | none ↦ record d { representatives = add id ev d.representatives }
      | some canonical ↦ record d {
        events = remove d.events id;
        aliases =
            put d.aliases id (record { canonical_id = canonical; uid = ev.uid; replay = false });
        duplicates = d.duplicates ++ id ∷ [];
      }
    ]

unfoldable pub dedupe_each : List String → Dict EventItem → Deduped → Deduped
unfolding dedupe_one
dedupe_each [] stored d = d
dedupe_each (id ∷ ids) stored d = elim (get stored id) [
  | none ↦ dedupe_each ids stored d
  | some ev ↦ dedupe_each ids stored (dedupe_one id ev d)
]

unfoldable pub dedupe : Dict EventItem → Dict CalendarEventAlias → Deduped
unfolding dedupe_each
dedupe events aliases =
    dedupe_each (sort_strings (keys events)) events
      (record { events = events; aliases = aliases; representatives = []; duplicates = [] })

unfoldable pub cleanup_of :
    List String → Dict CalendarEventAlias → CalendarMutations → CalendarMutations
cleanup_of [] aliases m = m
cleanup_of (id ∷ ids) aliases m =
    cleanup_of ids aliases (record_alias id (get_or no_alias aliases id) (record_delete id m))

unfoldable pub repair : Host → Error × Host
unfolding dedupe cleanup_of
repair h =
    let d = dedupe h.state.events h.state.event_aliases in
    let s = record (h.state) { events = d.events; event_aliases = d.aliases } in
    if is_nil d.duplicates
    then (none, record h { state = s })
    else save_calendar (cleanup_of d.duplicates d.aliases no_changes) (record h { state = s })

-- The maps of the state with the pending log.
unfoldable pub cache_of : CalendarMutations → Host → Cache
cache_of pending h = record {
  events = h.state.events;
  aliases = h.state.event_aliases;
  index = [];
  changes = pending;
}

unfoldable pub with_cache : Cache → Host → Host
with_cache c h = record h {
  state = record (h.state) { events = c.events; event_aliases = c.aliases };
}

pub data CalendarReply : Type 0 where
  page : CalendarSyncResult → CalendarReply
  failed : SyncError → CalendarReply

pub data RoundError : Type 0 where
  no_calendar_folder : RoundError
  sync_failed : SyncError → RoundError
  save_failed : String → RoundError
  too_many_pages : RoundError

-- The end of a round: its error, and what it tells trackCalendarReplayResult, if anything.
pub data Round (W : Type 0) : Type 0 where
  round_done : Option RoundError → Option Bool → Host → W → Round W
  out_of_fuel : Round W

unfoldable pub round_ended : {W : Type 0} → Round W → Bool
round_ended (round_done e t h w) = true
round_ended out_of_fuel = false

-- The local variables of the loop.
pub record Locals : Type 0 where
  pub page_number : ℕ
  pub retried : Bool
  pub pending : CalendarMutations
  pub no_progress_pages : ℕ
  pub round_progress : Bool

unfoldable pub first_locals : Locals
first_locals = record {
  page_number = 0;
  retried = false;
  pending = no_changes;
  no_progress_pages = 0;
  round_progress = false;
}

-- After a reset of the key: `page = -1; continue`.
unfoldable pub after_reset : Locals → Locals
after_reset l = record l {
  page_number = 0;
  retried = true;
  pending = no_changes;
  no_progress_pages = 0;
}

unfoldable pub max_calendar_no_progress_pages : ℕ
max_calendar_no_progress_pages = 3

unfoldable pub is_stalled : CalendarSyncResult → ℕ → Bool
unfolding max_calendar_no_progress_pages
is_stalled res no_progress = res.more_available && leb max_calendar_no_progress_pages no_progress

unfoldable pub should_save : CalendarSyncResult → ℕ → ℕ → Bool
unfolding is_stalled
should_save res page_number no_progress =
    (page_number + 1) % 10 == 0
    || not res.more_available
    || is_stalled res no_progress
    || page_number == 99

-- The page is applied, and the batch saved where it is due.
unfoldable pub take_page : CalendarSyncResult → Locals → Host → Error × Locals × Host
unfolding cache_of with_cache should_save
take_page res l h =
    let r = apply_page res (cache_of l.pending h) in
    let no_progress = if r.0 then 0 else l.no_progress_pages + 1 in
    let h' = with_cache (r.1) h in
    let due = should_save res l.page_number no_progress in
    let s : Error × Host = if due then save_calendar (r.1).changes h' else (none, h') in
    let l' = record l {
      no_progress_pages = no_progress;
      round_progress = l.round_progress || r.0;
      pending = if due then no_changes else (r.1).changes;
    } in
    (s.0, l', s.1)

-- What follows a page: the error of a save, the end of the round, or nothing yet.
unfoldable pub end_of_page :
    {W : Type 0} → CalendarSyncResult → Error → Locals → Host → W → Option (Round W)
unfolding is_stalled
end_of_page res (some e) l h w = some (round_done (some (save_failed e)) none h w)
end_of_page res none l h w =
    if not res.more_available
    then some (round_done none (some false) h w)
    else if is_stalled res l.no_progress_pages
    then some (round_done none (some (not l.round_progress)) h w)
    else none

module _ {W : Type 0} (fetch : W → CalendarReply × W) where
  unfoldable pub run_pages : ℕ → String → Locals → Host → W → Round W
  unfolding after_reset take_page end_of_page
  run_pages zero folder l h w = out_of_fuel
  run_pages (suc fuel) folder l h w = elim (leb 100 l.page_number) [
    | true ↦ round_done (some too_many_pages) none h w
    | false ↦
        let r = fetch w in
        elim (r.0) [
          | failed e ↦ elim (is_status_5 e && not l.retried) [
            | true ↦ run_pages fuel folder (after_reset l) ((reset_sync_key folder h).1) (r.1)
            | false ↦ round_done (some (sync_failed e)) none h (r.1)
          ]
          | page res ↦
              let t = take_page res l h in
              elim (end_of_page res (t.0) (t.1) (t.2) (r.1)) [
                | some done ↦ done
                | none ↦
                    run_pages fuel folder (record (t.1) { page_number = (t.1).page_number + 1 })
                      (t.2) (r.1)
              ]
        ]
  ]

  unfoldable pub sync_calendar_once : ℕ → Host → W → Round W
  unfolding calendar_folder_id repair run_pages first_locals
  sync_calendar_once fuel h w =
      let folder = calendar_folder_id h.state.folders in
      if is_empty folder
      then round_done (some no_calendar_folder) none h w
      else let r = repair h in
        elim (r.0) [
          | some e ↦ round_done (some (save_failed e)) none (r.1) w
          | none ↦ run_pages fuel folder first_locals (r.1) w
        ]

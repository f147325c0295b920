-- ===== src/Calendar/Page.antt =====
-- One page of a calendar sync (sync.go): the test for a replayed page, the pruning of the aliases it
-- leaves stale, and the three loops of `syncCalendarOnce` over Added, Changed and Deleted.
use eas_bridge.Prelude.{
  ℕ, ◌-◌, String, Bool, true, false, not, ◌&&◌, ◌||◌, Option, none, some, List, [], ◌∷◌, ◌++◌,
  is_nil, length, sort_strings, contains, if◌then◌else◌, ltb, leb, take,
}
use eas_bridge.Dict.{Dict, empty, get, put, get_or}
use eas_bridge.Eas.{EventItem}
use eas_bridge.Store.{CalendarEventAlias}
use eas_bridge.Calendar.Equality.{same_content}
use eas_bridge.Calendar.Index.{DuplicateIndex, find_equivalent, new_index}
use eas_bridge.Calendar.Cache.{Cache, drop_alias, add_event, change_event, delete_event}

-- eas.CalendarSyncResult
pub record CalendarSyncResult : Type 0 where
  pub added : List EventItem
  pub changed : List EventItem
  pub deleted : List String
  pub more_available : Bool

abbrev pub max_calendar_stable_aliases : ℕ
max_calendar_stable_aliases = 8

-- canonicalCalendarEvent: the event an ID stands for, with the ID it is cached under.
unfoldable pub canonical_event :
    Dict EventItem → Dict CalendarEventAlias → String → Option (EventItem × String)
canonical_event events aliases server_id = elim (get events server_id) [
  | some ev ↦ some (ev, server_id)
  | none ↦ elim (get aliases server_id) [
    | none ↦ none
    | some alias ↦ elim (get events alias.canonical_id) [
      | none ↦ none
      | some ev ↦ some (ev, alias.canonical_id)
    ]
  ]
]

unfoldable pub is_known :
    Dict EventItem → Dict CalendarEventAlias → DuplicateIndex → EventItem → Bool
unfolding canonical_event
is_known events aliases index ev = elim (canonical_event events aliases ev.server_id) [
  | some (existing, _) ↦ same_content existing ev
  | none ↦ elim (find_equivalent ev true index) [ none ↦ false | some _ ↦ true ]
]

unfoldable pub all_known :
    Dict EventItem → Dict CalendarEventAlias → DuplicateIndex → List EventItem → Bool
unfolding is_known
all_known events aliases index [] = true
all_known events aliases index (ev ∷ evs) =
    is_known events aliases index ev && all_known events aliases index evs

-- calendarPageIsDuplicateReplay
unfoldable pub page_is_duplicate_replay :
    CalendarSyncResult → Dict EventItem → Dict CalendarEventAlias → DuplicateIndex → Bool
unfolding all_known
page_is_duplicate_replay res events aliases index =
    if not res.more_available
      || ltb (length res.added) 2
      || not (is_nil res.changed)
      || not (is_nil res.deleted)
    then false
    else all_known events aliases index res.added

unfoldable pub canonical_id_of :
    Dict EventItem → Dict CalendarEventAlias → DuplicateIndex → EventItem → Option String
unfolding canonical_event
canonical_id_of events aliases index ev = elim (canonical_event events aliases ev.server_id) [
  | some (_, id) ↦ some id
  | none ↦ find_equivalent ev true index
]

-- `keep[canonicalID][ev.ServerID] = struct{}{}` for the events of the page.
unfoldable pub keep_of :
    Dict EventItem
    → Dict CalendarEventAlias
    → DuplicateIndex
    → List EventItem
    → Dict (List String)
    → Dict (List String)
unfolding canonical_id_of
keep_of events aliases index [] keep = keep
keep_of events aliases index (ev ∷ evs) keep =
    let next : Dict (List String) = elim (canonical_id_of events aliases index ev) [
      | none ↦ keep
      | some id ↦ put keep id (ev.server_id ∷ get_or [] keep id)
    ] in
    keep_of events aliases index evs next

-- An alias of a touched event that the page does not name.
unfoldable pub is_stale : Dict (List String) → String → CalendarEventAlias → Bool
is_stale keep alias_id alias = elim (get keep alias.canonical_id) [
  | none ↦ false
  | some current ↦ not (contains alias_id current)
]

unfoldable pub stale_replays : Dict (List String) → List (String × CalendarEventAlias) → List String
unfolding is_stale
stale_replays keep [] = []
stale_replays keep ((alias_id, alias) ∷ rest) =
    let found = stale_replays keep rest in
    if is_stale keep alias_id alias && alias.replay then alias_id ∷ found else found

unfoldable pub stale_stable :
    Dict (List String) → List (String × CalendarEventAlias) → Dict (List String)
unfolding is_stale
stale_stable keep [] = empty
stale_stable keep ((alias_id, alias) ∷ rest) =
    let found = stale_stable keep rest in
    if is_stale keep alias_id alias && not alias.replay
    then put found alias.canonical_id (alias_id ∷ get_or [] found alias.canonical_id)
    else found

-- `ids[:len(ids)-maxCalendarStableAliases]` of the sorted IDs, for a group above the limit.
unfoldable pub excess : List String → List String
excess ids =
    if leb (length ids) max_calendar_stable_aliases
    then []
    else take (length ids - max_calendar_stable_aliases) (sort_strings ids)

unfoldable pub excess_of : List (String × List String) → List String
unfolding excess
excess_of [] = []
excess_of ((_, ids) ∷ rest) = excess ids ++ excess_of rest

unfoldable pub drop_aliases : List String → Cache → Cache
unfolding drop_alias
drop_aliases [] c = c
drop_aliases (id ∷ ids) c = drop_aliases ids (drop_alias id c)

-- pruneCalendarReplayAliasesLocked
unfoldable pub prunable : List EventItem → Cache → List String
unfolding keep_of stale_replays stale_stable excess_of
prunable added c =
    let keep = keep_of c.events c.aliases c.index added empty in
    stale_replays keep c.aliases.entries ++ excess_of (stale_stable keep c.aliases.entries).entries

unfoldable pub prune_replay_aliases : List EventItem → Cache → Cache
unfolding prunable drop_aliases
prune_replay_aliases added c = drop_aliases (prunable added c) c

unfoldable pub add_each : List EventItem → Bool → Bool × Cache → Bool × Cache
unfolding add_event
add_each [] duplicate_replay s = s
add_each (ev ∷ evs) duplicate_replay (progress, c) =
    let r = add_event ev duplicate_replay c in add_each evs duplicate_replay (progress || r.0, r.1)

unfoldable pub change_each : List EventItem → Bool × Cache → Bool × Cache
unfolding change_event
change_each [] s = s
change_each (ev ∷ evs) (progress, c) =
    let r = change_event ev c in change_each evs (progress || r.0, r.1)

unfoldable pub delete_each : List String → Bool × Cache → Bool × Cache
unfolding delete_event
delete_each [] s = s
delete_each (id ∷ ids) (progress, c) =
    let r = delete_event id c in delete_each ids (progress || r.0, r.1)

-- The page, on a cache whose index is built anew: the result says whether the page made progress.
unfoldable pub apply_page : CalendarSyncResult → Cache → Bool × Cache
unfolding page_is_duplicate_replay prune_replay_aliases add_each change_each delete_each
apply_page res c =
    let indexed = record c { index = new_index c.events } in
    let duplicate_replay = page_is_duplicate_replay res c.events c.aliases indexed.index in
    let pruned = if duplicate_replay then prune_replay_aliases res.added indexed else indexed in
    delete_each res.deleted
      (change_each res.changed (add_each res.added duplicate_replay (false, pruned)))

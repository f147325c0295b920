-- ===== src/Calendar/Cache.antt =====
-- The operations on the calendar cache (sync.go): Add, Change and Delete of a sync page.
use eas_bridge.Prelude.{
  String, Bool, true, false, not, ◌&&◌, ◌||◌, Option, none, some, List, [], ◌∷◌, str_eq, is_empty,
  sort_strings, if◌then◌else◌,
}
use eas_bridge.Dict.{Dict, get, put, remove, get_or}
use eas_bridge.Eas.{EventItem}
use eas_bridge.Store.{CalendarEventAlias, no_alias}
use eas_bridge.Calendar.Equality.{deep_equal, same_content}
use eas_bridge.Calendar.Index.{DuplicateIndex, add, remove_event, find_equivalent}
use eas_bridge.Calendar.Changes.{
  CalendarMutations, record_upsert, record_delete, record_alias, record_alias_delete,
}

-- What the operations share under `st.mu`: the two maps, the index of the page, and the pending log.
pub record Cache : Type 0 where
  pub events : Dict EventItem
  pub aliases : Dict CalendarEventAlias
  pub index : DuplicateIndex
  pub changes : CalendarMutations

-- `events[id] = ev; index.add(id, ev); changes.recordUpsert(ev)`
unfoldable pub store_event : EventItem → Cache → Cache
store_event ev c = record c {
  events = put c.events ev.server_id ev;
  index = add ev.server_id ev c.index;
  changes = record_upsert ev c.changes;
}

-- `index.remove(id, existing); delete(events, id); changes.recordDelete(id)`
unfoldable pub drop_event : String → EventItem → Cache → Cache
drop_event id existing c = record c {
  events = remove c.events id;
  index = remove_event id existing c.index;
  changes = record_delete id c.changes;
}

unfoldable pub replace_event : EventItem → EventItem → Cache → Cache
replace_event existing ev c = record c {
  events = put c.events ev.server_id ev;
  index = add ev.server_id ev (remove_event ev.server_id existing c.index);
  changes = record_upsert ev c.changes;
}

unfoldable pub store_alias : String → CalendarEventAlias → Cache → Cache
store_alias id alias c = record c {
  aliases = put c.aliases id alias;
  changes = record_alias id alias c.changes;
}

unfoldable pub drop_alias : String → Cache → Cache
drop_alias id c = record c {
  aliases = remove c.aliases id;
  changes = record_alias_delete id c.changes;
}

-- The alias still stands for an event with the content of `ev`.
unfoldable pub still_same : CalendarEventAlias → EventItem → Cache → Bool
still_same alias ev c = elim (get c.events alias.canonical_id) [
  | none ↦ false
  | some existing ↦ same_content existing ev
]

unfoldable pub refresh_alias : CalendarEventAlias → EventItem → Bool → Cache → Cache
unfolding store_alias
refresh_alias alias ev duplicate_replay c =
    if not (str_eq alias.uid ev.uid) || (duplicate_replay && not alias.replay)
    then store_alias ev.server_id
        (record alias { uid = ev.uid; replay = alias.replay || duplicate_replay }) c
    else c

unfoldable pub equivalent_of : EventItem → Bool → DuplicateIndex → Option String
equivalent_of ev duplicate_replay index =
    elim (if is_empty ev.uid then none else find_equivalent ev false index) [
      | some id ↦ some id
      | none ↦ if duplicate_replay then find_equivalent ev true index else none
    ]

unfoldable pub add_new : EventItem → Bool → Cache → Bool × Cache
unfolding equivalent_of store_alias store_event
add_new ev duplicate_replay c = elim (equivalent_of ev duplicate_replay c.index) [
  | some canonical ↦ (
    false,
    store_alias ev.server_id
        (record { canonical_id = canonical; uid = ev.uid; replay = duplicate_replay }) c,
  )
  | none ↦ (true, store_event ev c)
]

-- addCalendarEventLocked: the result says whether the cache made progress.
unfoldable pub add_event : EventItem → Bool → Cache → Bool × Cache
unfolding replace_event still_same refresh_alias drop_alias add_new
add_event ev duplicate_replay c =
    if is_empty ev.server_id then (false, c) else elim (get c.events ev.server_id) [
      | some existing ↦
          if deep_equal existing ev then (false, c) else (true, replace_event existing ev c)
      | none ↦ elim (get c.aliases ev.server_id) [
        | none ↦ add_new ev duplicate_replay c
        | some alias ↦
            if still_same alias ev c
            then (false, refresh_alias alias ev duplicate_replay c)
            else add_new ev duplicate_replay (drop_alias ev.server_id c)
      ]
    ]

-- changeCalendarEventLocked
unfoldable pub change_event : EventItem → Cache → Bool × Cache
unfolding replace_event still_same refresh_alias drop_alias store_event
change_event ev c = if is_empty ev.server_id then (false, c) else elim (get c.events ev.server_id) [
  | some existing ↦
      if deep_equal existing ev then (false, c) else (true, replace_event existing ev c)
  | none ↦ elim (get c.aliases ev.server_id) [
    | none ↦ (true, store_event ev c)
    | some alias ↦
        if still_same alias ev c
        then (false, refresh_alias alias ev false c)
        else (true, store_event ev (drop_alias ev.server_id c))
  ]
]

-- The aliases of a canonical event, in the order of the `range` loop.
unfoldable pub members : String → List (String × CalendarEventAlias) → List String
members id [] = []
members id ((alias_id, alias) ∷ rest) =
    let found = members id rest in if str_eq alias.canonical_id id then alias_id ∷ found else found

unfoldable pub retarget_one : String → String → Cache → Cache
unfolding store_alias
retarget_one promoted alias_id c =
    store_alias alias_id (record (get_or no_alias c.aliases alias_id) { canonical_id = promoted }) c

unfoldable pub retarget : String → List String → Cache → Cache
retarget promoted [] c = c
retarget promoted (alias_id ∷ rest) c = retarget promoted rest (retarget_one promoted alias_id c)

unfoldable pub promote : String → EventItem → String → List String → Cache → Cache
unfolding drop_alias drop_event store_event retarget_one retarget
promote id existing promoted_id rest c =
    let uid = (get_or no_alias c.aliases promoted_id).uid in
    let without = drop_event id existing (drop_alias promoted_id c) in
    retarget promoted_id rest
      (store_event (record existing { server_id = promoted_id; uid = uid }) without)

-- deleteCalendarEventLocked
unfoldable pub delete_event : String → Cache → Bool × Cache
unfolding drop_alias drop_event promote members
delete_event id c = elim (get c.aliases id) [
  | some alias ↦ (false, drop_alias id c)
  | none ↦ elim (get c.events id) [
    | none ↦ (false, c)
    | some existing ↦ elim (sort_strings (members id c.aliases.entries)) [
      | [] ↦ (true, drop_event id existing c)
      | promoted_id ∷ rest ↦ (true, promote id existing promoted_id rest c)
    ]
  ]
]

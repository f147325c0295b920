-- ===== src/Calendar/Log.antt =====
-- events.jsonl (state.go): the batch that is appended for the pending changes, and the replay of the
-- log into the two maps. A line that is not valid JSON, such as a torn last line, is `none`.
use eas_bridge.Prelude.{
  String, Option, none, some, List, [], ◌∷◌, ◌++◌, is_empty, not, sort_strings, if◌then◌else◌,
}
use eas_bridge.Dict.{Dict, get, put, remove, keys}
use eas_bridge.Eas.{EventItem}
use eas_bridge.Store.{CalendarEventAlias}
use eas_bridge.Calendar.Changes.{CalendarMutations, is_unchanged}

pub record AliasLogEntry : Type 0 where
  pub server_id : String
  pub alias : CalendarEventAlias

pub record MutationLog : Type 0 where
  pub upserts : List EventItem
  pub deletes : List String
  pub aliases : List AliasLogEntry
  pub delete_aliases : List String

pub record EventLogEntry : Type 0 where
  pub upsert : Option EventItem
  pub delete : String
  pub alias : Option AliasLogEntry
  pub delete_alias : String
  pub batch : Option MutationLog

-- The two maps that a replay rebuilds.
pub record Maps : Type 0 where
  pub events : Dict EventItem
  pub aliases : Dict CalendarEventAlias

unfoldable pub pick_events : Dict EventItem → List String → List EventItem
pick_events d [] = []
pick_events d (id ∷ ids) =
    let rest = pick_events d ids in elim (get d id) [ none ↦ rest | some ev ↦ ev ∷ rest ]

unfoldable pub pick_aliases : Dict CalendarEventAlias → List String → List AliasLogEntry
pick_aliases d [] = []
pick_aliases d (id ∷ ids) =
    let rest = pick_aliases d ids in
    elim (get d id) [ none ↦ rest | some a ↦ record { server_id = id; alias = a } ∷ rest ]

-- The batch of `appendEventLogLocked`: the four parts, each by server ID.
unfoldable pub batch_of : CalendarMutations → MutationLog
unfolding pick_events pick_aliases
batch_of m = record {
  upserts = pick_events m.upserts (sort_strings (keys m.upserts));
  deletes = sort_strings (keys m.deletes);
  aliases = pick_aliases m.alias_upserts (sort_strings (keys m.alias_upserts));
  delete_aliases = sort_strings (keys m.alias_deletes);
}

unfoldable pub entry_of : MutationLog → EventLogEntry
entry_of b = record { upsert = none; delete = ""; alias = none; delete_alias = ""; batch = some b }

-- appendEventLogLocked: nothing is written when nothing has changed, else one line.
unfoldable pub append_event_log :
    CalendarMutations → List (Option EventLogEntry) → List (Option EventLogEntry)
append_event_log m lines =
    if is_unchanged m then lines else lines ++ some (entry_of (batch_of m)) ∷ []

unfoldable pub replay_deletes : List String → Maps → Maps
replay_deletes [] m = m
replay_deletes (id ∷ ids) m = replay_deletes ids (record m { events = remove m.events id })

unfoldable pub replay_delete_aliases : List String → Maps → Maps
replay_delete_aliases [] m = m
replay_delete_aliases (id ∷ ids) m =
    replay_delete_aliases ids (record m { aliases = remove m.aliases id })

unfoldable pub replay_upsert : EventItem → Maps → Maps
replay_upsert ev m = record {
  events = put m.events ev.server_id ev;
  aliases = remove m.aliases ev.server_id;
}

unfoldable pub replay_upserts : List EventItem → Maps → Maps
replay_upserts [] m = m
replay_upserts (ev ∷ evs) m = replay_upserts evs (replay_upsert ev m)

unfoldable pub replay_alias : AliasLogEntry → Maps → Maps
replay_alias a m = record {
  events = remove m.events a.server_id;
  aliases = put m.aliases a.server_id a.alias;
}

unfoldable pub replay_aliases : List AliasLogEntry → Maps → Maps
replay_aliases [] m = m
replay_aliases (a ∷ as_) m = replay_aliases as_ (replay_alias a m)

unfoldable pub replay_batch : MutationLog → Maps → Maps
unfolding replay_deletes replay_delete_aliases replay_upserts replay_aliases replay_upsert
    replay_alias
replay_batch b m =
    replay_aliases b.aliases (
      replay_upserts b.upserts
        (replay_delete_aliases b.delete_aliases (replay_deletes b.deletes m)))

-- A line of the old format holds one operation; the first of its fields that is set counts.
unfoldable pub replay_entry : EventLogEntry → Maps → Maps
unfolding replay_batch
replay_entry e m = elim e.batch [
  | some b ↦ replay_batch b m
  | none ↦ elim e.upsert [
    | some ev ↦ replay_upsert ev m
    | none ↦
        if not (is_empty e.delete)
        then record m { events = remove m.events e.delete }
        else elim e.alias [
          | some a ↦ replay_alias a m
          | none ↦
              if not (is_empty e.delete_alias)
              then record m { aliases = remove m.aliases e.delete_alias }
              else m
        ]
  ]
]

-- replayEventLogLocked
unfoldable pub replay : List (Option EventLogEntry) → Maps → Maps
unfolding replay_entry
replay [] m = m
replay (none ∷ lines) m = replay lines m
replay (some e ∷ lines) m = replay lines (replay_entry e m)

-- ===== src/Calendar/Changes.antt =====
-- calendarMutations (state.go): the last change of every server ID since the log was last written.
use eas_bridge.Prelude.{String, Bool, ◌&&◌, is_nil}
use eas_bridge.Dict.{Dict, empty, put, remove}
use eas_bridge.Eas.{EventItem}
use eas_bridge.Store.{CalendarEventAlias}

pub record CalendarMutations : Type 0 where
  pub upserts : Dict EventItem
  pub deletes : Dict (Unit {0})
  pub alias_upserts : Dict CalendarEventAlias
  pub alias_deletes : Dict (Unit {0})

unfoldable pub no_changes : CalendarMutations
no_changes = record {
  upserts = empty;
  deletes = empty;
  alias_upserts = empty;
  alias_deletes = empty;
}

unfoldable pub record_upsert : EventItem → CalendarMutations → CalendarMutations
record_upsert ev m = record m {
  deletes = remove m.deletes ev.server_id;
  upserts = put m.upserts ev.server_id ev;
}

unfoldable pub record_delete : String → CalendarMutations → CalendarMutations
record_delete server_id m = record m {
  upserts = remove m.upserts server_id;
  deletes = put m.deletes server_id tt;
}

unfoldable pub record_alias : String → CalendarEventAlias → CalendarMutations → CalendarMutations
record_alias server_id alias m = record m {
  alias_deletes = remove m.alias_deletes server_id;
  alias_upserts = put m.alias_upserts server_id alias;
}

unfoldable pub record_alias_delete : String → CalendarMutations → CalendarMutations
record_alias_delete server_id m = record m {
  alias_upserts = remove m.alias_upserts server_id;
  alias_deletes = put m.alias_deletes server_id tt;
}

unfoldable pub is_unchanged : CalendarMutations → Bool
is_unchanged m =
    is_nil m.upserts.entries
    && is_nil m.deletes.entries
    && is_nil m.alias_upserts.entries
    && is_nil m.alias_deletes.entries

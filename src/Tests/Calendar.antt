-- ===== src/Tests/Calendar.antt =====
-- A page that adds three equal events, a Delete of one of them, and the log; a repair at startup.
use eas_bridge.Prelude.{String, ◌≡◌, ◌≢◌, refl, true, false, none, some, [], ◌∷◌, arith}
use eas_bridge.Dict.{empty, get, get-empty}
use eas_bridge.Eas.{EventItem, no_event}
use eas_bridge.Store.{DiskState, CalendarEventAlias}
use eas_bridge.Calendar.Index.{bucket}
use eas_bridge.Calendar.Changes.{no_changes}
use eas_bridge.Calendar.Cache.{Cache, delete_event}
use eas_bridge.Calendar.Log.{Maps, replay}
use eas_bridge.Calendar.Page.{CalendarSyncResult, apply_page}
use eas_bridge.Calendar.WellFormed.{IsWellFormed}
use eas_bridge.Calendar.Promotion.{delete_event-IsWellFormed}
use eas_bridge.Calendar.Paging.{apply_page-IsWellFormed}
use eas_bridge.Persist.Load.{normalize, normalize-aliases}
use eas_bridge.Persist.Disk.{Host, absent}

abbrev event : String → EventItem
event id = record no_event { server_id = id; uid = "meeting"; subject = "weekly" }

abbrev added_page : CalendarSyncResult
added_page = record {
  added = event "b" ∷ event "c" ∷ event "a" ∷ [];
  changed = [];
  deleted = [];
  more_available = false;
}

abbrev deleted_page : CalendarSyncResult
deleted_page = record { added = []; changed = []; deleted = "b" ∷ []; more_available = false }

new_cache : Cache
new_cache = record { events = empty; aliases = empty; index = []; changes = no_changes }

new_maps : Maps
new_maps = record { events = empty; aliases = empty }

new_cache-IsWellFormed : IsWellFormed new_cache
unfolding new_cache bucket empty
new_cache-IsWellFormed = record {
  named = λ k e h. ground (arith, get-empty {V = EventItem} k);
  disjoint = λ k e h. get-empty k;
  targets = λ k a h n. ground (arith, get-empty {V = CalendarEventAlias} k);
  indexed = λ q k e h. ground (arith, get-empty {V = EventItem} k);
  single = tt;
  unique = tt;
}

apply_page-IsWellFormed_example : IsWellFormed ((apply_page added_page new_cache).1)
apply_page-IsWellFormed_example =
    apply_page-IsWellFormed added_page new_cache new_cache-IsWellFormed

delete_event-IsWellFormed_example :
    IsWellFormed ((delete_event "b" ((apply_page added_page new_cache).1)).1)
delete_event-IsWellFormed_example =
    delete_event-IsWellFormed "b" ((apply_page added_page new_cache).1)
      (apply_page-IsWellFormed added_page new_cache new_cache-IsWellFormed)

-- An alias of a stored event, and one that names nothing.
abbrev stored : DiskState
stored = record {
  device_id = "";
  policy_key_val = "";
  sync_keys = record { entries = [] };
  folders = [];
  items = record { entries = [] };
  uids = record { entries = [] };
  folder_meta = record { entries = [] };
  events = record { entries = ("a", event "a") ∷ [] };
  event_aliases = record {
    entries =
        ("x", record { canonical_id = "gone"; uid = ""; replay = false })
        ∷ ("c", record { canonical_id = "a"; uid = "old"; replay = false })
        ∷ [];
  };
  deleted = record { entries = [] };
}

repaired_alias :
    get (normalize stored).event_aliases "c"
    ≡ some (record { canonical_id = "a"; uid = "old"; replay = true })
unfolding normalize get
repaired_alias = refl

normalize-aliases_example :
    (get (normalize stored).events "c" ≡ none) × (get (normalize stored).events "a" ≢ none)
normalize-aliases_example =
    normalize-aliases stored "c" (record { canonical_id = "a"; uid = "old"; replay = true })
      repaired_alias

abbrev caldav_host : Host
caldav_host = record {
  state = record stored {
    events = record { entries = [] };
    event_aliases = record { entries = [] };
  };
  disk = record {
    main = absent;
    shards = record { entries = [] };
    snapshot = absent;
    event_log = absent;
  };
  fates = true ∷ true ∷ false ∷ [];
}

caldav_maps : Maps
caldav_maps = record { events = record { entries = [] }; aliases = record { entries = [] } }

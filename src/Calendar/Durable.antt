-- ===== src/Calendar/Durable.antt =====
-- The pages of a batch, the line that is appended to events.jsonl for them, and what the log then replays
-- into.
use eas_bridge.Prelude.{String, ◌≡◌, refl, Option, none, some, List, [], ◌∷◌, ◌++◌}
use eas_bridge.Dict.{Dict, get}
use eas_bridge.Calendar.Cache.{Cache}
use eas_bridge.Calendar.Log.{Maps, EventLogEntry, replay_entry, replay}
use eas_bridge.Calendar.Page.{CalendarSyncResult, apply_page}

-- The pages that are applied between two writes of the log.
unfoldable pub apply_pages : List CalendarSyncResult → Cache → Cache
unfolding apply_page
apply_pages [] c = c
apply_pages (res ∷ pages) c = apply_pages pages ((apply_page res c).1)

-- The maps of a replay agree with those of the cache at every ID.
unfoldable pub Agrees : Maps → Cache → Type 0
Agrees m c = (k : String) → (get m.events k ≡ get c.events k) × (get m.aliases k ≡ get c.aliases k)

pub replay-append :
    (xs ys : List (Option EventLogEntry)) (m : Maps) → replay (xs ++ ys) m ≡ replay ys (replay xs m)
unfolding replay
replay-append [] ys m = refl
replay-append (none ∷ xs) ys m = replay-append xs ys m
replay-append (some e ∷ xs) ys m = replay-append xs ys (replay_entry e m)

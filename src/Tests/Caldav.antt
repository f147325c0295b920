-- ===== src/Tests/Caldav.antt =====
-- A rule, an alarm, an exception and a write of CalDAV; folders, cached directories and flights.
use eas_bridge.Prelude.{
  ℕ, ◌+◌, ◌≤◌, String, ◌≡◌, refl, Bool, true, false, not, Option, none, some, List, [], ◌∷◌, all,
  inr, ◌⊎◌,
}
use eas_bridge.Dict.{Dict, get, put}
use eas_bridge.Eas.{EventItem, Folder, Recurrence, EventException}
use eas_bridge.Eas.Uploads.{EventDraft}
use eas_bridge.Mail.Collect.{SyncError, status}
use eas_bridge.Cache.Flight.{
  FlightGroup, no_flights, enter, Steps, start, entered, IsSingle, Steps-IsSingle,
}
use eas_bridge.Cache.Prune.{CacheDirectory, mime_cache_max_bytes, total_size, is_expired, prune}
use eas_bridge.Cache.Bounds.{prune-total}
use eas_bridge.Folders.Names.{imap_folder_names}
use eas_bridge.Folders.Resolved.{imap_folder_names_terminates}
use eas_bridge.Caldav.Rules.{word, number, days, eas_recurrence_to_rrule}
use eas_bridge.Caldav.Reading.{kept_as}
use eas_bridge.Caldav.Alarm.{trigger, parse_ical_duration_minutes}
use eas_bridge.Caldav.Triggers.{parse_ical_duration_minutes-trigger}
use eas_bridge.Caldav.Exceptions.{
  merge_exceptions, exception_at, last_at, exception_at-merge_exceptions,
}
use eas_bridge.Caldav.Writes.{put_calendar_object}
use eas_bridge.Caldav.Stored.{Settled, put_calendar_object-Settled}
use eas_bridge.Persist.Disk.{Host}
use eas_bridge.Calendar.Changes.{is_unchanged, record_alias_delete, record_upsert}
use eas_bridge.Tests.Uids.{host}

-- The second Tuesday of each month.
abbrev second_tuesday : Recurrence
second_tuesday = record {
  kind = 3;
  interval = 1;
  until = 0;
  occurrences = 6;
  day_of_week = 4;
  day_of_month = 0;
  week_of_month = 2;
  month_of_year = 0;
  is_leap_month = false;
  first_day_of_week = 0;
  calendar_type = 1;
}

parse_ical_duration_minutes-trigger_example :
    parse_ical_duration_minutes (λ s. s) (trigger 15) ≡ some 15
parse_ical_duration_minutes-trigger_example = parse_ical_duration_minutes-trigger (λ s. s) 15 refl

spells_tuesday :
    eas_recurrence_to_rrule second_tuesday
    ≡ (("FREQ", word "MONTHLY") ∷ ("BYDAY", days ("2TU" ∷ [])) ∷ ("COUNT", number 6) ∷ [])
unfolding eas_recurrence_to_rrule
spells_tuesday = refl

-- The interval of 1 is lost.
reads_interval : (kept_as second_tuesday 3).interval ≡ 0
unfolding kept_as
reads_interval = refl

abbrev exception : ℕ → Bool → EventException
exception t deleted = record {
  exception_start_time = t;
  deleted = deleted;
  subject = "";
  location = "";
  body = "";
  start_time = 0;
  end_time = 0;
  all_day_event = false;
  busy_status = 0;
  reminder = 0;
}

exception_at-merge_exceptions_example :
    exception_at 7 (merge_exceptions (exception 7 false ∷ []) (exception 7 true ∷ []))
    ≡ last_at 7 (some (exception 7 false)) (exception 7 true ∷ [])
exception_at-merge_exceptions_example =
    exception_at-merge_exceptions 7 (exception 7 false ∷ []) (exception 7 true ∷ [])

abbrev draft : EventDraft
draft = record {
  subject = "meeting";
  location = "";
  body = "";
  start_time = 1;
  end_time = 2;
  all_day_event = false;
  busy_status = 2;
  sensitivity = 0;
  reminder = 0;
  attendees = [];
  uid = "";
  recurrence = none;
  exceptions = [];
  time_zone = none;
  time_zone_raw = "";
}

-- A client that moves the sync key and then is refused with Status 5 for an update, and that creates the
-- event "new".
abbrev moved_key : Host → Host
moved_key h = record h {
  state = record (h.state) { sync_keys = record { entries = ("cal", "2") ∷ [] } };
}

abbrev refuse_update : String → String → EventDraft → Host → ℕ → Option SyncError × Host × ℕ
refuse_update folder id d h w = (some (status 5), moved_key h, w + 1)

abbrev create_new : String → EventDraft → Host → ℕ → (SyncError ⊎ String) × Host × ℕ
create_new folder d h w = (inr "new", moved_key h, w + 1)

abbrev refuse_delete : String → String → Host → ℕ → Option SyncError × Host × ℕ
refuse_delete folder id h w = (some (status 5), moved_key h, w + 1)

abbrev cal_host : Host
cal_host = record host {
  state = record (host.state) {
    folders =
        record { server_id = "cal"; parent_id = "0"; display_name = "Calendar"; kind = 8 } ∷ [];
  };
  fates = [];
}

put_calendar_object-Settled_example :
    Settled "new" cal_host
      (put_calendar_object refuse_update create_new refuse_delete "me" "zone" "x" true
        (some (draft, "uid"))
        cal_host
        0).0
put_calendar_object-Settled_example =
    put_calendar_object-Settled refuse_update create_new refuse_delete "me" "zone"
      (λ folder id d h w. (refl, refl)) (λ folder d h w. (refl, refl)) "new" "x" true
      (some (draft, "uid")) cal_host 0

put_creates :
    (ev : EventItem) × ((put_calendar_object refuse_update create_new refuse_delete "me" "zone" "x"
        true
        (some (draft, "uid"))
        cal_host
        0).0.0
      ≡ inr ev)
unfolding put_calendar_object get put is_unchanged record_alias_delete record_upsert
put_creates = (_, refl)

abbrev big : CacheDirectory
big = record { path = "big"; size = 2000000000; modified = 5 }

abbrev small : CacheDirectory
small = record { path = "small"; size = 10; modified = 9 }

prune-total_example :
    (total_size (prune (λ path. true) 10 (small ∷ big ∷ [])) ≤ mime_cache_max_bytes)
    × (all (λ d. not (is_expired 10 d)) (prune (λ path. true) 10 (small ∷ big ∷ [])) ≡ true)
prune-total_example = prune-total (λ path. true) (λ path. refl) 10 (small ∷ big ∷ [])

abbrev two_callers : FlightGroup
two_callers = (enter "mail" ((enter "mail" no_flights).1)).1

two_entered : Steps two_callers
two_entered = entered "mail" (entered "mail" start)

Steps-IsSingle_example : IsSingle two_callers
Steps-IsSingle_example = Steps-IsSingle two_callers two_entered

-- Two folders that are each other's parent.
abbrev circle : List Folder
circle =
    record { server_id = "a"; parent_id = "b"; display_name = "A"; kind = 12 }
    ∷ record { server_id = "b"; parent_id = "a"; display_name = "B"; kind = 12 }
    ∷ []

imap_folder_names_terminates_example :
    (names : Dict String) × (imap_folder_names (λ s. s) (λ kind s. s) circle ≡ some names)
imap_folder_names_terminates_example = imap_folder_names_terminates (λ s. s) (λ kind s. s) circle

-- ===== src/Caldav/Exceptions.antt =====
-- parseICalAlarmMinutes, mergeExceptions and draftToEventItem (caldav_write.go).
use eas_bridge.Prelude.{
  ℕ, String, ◌≡◌, refl, ap, ◌∙◌, Option, none, some, List, [], ◌∷◌, ◌==◌, arith, if◌then◌else◌,
}
use eas_bridge.Eas.{EventException}
use eas_bridge.Caldav.Alarm.{parse_ical_duration_minutes}

-- parseICalAlarmMinutes, over the triggers of the alarms that have one
unfoldable pub parse_ical_alarm_minutes : (String → String) → List String → ℕ
unfolding parse_ical_duration_minutes
parse_ical_alarm_minutes to_upper [] = 0
parse_ical_alarm_minutes to_upper (trig ∷ trigs) =
    elim (parse_ical_duration_minutes to_upper trig) [
      | some m ↦ m
      | none ↦ parse_ical_alarm_minutes to_upper trigs
    ]

-- The loop that replaces the first exception at the same time, or appends the new one.
unfoldable pub merge_exception : EventException → List EventException → List EventException
merge_exception nc [] = nc ∷ []
merge_exception nc (ex ∷ out) =
    let rest = merge_exception nc out in
    if ex.exception_start_time == nc.exception_start_time then nc ∷ out else ex ∷ rest

-- mergeExceptions
unfoldable pub merge_exceptions : List EventException → List EventException → List EventException
unfolding merge_exception
merge_exceptions out [] = out
merge_exceptions out (nc ∷ from_client) = merge_exceptions (merge_exception nc out) from_client

-- The first exception at a time.
abbrev pub exception_at : ℕ → List EventException → Option EventException
exception_at t [] = none
exception_at t (ex ∷ exs) = if ex.exception_start_time == t then some ex else exception_at t exs

abbrev pub last_at : ℕ → Option EventException → List EventException → Option EventException
last_at t found [] = found
last_at t found (ex ∷ exs) = last_at t (if ex.exception_start_time == t then some ex else found) exs

at-merge_exception :
    (t : ℕ) (nc : EventException) (out : List EventException)
    → exception_at t (merge_exception nc out)
      ≡ (if nc.exception_start_time == t then some nc else exception_at t out)
unfolding merge_exception
at-merge_exception t nc [] = refl
at-merge_exception t nc (ex ∷ out) = ground (arith, at-merge_exception t nc out)

-- After an update each time has the last exception of the client at it, or else the one that was stored: a
-- stored exception at the time of one of the client is replaced, whether it modifies or deletes.
pub exception_at-merge_exceptions :
    (t : ℕ) (existing from_client : List EventException)
    → exception_at t (merge_exceptions existing from_client)
      ≡ last_at t (exception_at t existing) from_client
unfolding merge_exceptions
exception_at-merge_exceptions t existing [] = refl
exception_at-merge_exceptions t existing (nc ∷ from_client) =
    exception_at-merge_exceptions t (merge_exception nc existing) from_client
    ∙ ap (λ found. last_at t found from_client) (at-merge_exception t nc existing)

-- ===== src/Caldav/Rules.antt =====
-- easRecurrenceToRRULE (caldavd.go) and rruleToEASRecurrence (caldav_write.go). A rule is the list of its
-- parts KEY=value: strings.Join and strings.Split at ';' and ',', the case of letters and the print and
-- reading of numbers and times are Go's. A value is held as what it spells: a time as its whole seconds since
-- the zero time, which is what the layout 20060102T150405Z prints, and the days as their tokens. Numbers are not negative, and 0 is the zero time.
use eas_bridge.Prelude.{
  ℕ, ◌*◌, ◌/◌, String, Bool, true, false, not, ◌&&◌, Option, none, some, List, [], ◌∷◌, ◌++◌,
  str_eq, is_nil, ltb, ◌==◌, if◌then◌else◌,
}
use eas_bridge.Eas.{Recurrence}
use eas_bridge.Caldav.Days.{position_of, by_day, parse_by_day}

pub data Value : Type 0 where
  word : String → Value
  number : ℕ → Value
  instant : ℕ → Value
  days : List String → Value

-- nanoseconds
abbrev pub second : ℕ
second = 1000000000

abbrev pub Rule : Type 0
Rule = List (String × Value)

-- A part that is there only under a condition.
unfoldable pub optional : Bool → String → Value → Rule
optional true key value = (key, value) ∷ []
optional false key value = []

-- BYDAY, where the day codes are not empty
unfoldable pub by_day_part : List String → Rule
unfolding optional
by_day_part tokens = optional (not (is_nil tokens)) "BYDAY" (days tokens)

-- The parts up to INTERVAL, by the kind; no part for a kind that is not known.
unfoldable pub kind_parts : Recurrence → Rule
unfolding optional by_day_part by_day position_of
kind_parts r =
    let positioned = by_day_part (by_day r.day_of_week (position_of r.week_of_month)) in
    let month = optional (ltb 0 r.month_of_year) "BYMONTH" (number r.month_of_year) in
    let month_day = optional (ltb 0 r.day_of_month) "BYMONTHDAY" (number r.day_of_month) in
    if r.kind == 0
    then ("FREQ", word "DAILY") ∷ []
    else if r.kind == 1
    then ("FREQ", word "WEEKLY") ∷ by_day_part (by_day r.day_of_week "")
    else if r.kind == 2
    then ("FREQ", word "MONTHLY") ∷ month_day
    else if r.kind == 3
    then ("FREQ", word "MONTHLY") ∷ positioned
    else if r.kind == 5
    then ("FREQ", word "YEARLY") ∷ month ++ month_day
    else if r.kind == 6
    then ("FREQ", word "YEARLY") ∷ month ++ positioned
    else []

-- INTERVAL, then COUNT or UNTIL
unfoldable pub end_parts : Recurrence → Rule
unfolding optional
end_parts r =
    optional (ltb 1 r.interval) "INTERVAL" (number r.interval)
    ++ (if ltb 0 r.occurrences
        then ("COUNT", number r.occurrences) ∷ []
        else optional (not (r.until == 0)) "UNTIL" (instant (r.until / second)))

-- easRecurrenceToRRULE
unfoldable pub eas_recurrence_to_rrule : Recurrence → Rule
unfolding kind_parts end_parts
eas_recurrence_to_rrule r =
    let parts = kind_parts r in if is_nil parts then [] else parts ++ end_parts r

-- `kv[key]`: the last part with the key
unfoldable pub value_of : Rule → String → Option Value
value_of [] key = none
value_of ((k, v) ∷ parts) key = elim (value_of parts key) [
  | some w ↦ some w
  | none ↦ if str_eq k key then some v else none
]

-- The seconds from the zero time to the year 10000, which the layout prints with five digits and does not read.
abbrev pub year_10000 : ℕ
year_10000 = 315537897600

abbrev pub read_instant : ℕ → ℕ
read_instant t = if ltb t year_10000 then t * second else 0

-- strconv.Atoi: 0 for a value that is no number
unfoldable pub atoi : Option Value → ℕ
atoi (some (number n)) = n
atoi (some (word s)) = 0
atoi (some (instant t)) = 0
atoi (some (days ts)) = 0
atoi none = 0

-- time.Parse: the zero time for a value that is no time
unfoldable pub time_of : Option Value → ℕ
time_of (some (instant t)) = read_instant t
time_of (some (word s)) = 0
time_of (some (number n)) = 0
time_of (some (days ts)) = 0
time_of none = 0

unfoldable pub days_of : Option Value → List String
days_of (some (days ts)) = ts
days_of (some (word s)) = []
days_of (some (number n)) = []
days_of (some (instant t)) = []
days_of none = []

unfoldable pub word_of : Option Value → String
word_of (some (word s)) = s
word_of (some (number n)) = ""
word_of (some (instant t)) = ""
word_of (some (days ts)) = ""
word_of none = ""

-- The four values that end_parts writes and FREQ aside, as the branches of the switch use them.
pub record Fields : Type 0 where
  pub freq : String
  pub interval : ℕ
  pub count : ℕ
  pub until : ℕ
  pub by_day : List String
  pub month_day : ℕ
  pub month : ℕ

unfoldable pub fields_of : Rule → Fields
unfolding value_of atoi time_of days_of word_of
fields_of rule = record {
  freq = word_of (value_of rule "FREQ");
  interval = atoi (value_of rule "INTERVAL");
  count = atoi (value_of rule "COUNT");
  until = time_of (value_of rule "UNTIL");
  by_day = days_of (value_of rule "BYDAY");
  month_day = atoi (value_of rule "BYMONTHDAY");
  month = atoi (value_of rule "BYMONTH");
}

unfoldable pub start_recurrence : Fields → Recurrence
start_recurrence f = record {
  kind = 0;
  interval = f.interval;
  until = f.until;
  occurrences = f.count;
  day_of_week = 0;
  day_of_month = 0;
  week_of_month = 0;
  month_of_year = 0;
  is_leap_month = false;
  first_day_of_week = 0;
  calendar_type = 1;
}

-- The cases MONTHLY and YEARLY: by the day of the month, or by the day of a week.
unfoldable pub by_date_or_day : ℕ → ℕ → Fields → Recurrence → Option Recurrence
unfolding parse_by_day
by_date_or_day by_date by_weekday f r =
    let read = parse_by_day (0, 0) f.by_day in
    if ltb 0 f.month_day
    then some (record r { kind = by_date; day_of_month = f.month_day })
    else if not (is_nil f.by_day) && ltb 0 (read.1)
    then some (record r { kind = by_weekday; day_of_week = read.0; week_of_month = read.1 })
    else none

unfoldable pub recurrence_of : Fields → Option Recurrence
unfolding start_recurrence by_date_or_day
recurrence_of f =
    let r = start_recurrence f in
    let weekly = record r { kind = 1; day_of_week = (parse_by_day (0, 0) f.by_day).0 } in
    if str_eq f.freq "DAILY"
    then some r
    else if str_eq f.freq "WEEKLY"
    then some weekly
    else if str_eq f.freq "MONTHLY"
    then by_date_or_day 2 3 f r
    else if str_eq f.freq "YEARLY"
    then by_date_or_day 5 6 f (record r { month_of_year = f.month })
    else none

-- rruleToEASRecurrence
unfoldable pub rrule_to_eas_recurrence : Rule → Option Recurrence
unfolding fields_of recurrence_of
rrule_to_eas_recurrence rule = recurrence_of (fields_of rule)

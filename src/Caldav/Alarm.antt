-- ===== src/Caldav/Alarm.antt =====
-- parseICalDurationMinutes (caldav_write.go), and the trigger that caldavd.go writes. The case mapping is Go's Unicode table, a parameter; numbers fit an int.
use Prim.Native.Nat.{compare, Ordering}
use Prim.Native.Char.{Char, code, char, IsScalar}
use Prim.Native.String.{[], ◌∷◌}
use eas_bridge.Prelude.{
  ℕ, ◌+◌, ◌-◌, ◌*◌, ◌/◌, ◌%◌, ◌<◌, zero, suc, String, ◌≡◌, Bool, true, false, not, ◌&&◌, Option,
  none, some, leb, ltb, ◌==◌, if◌then◌else◌, arith,
}
use eas_bridge.Folders.Component.{trim_space}

-- The variables of the loop; `num` is the number that is being read, if any.
pub record Reader : Type 0 where
  pub in_time : Bool
  pub num : Option ℕ
  pub total : ℕ
  pub parsed : Bool

-- A designator after the number `n`.
unfoldable pub designator : ℕ → ℕ → Reader → Option Reader
designator ch n r =
    let counts : ℕ → Option Reader =
      λ minutes. some (record r { num = none; total = r.total + n * minutes; parsed = true }) in
    if ch == 68
    then counts (24 * 60)
    else if ch == 87
    then counts (7 * 24 * 60)
    else if not r.in_time
    then none
    else if ch == 72
    then counts 60
    else if ch == 77
    then counts 1
    else if ch == 83
    then some (record r { num = none })
    else none

-- One round of the loop; `none` where the function gives up.
unfoldable pub read_char : ℕ → Reader → Option Reader
unfolding designator
read_char ch r =
    if ch == 84
    then if r.in_time then none else some (record r { in_time = true })
    else if leb 48 ch && leb ch 57
    then some (record r { num = some (elim (r.num) [ none ↦ 0 | some n ↦ n * 10 ] + (ch - 48)) })
    else elim (r.num) [ none ↦ none | some n ↦ designator ch n r ]

unfoldable pub read_chars : String → Reader → Option Reader
unfolding read_char
read_chars [] r = some r
read_chars (c ∷ cs) r = elim (read_char (code c) r) [ none ↦ none | some r' ↦ read_chars cs r' ]

-- After the loop: no number without its designator, and something that counts.
unfoldable pub end_of_duration : Reader → Option ℕ
end_of_duration r = elim (r.num) [ some n ↦ none | none ↦ if r.parsed then some r.total else none ]

unfoldable pub start_reader : Reader
start_reader = record { in_time = false; num = none; total = 0; parsed = false }

-- The text without the prefix "-P".
unfoldable pub after_prefix : String → Option String
after_prefix [] = none
after_prefix (c ∷ []) = none
after_prefix (c ∷ d ∷ cs) = if code c == 45 && code d == 80 then some cs else none

-- The function from the trimmed text in capitals on.
unfoldable pub parse_duration : String → Option ℕ
unfolding read_chars end_of_duration start_reader after_prefix
parse_duration v = elim (after_prefix v) [
  | none ↦ none
  | some rest ↦ elim (read_chars rest start_reader) [ none ↦ none | some r ↦ end_of_duration r ]
]

-- parseICalDurationMinutes
unfoldable pub parse_ical_duration_minutes : (String → String) → String → Option ℕ
unfolding parse_duration trim_space
parse_ical_duration_minutes to_upper v = parse_duration (to_upper (trim_space v))

-- The last decimal digit of a number.
pub scalar : (d : ℕ) → d < 10 → IsScalar (48 + d)
scalar d le = let low : compare (48 + d) 55296 ≡ Ordering.lt = ground (arith, le) in rw low tt

unfoldable pub digit : ℕ → Char
digit n = char (48 + n % 10) (scalar (n % 10) (omega arith))

-- `fmt.Sprintf("%d", n)` before the text `rest`, on fuel
unfoldable pub digits : ℕ → ℕ → String → String
unfolding digit
digits zero n rest = rest
digits (suc fuel) n rest =
    let text = digit n ∷ rest in
    let more = digits fuel (n / 10) text in if ltb n 10 then text else more

-- The trigger of an alarm: `fmt.Sprintf("-PT%dM", ev.Reminder)`
unfoldable pub trigger : ℕ → String
unfolding digits
trigger n = char 45 tt ∷ char 80 tt ∷ char 84 tt ∷ digits (suc n) n "M"

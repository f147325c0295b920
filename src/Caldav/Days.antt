-- ===== src/Caldav/Days.antt =====
-- The days of a rule: the bits of eas.DayOfWeek against the tokens of BYDAY (easDowCodes of caldavd.go,
-- dowCodeToBit and parseByDay of caldav_write.go).
use Prim.Native.Nat.{bit_and, bit_or}
use Prim.Native.Char.{code}
use Prim.Native.String.{[] as nil, ◌∷◌ as cons, ◌++◌, len, slice}
use eas_bridge.Prelude.{
  ℕ, ◌+◌, ◌-◌, ◌*◌, suc, String, Bool, true, false, ◌&&◌, Option, none, some, List, [], ◌∷◌, map,
  str_eq, is_empty, ltb, leb, ◌==◌, if◌then◌else◌,
}
use eas_bridge.Folders.Component.{trim_space}
use eas_bridge.Caldav.Alarm.{digits}

-- easDowCodes
unfoldable pub eas_dow_codes : List (ℕ × String)
eas_dow_codes =
    (1, "SU") ∷ (2, "MO") ∷ (4, "TU") ∷ (8, "WE") ∷ (16, "TH") ∷ (32, "FR") ∷ (64, "SA") ∷ []

-- The loop of byday and of bydayWithPos.
unfoldable pub codes_of : ℕ → List (ℕ × String) → List String
codes_of bits [] = []
codes_of bits ((bit, code) ∷ rest) =
    let codes = codes_of bits rest in if bit_and bits bit == 0 then codes else code ∷ codes

unfoldable pub by_day : ℕ → String → List String
unfolding codes_of eas_dow_codes
by_day bits prefix = map (λ code. prefix ++ code) (codes_of bits eas_dow_codes)

-- `prefix` of bydayWithPos
unfoldable pub position_of : ℕ → String
unfolding digits
position_of wk = if wk == 5 then "-1" else digits (suc wk) wk ""

-- dowCodeToBit
unfoldable pub find_code : String → List (ℕ × String) → Option ℕ
find_code code [] = none
find_code code ((bit, c) ∷ rest) = if str_eq c code then some bit else find_code code rest

-- strconv.Atoi: the sign is minus, and the number; a number that does not fit an int is no week either way.
unfoldable pub read_digits : ℕ → String → Option ℕ
read_digits acc nil = some acc
read_digits acc (cons c cs) =
    let rest = read_digits (acc * 10 + (code c - 48)) cs in
    if leb 48 (code c) && leb (code c) 57 then rest else none

unfoldable pub signed : Bool → String → Option (Bool × ℕ)
unfolding read_digits
signed minus s =
    if is_empty s then none else elim (read_digits 0 s) [ none ↦ none | some n ↦ some (minus, n) ]

unfoldable pub read_int : String → Option (Bool × ℕ)
unfolding signed
read_int nil = none
read_int (cons c cs) =
    if code c == 45
    then signed true cs
    else if code c == 43
    then signed false cs
    else signed false (cons c cs)

unfoldable pub next_week : ℕ → String → ℕ
unfolding read_int
next_week week_of_month pos = elim (read_int pos) [
  | none ↦ week_of_month
  | some (true, n) ↦ if n == 1 then 5 else week_of_month
  | some (false, n) ↦ if leb 1 n && leb n 4 then n else week_of_month
]

-- One round of parseByDay: a token that is trimmed, with its last two bytes as the code.
unfoldable pub read_token : String → ℕ × ℕ → ℕ × ℕ
unfolding find_code next_week eas_dow_codes trim_space
read_token text read =
    let tok = trim_space text in
    let n = len tok in
    let code = slice tok (n - 2) n in
    let bits : ℕ = elim (find_code code eas_dow_codes) [
      | none ↦ read.0
      | some bit ↦ bit_or (read.0) bit
    ] in
    if ltb n 2 then read else (bits, next_week (read.1) (slice tok 0 (n - 2)))

-- parseByDay, from its two variables; the tokens are what `strings.Split` gives.
unfoldable pub parse_by_day : ℕ × ℕ → List String → ℕ × ℕ
unfolding read_token
parse_by_day read [] = read
parse_by_day read (t ∷ ts) = parse_by_day (read_token t read) ts

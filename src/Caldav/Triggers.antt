-- ===== src/Caldav/Triggers.antt =====
-- The trigger of an alarm, read back by parseICalDurationMinutes.
use Prim.Native.Char.{code, char}
use Prim.Native.String.{[], ◌∷◌}
use eas_bridge.Prelude.{
  ℕ, ◌+◌, ◌-◌, ◌*◌, ◌/◌, ◌%◌, ◌<◌, zero, suc, String, ◌≡◌, refl, ap, ◌∙◌, Bool, true, false, not,
  ◌&&◌, Option, none, some, leb, ltb, ◌==◌, if◌then◌else◌, arith, Bool-cases, inl, inr, is_empty,
}
use eas_bridge.Folders.Component.{is_space, trim_left, trim_right, trim_space}
use eas_bridge.Caldav.Alarm.{
  Reader, designator, read_char, read_chars, end_of_duration, start_reader, after_prefix,
  parse_duration, parse_ical_duration_minutes, digit, digits, trigger,
}

code-digit : (n : ℕ) → code (digit n) ≡ 48 + n % 10
unfolding digit
code-digit n = refl

-- A digit after the number `num`.
read_digit :
    (r : Reader) (n m : ℕ)
    → elim (r.num) as (λ x. ℕ) [ none ↦ 0 | some k ↦ k * 10 ] ≡ m
    → read_char (code (digit n)) r ≡ some (record r { num = some (m + n % 10) })
unfolding read_char
read_digit r n m e =
    let small : n % 10 < 10 = omega arith in
    let not_t : (48 + n % 10 == 84) ≡ false = ground arith in
    let low : leb 48 (48 + n % 10) ≡ true = ground arith in
    let high : leb (48 + n % 10) 57 ≡ true = ground arith in
    let same : 48 + n % 10 - 48 ≡ n % 10 = omega arith in
    rw (code-digit n, not_t, low, high, same, e, read_char) refl

one_digit :
    (r : Reader) (n m : ℕ) (rest : String)
    → elim (r.num) as (λ x. ℕ) [ none ↦ 0 | some k ↦ k * 10 ] ≡ m
    → read_chars (digit n ∷ rest) r ≡ read_chars rest (record r { num = some (m + n % 10) })
unfolding read_chars
one_digit r n m rest e =
    ap (λ o. elim o as (λ x. Option Reader) [ none ↦ none | some r' ↦ read_chars rest r' ])
      (read_digit r n m e)

read_digits :
    (fuel n : ℕ) (rest : String) (r : Reader)
    → n < fuel
    → r.num ≡ none
    → read_chars (digits fuel n rest) r ≡ read_chars rest (record r { num = some n })
unfolding digits read_chars
read_digits zero n rest r le e = absurd (omega arith)
read_digits (suc fuel) n rest r le e = elim (Bool-cases (ltb n 10)) [
  | inl p ↦
      let whole : 0 + n % 10 ≡ n = ground (arith, p) in
      rw (p, digits)
        (one_digit r n 0 rest (ap (λ o. elim o as (λ x. ℕ) [ none ↦ 0 | some k ↦ k * 10 ]) e)
          ∙ ap (λ k. read_chars rest (record r { num = some k })) whole)
  | inr p ↦
      let whole : n / 10 * 10 + n % 10 ≡ n = omega arith in
      let smaller : n / 10 < fuel = ground (arith, p, le) in
      rw (p, digits)
        (read_digits fuel (n / 10) (digit n ∷ rest) r smaller e
          ∙ one_digit (record r { num = some (n / 10) }) n (n / 10 * 10) rest refl
          ∙ ap (λ k. read_chars rest (record r { num = some k })) whole)
]

-- What the reader makes of the trigger without its prefix.
read_trigger :
    (n : ℕ)
    → read_chars (char 84 tt ∷ digits (suc n) n "M") start_reader
      ≡ some (record { in_time = true; num = none; total = n; parsed = true })
unfolding read_chars read_char designator start_reader
read_trigger n =
    read_digits (suc n) n "M" (record { in_time = true; num = none; total = 0; parsed = false })
      (omega arith) refl
    ∙ ap (λ k. some (record { in_time = true; num = none; total = k; parsed = true })) (omega arith)

-- No character that TrimSpace takes away.
no_space : String → Bool
no_space [] = true
no_space (c ∷ cs) = not (is_space c) && no_space cs

and_not : (a b : Bool) → (not a && b) ≡ true → (a ≡ false) × (b ≡ true)
and_not a b h = ground arith

keep_last : (a b : Bool) (s t : String) → b ≡ false → (if a && b then s else t) ≡ t
keep_last a b s t h = ground arith

trim_right-no_space : (s : String) → no_space s ≡ true → trim_right s ≡ s
unfolding trim_right no_space
trim_right-no_space [] h = refl
trim_right-no_space (c ∷ cs) h =
    let (last, rest) = and_not (is_space c) (no_space cs) h in
    keep_last (is_empty (trim_right cs)) (is_space c) "" (c ∷ trim_right cs) last
    ∙ ap (λ t. c ∷ t) (trim_right-no_space cs rest)

trim_left-no_space : (s : String) → no_space s ≡ true → trim_left s ≡ s
unfolding trim_left no_space
trim_left-no_space [] h = refl
trim_left-no_space (c ∷ cs) h =
    let (first, rest) = and_not (is_space c) (no_space cs) h in rw first refl

digit-no_space : (n : ℕ) → is_space (digit n) ≡ false
unfolding is_space digit
digit-no_space n = ground arith

no_space-if :
    (b : Bool) (s t : String)
    → no_space s ≡ true
    → no_space t ≡ true
    → no_space (if b then s else t) ≡ true
no_space-if true s t p q = p
no_space-if false s t p q = q

digits-no_space :
    (fuel n : ℕ) (rest : String) → no_space rest ≡ true → no_space (digits fuel n rest) ≡ true
unfolding digits no_space
digits-no_space zero n rest h = h
digits-no_space (suc fuel) n rest h =
    let one : no_space (digit n ∷ rest) ≡ true = rw (digit-no_space n, no_space) h in
    no_space-if (ltb n 10) (digit n ∷ rest) (digits fuel (n / 10) (digit n ∷ rest)) one
      (digits-no_space fuel (n / 10) (digit n ∷ rest) one)

trigger-no_space : (n : ℕ) → no_space (trigger n) ≡ true
unfolding trigger no_space is_space
trigger-no_space n = digits-no_space (suc n) n "M" refl

duration-trigger : (n : ℕ) → parse_duration (trigger n) ≡ some n
unfolding parse_duration after_prefix trigger end_of_duration
duration-trigger n =
    ap (λ o. elim o as (λ x. Option ℕ) [ none ↦ none | some r ↦ end_of_duration r ])
      (read_trigger n)

-- The trigger that is written for a reminder is read back as its minutes.
pub parse_ical_duration_minutes-trigger :
    (to_upper : String → String) (n : ℕ)
    → to_upper (trigger n) ≡ trigger n
    → parse_ical_duration_minutes to_upper (trigger n) ≡ some n
unfolding parse_ical_duration_minutes trim_space
parse_ical_duration_minutes-trigger to_upper n up =
    ap (λ t. parse_duration (to_upper (trim_right t)))
      (trim_left-no_space (trigger n) (trigger-no_space n))
    ∙ ap (λ t. parse_duration (to_upper t)) (trim_right-no_space (trigger n) (trigger-no_space n))
    ∙ ap parse_duration up
    ∙ duration-trigger n

-- ===== src/Caldav/Reading.antt =====
-- How the reader of a recurrence rule finds the parts that the writer wrote.
use eas_bridge.Prelude.{
  ℕ, ◌/◌, Bool-cases, inl, inr, String, ◌≡◌, refl, sym, ap, ◌∙◌, Bool, true, false, not, ◌&&◌, ◌||◌,
  Option, none, some, List, [], ◌∷◌, ◌++◌, arith, str_eq, is_nil, ltb, leb, ◌==◌, if◌then◌else◌,
}
use eas_bridge.Eas.{Recurrence}
use eas_bridge.Caldav.Rules.{
  second, read_instant, Rule, Value, number, instant, optional, kind_parts, end_parts,
  eas_recurrence_to_rrule, value_of, atoi, time_of, days_of, word_of, Fields, fields_of,
  recurrence_of, rrule_to_eas_recurrence,
}

or_value : Option Value → Option Value → Option Value
or_value (some w) o = some w
or_value none o = o

or_none : (o : Option Value) → o ≡ or_value o none
unfolding or_value
or_none none = refl
or_none (some w) = refl

or_before :
    (o x y : Option Value)
    → elim (or_value o x) as (λ z. Option Value) [ some w ↦ some w | none ↦ y ]
      ≡ or_value o (elim x [ some w ↦ some w | none ↦ y ])
unfolding or_value
or_before none x y = refl
or_before (some w) x y = refl

value_of-append :
    (p q : Rule) (key : String) → value_of (p ++ q) key ≡ or_value (value_of q key) (value_of p key)
unfolding value_of or_value
value_of-append [] q key = or_none (value_of q key)
value_of-append ((k, v) ∷ p) q key =
    ap
      (λ o. elim o as (λ x. Option Value) [
        | some w ↦ some w
        | none ↦ if str_eq k key then some v else none
      ])
      (value_of-append p q key)
    ∙ or_before (value_of q key) (value_of p key) (if str_eq k key then some v else none)

module _ (i o u : ℕ) where
  ends : Bool → Bool → Bool → Rule
  unfolding optional
  ends b c d =
      optional b "INTERVAL" (number i)
      ++ (if c then ("COUNT", number o) ∷ [] else optional d "UNTIL" (instant u))

  values_at_end :
      (b c d : Bool)
      → (value_of (ends b c d) "INTERVAL" ≡ (if b then some (number i) else none))
        × (value_of (ends b c d) "COUNT" ≡ (if c then some (number o) else none))
        × (value_of (ends b c d) "UNTIL"
            ≡ (if c then none else if d then some (instant u) else none))
        × (value_of (ends b c d) "FREQ" ≡ none)
        × (value_of (ends b c d) "BYDAY" ≡ none)
        × (value_of (ends b c d) "BYMONTHDAY" ≡ none)
        × (value_of (ends b c d) "BYMONTH" ≡ none)
  unfolding value_of ends
  values_at_end true true d = (refl, refl, refl, refl, refl, refl, refl)
  values_at_end true false true = (refl, refl, refl, refl, refl, refl, refl)
  values_at_end true false false = (refl, refl, refl, refl, refl, refl, refl)
  values_at_end false true d = (refl, refl, refl, refl, refl, refl, refl)
  values_at_end false false true = (refl, refl, refl, refl, refl, refl, refl)
  values_at_end false false false = (refl, refl, refl, refl, refl, refl, refl)

after_end :
    (p q : Rule) (key : String) {o : Option Value}
    → value_of q key ≡ o
    → value_of (p ++ q) key ≡ or_value o (value_of p key)
after_end p q key e = value_of-append p q key ∙ ap (λ o. or_value o (value_of p key)) e

atoi_if :
    (b : Bool) (n : ℕ) (o : Option Value)
    → o ≡ none
    → atoi (or_value (if b then some (number n) else none) o) ≡ (if b then n else 0)
unfolding atoi or_value
atoi_if true n o e = refl
atoi_if false n o e = rw e refl

time_if :
    (c d : Bool) (t : ℕ) (o : Option Value)
    → o ≡ none
    → time_of (or_value (if c then none else if d then some (instant t) else none) o)
      ≡ (if c then 0 else if d then read_instant t else 0)
unfolding time_of or_value
time_if true d t o e = rw e refl
time_if false true t o e = refl
time_if false false t o e = rw e refl

whole_seconds :
    (c : Bool) (t : ℕ)
    → (if c then 0 else if not (t == 0) then read_instant (t / second) else 0)
      ≡ (if c then 0 else read_instant (t / second))
whole_seconds true t = refl
whole_seconds false t = elim (Bool-cases (t == 0)) [
  | inl p ↦ let zero_time : t ≡ 0 = ground (arith, p) in rw zero_time refl
  | inr p ↦ rw p refl
]

pub nil_eq : {A : Type 0} (l : List A) → is_nil l ≡ true → l ≡ []
nil_eq [] h = refl
nil_eq (x ∷ l) h = cc

-- What the reader makes of a rule `p` with the end of the rule of `r`.
module _ (r : Recurrence) where
  unfoldable pub kept_interval : ℕ
  kept_interval = if ltb 1 r.interval then r.interval else 0

  unfoldable pub kept_until : ℕ
  kept_until = if ltb 0 r.occurrences then 0 else read_instant (r.until / second)

  fields_at_end :
      (p : Rule)
      → (value_of p "INTERVAL" ≡ none) × (value_of p "COUNT" ≡ none) × (value_of p "UNTIL" ≡ none)
      → fields_of (p ++ end_parts r) ≡ record {
        freq = word_of (value_of p "FREQ");
        interval = kept_interval;
        count = r.occurrences;
        until = kept_until;
        by_day = days_of (value_of p "BYDAY");
        month_day = atoi (value_of p "BYMONTHDAY");
        month = atoi (value_of p "BYMONTH");
      }
  unfolding fields_of end_parts ends kept_interval kept_until or_value
  fields_at_end p (a, b, c) =
      let v =
        values_at_end r.interval r.occurrences (r.until / second) (ltb 1 r.interval)
          (ltb 0 r.occurrences) (not (r.until == 0)) in
      let q = end_parts r in
      let e1 : atoi (value_of (p ++ q) "INTERVAL") ≡ kept_interval =
        ap atoi (after_end p q "INTERVAL" v.0) ∙ atoi_if (ltb 1 r.interval) r.interval _ a in
      let e2 : atoi (value_of (p ++ q) "COUNT") ≡ r.occurrences =
        ap atoi (after_end p q "COUNT" v.1)
        ∙ atoi_if (ltb 0 r.occurrences) r.occurrences _ b
        ∙ ground arith in
      let e3 : time_of (value_of (p ++ q) "UNTIL") ≡ kept_until =
        ap time_of (after_end p q "UNTIL" v.2)
        ∙ time_if (ltb 0 r.occurrences) (not (r.until == 0)) (r.until / second) _ c
        ∙ whole_seconds (ltb 0 r.occurrences) r.until in
      λ i. record {
        freq = word_of (after_end p q "FREQ" v.3 i);
        interval = e1 i;
        count = e2 i;
        until = e3 i;
        by_day = days_of (after_end p q "BYDAY" v.4 i);
        month_day = atoi (after_end p q "BYMONTHDAY" v.5 i);
        month = atoi (after_end p q "BYMONTH" v.6 i);
      }

  -- What is read back: an interval of at most 1 as 0, the whole seconds of the end date, no end date beside
  -- a count or from the year 10000 on, and the fields that the
  -- kind does not use as their zero values.
  unfoldable pub kept_as : ℕ → Recurrence
  unfolding kept_interval kept_until
  kept_as k =
      let by_date = k == 2 || k == 5 in
      let by_weekday = k == 3 || k == 6 in
      record {
        kind = k;
        interval = kept_interval;
        until = kept_until;
        occurrences = r.occurrences;
        day_of_week = if k == 1 || by_weekday then r.day_of_week else 0;
        day_of_month = if by_date then r.day_of_month else 0;
        week_of_month = if by_weekday then r.week_of_month else 0;
        month_of_year = if k == 5 || k == 6 then r.month_of_year else 0;
        is_leap_month = false;
        first_day_of_week = 0;
        calendar_type = 1;
      }

  -- The fields that the kind uses are there.
  unfoldable pub is_complete : Bool
  is_complete =
      if r.kind == 0
      then true
      else if r.kind == 1
      then ltb r.day_of_week 128
      else if r.kind == 2 || r.kind == 5
      then ltb 0 r.day_of_month
      else if r.kind == 3 || r.kind == 6
      then ltb 0 r.day_of_week
        && ltb r.day_of_week 128
        && leb 1 r.week_of_month
        && leb r.week_of_month 5
      else false

  unfoldable pub read_fields : Rule → Fields
  read_fields p = record {
    freq = word_of (value_of p "FREQ");
    interval = kept_interval;
    count = r.occurrences;
    until = kept_until;
    by_day = days_of (value_of p "BYDAY");
    month_day = atoi (value_of p "BYMONTHDAY");
    month = atoi (value_of p "BYMONTH");
  }

  unfoldable pub NoEnd : Rule → Type 0
  NoEnd p =
      (value_of p "INTERVAL" ≡ none) × (value_of p "COUNT" ≡ none) × (value_of p "UNTIL" ≡ none)

  -- The round trip from the parts of a kind `k`.
  pub by_parts :
      (k : ℕ) (p : Rule)
      → r.kind ≡ k
      → kind_parts r ≡ p
      → is_nil p ≡ false
      → NoEnd p
      → recurrence_of (read_fields p) ≡ some (kept_as k)
      → rrule_to_eas_recurrence (eas_recurrence_to_rrule r) ≡ some (kept_as r.kind)
  unfolding rrule_to_eas_recurrence eas_recurrence_to_rrule read_fields NoEnd
  by_parts k p e same some_part no_end reads =
      let whole : eas_recurrence_to_rrule r ≡ p ++ end_parts r = rw (same, some_part) refl in
      ap rrule_to_eas_recurrence whole
      ∙ ap recurrence_of (fields_at_end p no_end)
      ∙ reads
      ∙ ap (λ j. some (kept_as j)) (sym e)

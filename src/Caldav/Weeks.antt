-- ===== src/Caldav/Weeks.antt =====
-- BYDAY of a rule read back: every set of days, with a week from 1 to 5 or without one.
use Prim.Native.Nat.{bit_and, bit_or}
use Prim.Native.Char.{code}
use Prim.Native.String.{◌++◌}
use eas_bridge.Prelude.{
  ℕ, ◌<◌, ◌≤◌, zero, suc, String, ◌≡◌, refl, Bool, true, false, not, ◌&&◌, ◌||◌, none, some, List,
  [], ◌∷◌, map, arith, ap, ◌∙◌, ◌==◌, is_nil, Bool-cases, inl, inr, subst,
}
use eas_bridge.Folders.Component.{is_space}
use eas_bridge.Caldav.Days.{
  eas_dow_codes, codes_of, by_day, position_of, find_code, read_token, parse_by_day,
}

all_below : ℕ → (ℕ → Bool) → Bool
all_below zero p = true
all_below (suc n) p = p n && all_below n p

below_holds : (n : ℕ) (p : ℕ → Bool) (k : ℕ) → all_below n p ≡ true → k < n → p k ≡ true
unfolding all_below
below_holds zero p k h le = absurd (omega arith)
below_holds (suc n) p k h le = elim (Bool-cases (k == n)) [
  | inl e ↦
      let same : n ≡ k = ground (arith, e) in
      let here : p n ≡ true = ground arith in subst (λ j. p j ≡ true) same here
  | inr e ↦ below_holds n p k (ground arith) (ground arith)
]

-- What the reader makes of the codes, where `then_week` is what the text before each of them does.
read_codes : (ℕ → ℕ) → ℕ × ℕ → List String → ℕ × ℕ
unfolding find_code eas_dow_codes
read_codes then_week read [] = read
read_codes then_week read (code ∷ codes) =
    read_codes then_week
      (
        elim (find_code code eas_dow_codes) [ none ↦ read.0 | some bit ↦ bit_or (read.0) bit ],
        then_week (read.1),
      )
      codes

-- A token of each code, with a text before it, is taken apart into the two.
abbrev Splits : String → (ℕ → ℕ) → List (ℕ × String) → ℕ → ℕ → Type 0
Splits prefix then_week [] b w = Unit
Splits prefix then_week ((bit, code) ∷ rest) b w =
    (read_token (prefix ++ code) (b, w) ≡ (
      elim (find_code code eas_dow_codes) as (λ x. ℕ) [ none ↦ b | some bit ↦ bit_or b bit ],
      then_week w,
    ))
    × Splits prefix then_week rest b w

parse-read_codes :
    (prefix : String) (then_week : ℕ → ℕ) (bits : ℕ) (table : List (ℕ × String)) (read : ℕ × ℕ)
    → ((b w : ℕ) → Splits prefix then_week table b w)
    → parse_by_day read (map (λ code. prefix ++ code) (codes_of bits table))
      ≡ read_codes then_week read (codes_of bits table)
unfolding parse_by_day read_codes codes_of
parse-read_codes prefix then_week bits [] read splits = refl
parse-read_codes prefix then_week bits ((bit, day) ∷ rest) read splits =
    let later : (b w : ℕ) → Splits prefix then_week rest b w = λ b w. (splits b w).1 in
    elim (Bool-cases (bit_and bits bit == 0)) [
      | inl p ↦ rw (p, codes_of) (parse-read_codes prefix then_week bits rest read later)
      | inr p ↦
          rw (p, codes_of)
            (ap (λ r. parse_by_day r (map (λ c. prefix ++ c) (codes_of bits rest)))
                ((splits (read.0) (read.1)).0)
              ∙ parse-read_codes prefix then_week bits rest _ later)
    ]

no_week : (b w : ℕ) → Splits "" (λ w. w) eas_dow_codes b w
unfolding read_token is_space eas_dow_codes find_code
no_week b w = (refl, (refl, (refl, (refl, (refl, (refl, (refl, tt)))))))

-- The weeks from 1 to 5, the last one written as -1.
week_split :
    (wk : ℕ) → 1 ≤ wk → wk ≤ 5 → (b w : ℕ) → Splits (position_of wk) (λ w. wk) eas_dow_codes b w
unfolding read_token is_space eas_dow_codes find_code position_of
week_split zero low high b w = absurd (omega arith)
week_split (suc zero) low high b w = (refl, (refl, (refl, (refl, (refl, (refl, (refl, tt)))))))
week_split (suc (suc zero)) low high b w =
    (refl, (refl, (refl, (refl, (refl, (refl, (refl, tt)))))))
week_split (suc (suc (suc zero))) low high b w =
    (refl, (refl, (refl, (refl, (refl, (refl, (refl, tt)))))))
week_split (suc (suc (suc (suc zero)))) low high b w =
    (refl, (refl, (refl, (refl, (refl, (refl, (refl, tt)))))))
week_split (suc (suc (suc (suc (suc zero))))) low high b w =
    (refl, (refl, (refl, (refl, (refl, (refl, (refl, tt)))))))
week_split (suc (suc (suc (suc (suc (suc n)))))) low high b w = absurd (omega arith)

read_days : (ℕ → ℕ) → ℕ → Bool
unfolding read_codes codes_of eas_dow_codes
read_days then_week bits = (read_codes then_week (0, 0) (codes_of bits eas_dow_codes)).0 == bits

all_days_read : (then_week : ℕ → ℕ) → all_below 128 (read_days then_week) ≡ true
unfolding all_below read_days
all_days_read then_week = refl

-- The bits of the codes are read back, whatever stands before them.
days-read_codes :
    (then_week : ℕ → ℕ) (bits : ℕ)
    → bits < 128
    → (read_codes then_week (0, 0) (codes_of bits eas_dow_codes)).0 ≡ bits
unfolding read_days
days-read_codes then_week bits le =
    ground (arith, below_holds 128 (read_days then_week) bits (all_days_read then_week) le)

week-read_codes :
    (wk : ℕ) (codes : List String) (read : ℕ × ℕ)
    → is_nil codes ≡ false
    → (read_codes (λ w. wk) read codes).1 ≡ wk
unfolding read_codes
week-read_codes wk [] read h = cc
week-read_codes wk (c ∷ []) read h = refl
week-read_codes wk (c ∷ d ∷ codes) read h =
    week-read_codes wk (d ∷ codes)
      (
        elim (find_code c eas_dow_codes) as (λ x. ℕ) [
          | none ↦ read.0
          | some bit ↦ bit_or (read.0) bit
        ],
        wk,
      )
      refl

has_codes : ℕ → Bool
unfolding codes_of eas_dow_codes
has_codes bits = bits == 0 || not (is_nil (codes_of bits eas_dow_codes))

all_have_codes : all_below 128 has_codes ≡ true
unfolding all_below has_codes
all_have_codes = refl

-- The bits that BYDAY spells are read back.
pub bits-by_day : (bits : ℕ) → bits < 128 → (parse_by_day (0, 0) (by_day bits "")).0 ≡ bits
unfolding by_day
bits-by_day bits le =
    ap (λ r. r.0) (parse-read_codes "" (λ w. w) bits eas_dow_codes (0, 0) no_week)
    ∙ days-read_codes (λ w. w) bits le

-- The bits and the week that BYDAY spells are read back; the week 5 is written as -1.
pub week-by_day :
    (bits wk : ℕ)
    → 0 < bits
    → bits < 128
    → 1 ≤ wk
    → wk ≤ 5
    → parse_by_day (0, 0) (by_day bits (position_of wk)) ≡ (bits, wk)
unfolding by_day has_codes
week-by_day bits wk some_day le low high =
    let some_code : is_nil (codes_of bits eas_dow_codes) ≡ false =
      ground (arith, below_holds 128 has_codes bits all_have_codes le) in
    parse-read_codes (position_of wk) (λ w. wk) bits eas_dow_codes (0, 0) (week_split wk low high)
    ∙ (λ i. (
      days-read_codes (λ w. wk) bits le i,
      week-read_codes wk (codes_of bits eas_dow_codes) (0, 0) some_code i,
    ))

pub by_day_filled :
    (bits : ℕ) (prefix : String) → 0 < bits → bits < 128 → is_nil (by_day bits prefix) ≡ false
unfolding by_day has_codes
by_day_filled bits prefix some_day le =
    filled (codes_of bits eas_dow_codes)
      (ground (arith, below_holds 128 has_codes bits all_have_codes le))
  where
    filled :
        (codes : List String)
        → is_nil codes ≡ false
        → is_nil (map (λ code. prefix ++ code) codes) ≡ false
    filled [] h = h
    filled (c ∷ cs) h = refl

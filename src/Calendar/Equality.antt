-- ===== src/Calendar/Equality.antt =====
-- `reflect.DeepEqual` on events, and the comparisons that forget an identity.
use native.Mathlib.Decide.{ℕ_discrete}
use eas_bridge.Prelude.{
  ℕ, String, Bool, ◌≡◌, eq_iff, str_eq, Bool-cases, inl, inr, refl, true, false,
}
use eas_bridge.Eas.{EventItem}

pub String_discrete : Discrete String
String_discrete s t = elim (Bool-cases (str_eq s t)) [
  | inl e ↦ yes ((eq_iff s t).0 e)
  | inr e ↦ no (λ p. cc ((eq_iff s t).1 p))
]

pub EventItem_discrete : Discrete EventItem
EventItem_discrete = hlevel (ℕ_discrete, String_discrete)

unfoldable pub deep_equal : EventItem → EventItem → Bool
deep_equal a b = elim (EventItem_discrete a b) [ yes p ↦ true | no p ↦ false ]

pub deep_equal-eq : (a b : EventItem) → deep_equal a b ≡ true → a ≡ b
unfolding deep_equal
deep_equal-eq a b h =
    elim (EventItem_discrete a b) as (λ d. elim d [ yes p ↦ true | no p ↦ false ] ≡ true → a ≡ b) [
      | yes p ↦ λ e. p
      | no p ↦ λ e. cc
    ]
      h

-- calendarEventsEqualExceptServerID
unfoldable pub equal_except_server_id : EventItem → EventItem → Bool
equal_except_server_id a b = deep_equal (record a { server_id = "" }) (record b { server_id = "" })

-- calendarEventsSameContent
unfoldable pub same_content : EventItem → EventItem → Bool
same_content a b =
    deep_equal (record a { server_id = ""; uid = "" }) (record b { server_id = ""; uid = "" })

-- calendarEventDuplicateKey
pub record DuplicateKey : Type 0 where
  subject : String
  location : String
  body : String
  start : ℕ
  end_at : ℕ
  all_day : Bool
  organizer_email : String

unfoldable pub duplicate_key : EventItem → DuplicateKey
duplicate_key ev = record {
  subject = ev.subject;
  location = ev.location;
  body = ev.body;
  start = ev.start_time;
  end_at = ev.end_time;
  all_day = ev.all_day_event;
  organizer_email = ev.organizer_email;
}

pub DuplicateKey_discrete : Discrete DuplicateKey
DuplicateKey_discrete = hlevel (ℕ_discrete, String_discrete)

unfoldable pub key_eq : DuplicateKey → DuplicateKey → Bool
key_eq a b = elim (DuplicateKey_discrete a b) [ yes p ↦ true | no p ↦ false ]

pub key_eq_iff : (a b : DuplicateKey) → (key_eq a b ≡ true → a ≡ b) × (a ≡ b → key_eq a b ≡ true)
unfolding key_eq
key_eq_iff a b =
    elim (DuplicateKey_discrete a b)
      as (λ d.
        (elim d [ yes p ↦ true | no p ↦ false ] ≡ true → a ≡ b)
        × (a ≡ b → elim d [ yes p ↦ true | no p ↦ false ] ≡ true)) [
          | yes p ↦ (λ e. p, λ q. refl)
          | no p ↦ (λ e. cc, λ q. absurd (p q))
        ]

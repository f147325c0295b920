-- ===== src/Config.antt =====
-- The configuration (config.go): loadConfig with its defaults and its checks, and isLoopbackAddr. The
-- file and its JSON are parameters: what is read is an error or the values. A number that is not
-- positive is held as 0.
use Prim.Native.Char.{Char, code}
use Prim.Native.String.{[], ◌∷◌}
use eas_bridge.Prelude.{
  ℕ, ◌<◌, String, ◌≡◌, Bool, true, false, not, ◌&&◌, ◌||◌, Option, none, some, str_eq, is_empty,
  ◌==◌, if◌then◌else◌, arith, Bool-cases, inl, inr, inr-inj, ◌⊎◌, subst,
}

pub record Config : Type 0 where
  pub server : String
  pub user : String
  pub password : String
  pub imap_addr : String
  pub smtp_addr : String
  pub cal_dav_addr : String
  pub poll_secs : ℕ
  pub calendar_poll_secs : ℕ

-- `addr[:strings.LastIndex(addr, ":")]`, or `none` without a colon
unfoldable pub before_colon : String → Option String
before_colon [] = none
before_colon (c ∷ cs) = elim (before_colon cs) [
  | some t ↦ some (c ∷ t)
  | none ↦ if code c == 58 then some "" else none
]

unfoldable pub is_bracket : Char → Bool
is_bracket c = code c == 91 || code c == 93

-- `strings.Trim(host, "[]")`
unfoldable pub trim_brackets_left : String → String
unfolding is_bracket
trim_brackets_left [] = ""
trim_brackets_left (c ∷ cs) =
    let rest = trim_brackets_left cs in if is_bracket c then rest else c ∷ cs

unfoldable pub trim_brackets_right : String → String
unfolding is_bracket
trim_brackets_right [] = ""
trim_brackets_right (c ∷ cs) =
    let rest = trim_brackets_right cs in if is_empty rest && is_bracket c then "" else c ∷ rest

-- isLoopbackAddr
unfoldable pub is_loopback_addr : String → Bool
unfolding before_colon trim_brackets_left trim_brackets_right
is_loopback_addr addr =
    let cut : String = elim (before_colon addr) [ none ↦ addr | some t ↦ t ] in
    let host = trim_brackets_right (trim_brackets_left cut) in
    str_eq host "127.0.0.1" || str_eq host "localhost" || str_eq host "::1"

pub data ConfigError : Type 0 where
  not_read : ConfigError
  missing_field : ConfigError
  not_loopback : ConfigError

unfoldable pub or_default : String → String → String
or_default s d = if is_empty s then d else s

unfoldable pub with_addresses : Config → Config
unfolding or_default
with_addresses c = record c {
  imap_addr = or_default c.imap_addr "127.0.0.1:1143";
  smtp_addr = or_default c.smtp_addr "127.0.0.1:1025";
  cal_dav_addr = or_default c.cal_dav_addr "127.0.0.1:8008";
}

unfoldable pub with_intervals : Config → Config
with_intervals c =
    let poll = if c.poll_secs == 0 then 60 else c.poll_secs in
    record c {
      poll_secs = poll;
      calendar_poll_secs = if c.calendar_poll_secs == 0 then poll else c.calendar_poll_secs;
    }

unfoldable pub all_loopback : Config → Bool
unfolding is_loopback_addr
all_loopback c =
    is_loopback_addr c.imap_addr && is_loopback_addr c.smtp_addr && is_loopback_addr c.cal_dav_addr

-- loadConfig, from the answer of the file and of its JSON
unfoldable pub load_config : Option Config → ConfigError ⊎ Config
unfolding with_addresses with_intervals all_loopback
load_config none = inl not_read
load_config (some raw) =
    let c = with_addresses raw in
    if is_empty raw.server || is_empty raw.user || is_empty raw.password
    then inl missing_field
    else if not (all_loopback c)
    then inl not_loopback
    else inr (with_intervals c)

interval_set :
    (c : Config) → (0 < (with_intervals c).poll_secs) × (0 < (with_intervals c).calendar_poll_secs)
unfolding with_intervals
interval_set c = (ground arith, ground arith)

-- A configuration that loads has a user and a password, listens on loopback addresses only, and polls
-- at positive intervals.
pub load_config_lem :
    (file : Option Config) (c : Config)
    → load_config file ≡ inr c
    → (is_empty c.user ≡ false)
      × (is_empty c.password ≡ false)
      × (all_loopback c ≡ true)
      × (0 < c.poll_secs)
      × (0 < c.calendar_poll_secs)
unfolding load_config
load_config_lem none c e = cc
load_config_lem (some raw) c e =
    elim (Bool-cases (is_empty raw.server || is_empty raw.user || is_empty raw.password)) [
      | inl p ↦ absurd (cc (rw (p, load_config) at e))
      | inr p ↦ elim (Bool-cases (not (all_loopback (with_addresses raw)))) [
        | inl q ↦ absurd (cc (rw (p, q, load_config) at e))
        | inr q ↦
            let same : with_intervals (with_addresses raw) ≡ c =
              inr-inj (rw (p, q, load_config) at e) in
            let set = interval_set (with_addresses raw) in
            subst
              (λ c.
                (is_empty c.user ≡ false)
                × (is_empty c.password ≡ false)
                × (all_loopback c ≡ true)
                × (0 < c.poll_secs)
                × (0 < c.calendar_poll_secs))
              same (ground arith, ground arith, ground arith, set.0, set.1)
      ]
    ]

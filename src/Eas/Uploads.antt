-- ===== src/Eas/Uploads.antt =====
-- What the bridge sends through the ActiveSync library, and the answer to a move
-- (third_party/go-activesync/eas: changes.go, moveitems.go, calendar.go).
use eas_bridge.Prelude.{ℕ, String, Bool, false, Option, none, List}
use eas_bridge.Eas.{EventAttendee, EventException, Recurrence, EasTimeZone}

-- A change that the bridge uploads; `none` is a field that is not sent.
pub record EmailChange : Type 0 where
  pub server_id : String
  pub read : Option Bool
  pub flagged : Option Bool
  pub set_flag_status : Option ℕ
  pub delete : Bool

-- `eas.EmailChange{ServerID: id}`
abbrev pub no_change : String → EmailChange
no_change id = record {
  server_id = id;
  read = none;
  flagged = none;
  set_flag_status = none;
  delete = false;
}

pub record MoveItemResult : Type 0 where
  pub src_server_id : String
  pub dst_server_id : String
  pub status : ℕ

pub record EventDraft : Type 0 where
  pub subject : String
  pub location : String
  pub body : String
  pub start_time : ℕ
  pub end_time : ℕ
  pub all_day_event : Bool
  pub busy_status : ℕ
  pub sensitivity : ℕ
  pub reminder : ℕ
  pub attendees : List EventAttendee
  pub uid : String
  pub recurrence : Option Recurrence
  pub exceptions : List EventException
  pub time_zone : Option EasTimeZone
  pub time_zone_raw : String

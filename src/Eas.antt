-- ===== src/Eas.antt =====
-- The data that the ActiveSync library hands to the bridge (third_party/go-activesync/eas:
-- foldersync.go, email.go, calendar.go, recurrence.go, timezone.go). Only the data types are taken
-- over; the library's client is a parameter wherever it is called. A time counts nanoseconds from
-- the zero `time.Time`, so 0 is the time that `IsZero`; integers of the wire format are natural
-- numbers, and an int32 is its bit pattern.
pub mod Uploads
use eas_bridge.Prelude.{ℕ, String, Bool, false, List, [], Option, none}

pub record Folder : Type 0 where
  pub server_id : String
  pub parent_id : String
  pub display_name : String
  pub kind : ℕ

abbrev pub folder_type_inbox : ℕ
folder_type_inbox = 2

abbrev pub folder_type_drafts : ℕ
folder_type_drafts = 3

abbrev pub folder_type_deleted_items : ℕ
folder_type_deleted_items = 4

abbrev pub folder_type_sent_items : ℕ
folder_type_sent_items = 5

abbrev pub folder_type_outbox : ℕ
folder_type_outbox = 6

abbrev pub folder_type_calendar : ℕ
folder_type_calendar = 8

abbrev pub folder_type_user_mail : ℕ
folder_type_user_mail = 12

pub record Attachment : Type 0 where
  pub display_name : String
  pub file_reference : String
  pub method : ℕ
  pub estimated_data_size : ℕ
  pub content_id : String
  pub content_location : String
  pub is_inline : Bool
  pub content_type : String

abbrev pub body_type_none : ℕ
body_type_none = 0

pub record EmailItem : Type 0 where
  pub server_id : String
  pub subject : String
  pub from : String
  pub to : String
  pub cc : String
  pub bcc : String
  pub reply_to : String
  pub sender : String
  pub display_to : String
  pub date_received : ℕ
  pub read : Bool
  pub flag_status : ℕ
  pub importance : ℕ
  pub has_attachments : Bool
  pub read_present : Bool
  pub flag_status_present : Bool
  pub attachments : List Attachment
  pub thread_topic : String
  pub conversation_id : List ℕ
  pub message_class : String
  pub body_type : ℕ
  pub body_estimated_size : ℕ
  pub body_truncated : Bool
  pub body : String
  pub body_mime : List ℕ
  pub body_preview : String
  pub categories : List String
  pub voting_response : String
  pub voting_response_options : String

-- The zero value of `EmailItem`.
abbrev pub no_email : EmailItem
no_email = record {
  server_id = "";
  subject = "";
  from = "";
  to = "";
  cc = "";
  bcc = "";
  reply_to = "";
  sender = "";
  display_to = "";
  date_received = 0;
  read = false;
  flag_status = 0;
  importance = 0;
  has_attachments = false;
  read_present = false;
  flag_status_present = false;
  attachments = [];
  thread_topic = "";
  conversation_id = [];
  message_class = "";
  body_type = 0;
  body_estimated_size = 0;
  body_truncated = false;
  body = "";
  body_mime = [];
  body_preview = "";
  categories = [];
  voting_response = "";
  voting_response_options = "";
}

pub record EventAttendee : Type 0 where
  pub name : String
  pub email : String
  pub attendee_status : ℕ
  pub attendee_type : ℕ

pub record Recurrence : Type 0 where
  pub kind : ℕ
  pub interval : ℕ
  pub until : ℕ
  pub occurrences : ℕ
  pub day_of_week : ℕ
  pub day_of_month : ℕ
  pub week_of_month : ℕ
  pub month_of_year : ℕ
  pub is_leap_month : Bool
  pub first_day_of_week : ℕ
  pub calendar_type : ℕ

pub record EventException : Type 0 where
  pub exception_start_time : ℕ
  pub deleted : Bool
  pub subject : String
  pub location : String
  pub body : String
  pub start_time : ℕ
  pub end_time : ℕ
  pub all_day_event : Bool
  pub busy_status : ℕ
  pub reminder : ℕ

pub record SystemTime : Type 0 where
  pub year : ℕ
  pub month : ℕ
  pub day_of_week : ℕ
  pub day : ℕ
  pub hour : ℕ
  pub minute : ℕ
  pub second : ℕ
  pub milliseconds : ℕ

pub record EasTimeZone : Type 0 where
  pub bias_minutes : ℕ
  pub standard_name : String
  pub standard_date : SystemTime
  pub standard_bias : ℕ
  pub daylight_name : String
  pub daylight_date : SystemTime
  pub daylight_bias : ℕ

pub record EventItem : Type 0 where
  pub server_id : String
  pub uid : String
  pub subject : String
  pub location : String
  pub body : String
  pub body_type : ℕ
  pub start_time : ℕ
  pub end_time : ℕ
  pub all_day_event : Bool
  pub busy_status : ℕ
  pub sensitivity : ℕ
  pub meeting_status : ℕ
  pub reminder : ℕ
  pub organizer_name : String
  pub organizer_email : String
  pub attendees : List EventAttendee
  pub recurrence : Option Recurrence
  pub exceptions : List EventException
  pub time_zone : EasTimeZone
  pub time_zone_raw : String

-- The zero value of `EventItem`.
abbrev pub no_event : EventItem
no_event =
    let never : SystemTime = record {
      year = 0;
      month = 0;
      day_of_week = 0;
      day = 0;
      hour = 0;
      minute = 0;
      second = 0;
      milliseconds = 0;
    } in
    record {
      server_id = "";
      uid = "";
      subject = "";
      location = "";
      body = "";
      body_type = 0;
      start_time = 0;
      end_time = 0;
      all_day_event = false;
      busy_status = 0;
      sensitivity = 0;
      meeting_status = 0;
      reminder = 0;
      organizer_name = "";
      organizer_email = "";
      attendees = [];
      recurrence = none;
      exceptions = [];
      time_zone = record {
        bias_minutes = 0;
        standard_name = "";
        standard_date = never;
        standard_bias = 0;
        daylight_name = "";
        daylight_date = never;
        daylight_bias = 0;
      };
      time_zone_raw = "";
    }

-- ===== src/Tests/Sync.antt =====
-- Back-off after failures, and a calendar round against a server that never runs out of pages.
use eas_bridge.Store.{DiskState}
use eas_bridge.Prelude.{
  if◌then◌else◌, ◌||◌, ◌-◌, some, none, Option, ℕ, ◌+◌, ◌*◌, ◌≡◌, refl, true, [], ◌∷◌, arith,
}
use eas_bridge.Dict.{empty}
use eas_bridge.Persist.Disk.{Host, absent}
use eas_bridge.Mail.Collect.{SyncError, network}
use eas_bridge.Sync.Backoff.{
  skip_backoff, TransientBackoff, minute, backoff_step, backoff_remaining, track_all, failing,
  length_of, last_of, backoff_remaining-track_all,
}
use eas_bridge.Sync.Calendar.{CalendarReply, page, round_ended, sync_calendar_once}
use eas_bridge.Sync.Rounds.{sync_calendar_once_terminates}
use eas_bridge.Sync.Reads.{
  round_failed, mail_key, sync_mail, sync_mail_for_read, has_usable_mail_cache, read_mail,
  read_mail_open, mail_key, backing_off, Breakers,
}
use eas_bridge.Dict.{get, put}

backoff_remaining-track_all_example :
    backoff_remaining 130 "calendar"
      (track_all "calendar" ((100, none) ∷ failing (110 ∷ 120 ∷ [])) empty)
    ≡ (last_of 110 (120 ∷ []) + backoff_step (length_of (110 ∷ 120 ∷ []))) - 130
backoff_remaining-track_all_example =
    backoff_remaining-track_all "calendar" 100 110 (120 ∷ []) empty 130

-- The second failure in a row waits five minutes.
second_step : backoff_step 2 ≡ 5 * minute
unfolding backoff_step
second_step = refl

abbrev open_breaker : TransientBackoff
open_breaker = record {
  failures = 2;
  next_retry = 1000;
  last_skip_log = 0;
  last_err = some network;
}

abbrev pub calendar_host : Host
calendar_host = record {
  state = record {
    device_id = "";
    policy_key_val = "";
    sync_keys = record { entries = [] };
    folders = record { server_id = "7"; parent_id = "0"; display_name = "Calendar"; kind = 8 } ∷ [];
    items = record { entries = [] };
    uids = record { entries = [] };
    folder_meta = record { entries = [] };
    events = record { entries = [] };
    event_aliases = record { entries = [] };
    deleted = record { entries = [] };
  };
  disk = record {
    main = absent;
    shards = record { entries = [] };
    snapshot = absent;
    event_log = absent;
  };
  fates = [];
}

abbrev endless : ℕ → CalendarReply × ℕ
endless n = (page (record { added = []; changed = []; deleted = []; more_available = true }), n)

sync_calendar_once_terminates_example :
    round_ended (sync_calendar_once {W = ℕ} endless 202 calendar_host 0) ≡ true
sync_calendar_once_terminates_example =
    sync_calendar_once_terminates {W = ℕ} endless 202 calendar_host 0 (omega arith)

abbrev mail_state : DiskState
mail_state = record (calendar_host.state) { sync_keys = record { entries = ("inbox", "12") ∷ [] } }

goes_on : (sync_mail_for_read 900 "inbox" (some (round_failed network)) mail_state empty).0 ≡ none
unfolding sync_mail_for_read get put empty
goes_on = refl

abbrev asking : ℕ → Option SyncError × ℕ
asking n = (none, n + 1)

abbrev waiting : Breakers
waiting = record { backoff = record { entries = [] }; transient = open_breaker }

read_mail_open_example :
    read_mail {W = ℕ} asking 900 (some 901) 902 "inbox" waiting mail_state empty 0 ≡ (
      if (skip_backoff 900 (mail_key "inbox") waiting.backoff).0
            || has_usable_mail_cache "inbox" mail_state
          then none
          else some (backing_off (waiting.transient.next_retry - 900)),
      0,
    )
read_mail_open_example =
    read_mail_open {W = ℕ} asking 900 902 (some 901) "inbox" waiting mail_state empty 0 refl

-- A channel that waits after Status 5 reports no error, whatever the folder holds.
silent_wait :
    (sync_mail {W = ℕ} asking 900
      (some 901)
      902
      "new"
      (record {
        backoff = record {
          entries =
              ("mail:new", record { failures = 1; next_retry = 1000; last_skip_log = 0 }) ∷ [];
        };
        transient = open_breaker;
      })
      0).0
    ≡ none
unfolding sync_mail get put mail_key
silent_wait = refl

-- ===== src/Caldav/Writes.antt =====
-- The writes of CalDAV (caldav_write.go): PutCalendarObject and DeleteCalendarObject. The conversion of
-- the VEVENT is a parameter, as are the client and the name of the local time zone; an object is
-- known by the server ID of its path, and the answer is the stored event.
use eas_bridge.Prelude.{
  String, Bool, not, ◌&&◌, Option, none, some, is_empty, if◌then◌else◌, ◌⊎◌, inl, inr,
}
use eas_bridge.Dict.{get, has}
use eas_bridge.Eas.{EventItem, no_event}
use eas_bridge.Eas.Uploads.{EventDraft}
use eas_bridge.Mail.Collect.{SyncError, is_status_5}
use eas_bridge.Sync.Calendar.{calendar_folder_id}
use eas_bridge.Search.Criteria.{has_substring}
use eas_bridge.Persist.Disk.{Host}
use eas_bridge.Persist.Operations.{upsert_event, delete_event}
use eas_bridge.Caldav.Exceptions.{merge_exceptions}

pub data WriteError : Type 0 where
  no_calendar : WriteError
  not_found : WriteError
  precondition_failed : WriteError
  bad_request : WriteError
  forbidden : WriteError
  server_failed : WriteError
  no_server_id : WriteError
  not_stored : WriteError

-- calWriteErr
unfoldable pub cal_write_err : SyncError → WriteError
unfolding is_status_5
cal_write_err e = if is_status_5 e then forbidden else server_failed

-- draftToEventItem
unfoldable pub draft_to_event_item : String → String → EventDraft → EventItem
draft_to_event_item server_id uid d = record no_event {
  server_id = server_id;
  uid = uid;
  subject = d.subject;
  location = d.location;
  body = d.body;
  start_time = d.start_time;
  end_time = d.end_time;
  all_day_event = d.all_day_event;
  busy_status = d.busy_status;
  sensitivity = d.sensitivity;
  reminder = d.reminder;
  attendees = d.attendees;
  recurrence = d.recurrence;
  exceptions = d.exceptions;
  time_zone_raw = d.time_zone_raw;
}

-- The stored event of an update: the fields that only the server has come from the old one.
unfoldable pub updated_event : String → String → EventDraft → EventItem → EventItem
unfolding draft_to_event_item merge_exceptions
updated_event server_id uid d existing = record (draft_to_event_item server_id uid d) {
  organizer_name = existing.organizer_name;
  organizer_email = existing.organizer_email;
  meeting_status = existing.meeting_status;
  time_zone_raw = existing.time_zone_raw;
  exceptions = merge_exceptions existing.exceptions d.exceptions;
}

-- upsertEvent at the end of a write
unfoldable pub stored_event : EventItem → Host → (WriteError ⊎ EventItem) × Host
unfolding upsert_event
stored_event ev h =
    let r = upsert_event ev h in
    elim (r.0) [ some e ↦ (inl not_stored, r.1) | none ↦ (inr ev, r.1) ]

-- A write to an ID of the server that is not in the state, unless the client says that it creates.
unfoldable pub is_refused : String → Bool → Host → Bool
unfolding has_substring
is_refused server_id create_only h =
    not (has h.state.events server_id) && not create_only && has_substring server_id ":"

-- The client moves the sync key of the calendar folder, which the host keeps: it takes the host and gives it back.
module _ {W : Type 0}
    (update_event : String → String → EventDraft → Host → W → Option SyncError × Host × W)
    (create_event : String → EventDraft → Host → W → (SyncError ⊎ String) × Host × W)
    (delete_remote : String → String → Host → W → Option SyncError × Host × W)
    (user zone : String) where
  unfoldable pub put_update :
      String
      → String
      → String
      → EventDraft
      → EventItem
      → Host
      → W
      → ((WriteError ⊎ EventItem) × Host) × W
  unfolding cal_write_err updated_event stored_event
  put_update folder server_id uid d existing h w =
      let raw = if is_empty existing.time_zone_raw then zone else existing.time_zone_raw in
      let draft = record d { uid = uid; time_zone_raw = raw } in
      let r = update_event folder server_id draft h w in
      elim (r.0) [
        | some e ↦ ((inl (cal_write_err e), r.1), r.2)
        | none ↦ (stored_event (updated_event server_id uid draft existing) (r.1), r.2)
      ]

  unfoldable pub put_create :
      String → String → EventDraft → Host → W → ((WriteError ⊎ EventItem) × Host) × W
  unfolding cal_write_err draft_to_event_item stored_event
  put_create folder uid d h w =
      let draft = record d { uid = uid; time_zone_raw = zone } in
      let r = create_event folder draft h w in
      elim (r.0) [
        | inl e ↦ ((inl (cal_write_err e), r.1), r.2)
        | inr id ↦ if is_empty id then ((inl no_server_id, r.1), r.2) else (
          stored_event (record (draft_to_event_item id uid draft) { organizer_email = user }) (r.1),
          r.2,
        )
      ]

  -- PutCalendarObject, from the folder on; `create_only` is If-None-Match: *, and `converted` the answer of
  -- icalEventToDraft.
  unfoldable pub put_calendar_object :
      String
      → Bool
      → Option (EventDraft × String)
      → Host
      → W
      → ((WriteError ⊎ EventItem) × Host) × W
  unfolding put_update put_create calendar_folder_id is_refused
  put_calendar_object server_id create_only converted h w =
      let folder = calendar_folder_id h.state.folders in
      let existing = get h.state.events server_id in
      if is_empty folder
      then ((inl no_calendar, h), w)
      else if is_refused server_id create_only h
      then ((inl precondition_failed, h), w)
      else elim converted [
        | none ↦ ((inl bad_request, h), w)
        | some (d, uid) ↦ elim existing [
          | some ev ↦ put_update folder server_id uid d ev h w
          | none ↦ put_create folder uid d h w
        ]
      ]

  -- DeleteCalendarObject; `found` is the server ID of the path, where it is an object's.
  unfoldable pub delete_calendar_object : Option String → Host → W → (Option WriteError × Host) × W
  unfolding calendar_folder_id cal_write_err delete_event
  delete_calendar_object none h w = ((some not_found, h), w)
  delete_calendar_object (some server_id) h w =
      let folder = calendar_folder_id h.state.folders in
      if is_empty folder
      then ((some no_calendar, h), w)
      else let r = delete_remote folder server_id h w in
        elim (r.0) [
          | some e ↦ ((some (cal_write_err e), r.1), r.2)
          | none ↦
              let s = delete_event server_id (r.1) in
              ((elim (s.0) [ none ↦ none | some e ↦ some not_stored ], s.1), r.2)
        ]

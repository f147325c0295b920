-- ===== src/Caldav/Stored.antt =====
-- What a PUT leaves in the state.
use eas_bridge.Prelude.{
  String, ◌≡◌, refl, ap, ◌∙◌, Bool, Option, some, ◌⊎◌, inl, inr, is_empty, str_eq, if◌then◌else◌,
  Bool-cases, Option-cases, Sum-cases,
}
use eas_bridge.Dict.{get, get-put}
use eas_bridge.Eas.{EventItem}
use eas_bridge.Eas.Uploads.{EventDraft}
use eas_bridge.Mail.Collect.{SyncError}
use eas_bridge.Sync.Calendar.{calendar_folder_id}
use eas_bridge.Persist.Disk.{Host}
use eas_bridge.Persist.Operations.{upsert_event}
use eas_bridge.Persist.Memory.{state-save_calendar}
use eas_bridge.Caldav.Writes.{
  WriteError, not_stored, cal_write_err, draft_to_event_item, updated_event, stored_event,
  put_update, is_refused, put_create, put_calendar_object,
}

get-upsert_event :
    (ev : EventItem) (j : String) (h : Host)
    → get ((upsert_event ev h).1).state.events j
      ≡ (if str_eq ev.server_id j then some ev else get h.state.events j)
unfolding upsert_event
get-upsert_event ev j h =
    ap (λ s. get s.events j) (state-save_calendar _ _) ∙ get-put h.state.events ev.server_id j ev

-- The events and the aliases are the same.
abbrev pub SameCalendar : Host → Host → Type 0
SameCalendar h h' =
    (h'.state.events ≡ h.state.events) × (h'.state.event_aliases ≡ h.state.event_aliases)

-- The event is stored under its ID, and what is found under any other ID `j` is as it was; or the calendar is
-- as it was; or a file could not be written.
abbrev pub Settled : String → Host → (WriteError ⊎ EventItem) × Host → Type 0
Settled j h r = elim (r.0) [
  | inr ev ↦
      get (r.1).state.events j ≡ (if str_eq ev.server_id j then some ev else get h.state.events j)
  | inl e ↦ (e ≡ not_stored) ⊎ SameCalendar h (r.1)
]

stored_event-Settled :
    (j : String) (ev : EventItem) (h h₁ : Host)
    → SameCalendar h h₁
    → Settled j h (stored_event ev h₁)
unfolding stored_event
stored_event-Settled j ev h h₁ same = elim (Option-cases (upsert_event ev h₁).0) [
  | inl p ↦
      rw (p, stored_event)
        (get-upsert_event ev j h₁
          ∙ ap (λ d. if str_eq ev.server_id j then some ev else get d j) (same.0))
  | inr (e, p) ↦ rw (p, stored_event) (inl refl)
]

cal_write_err-Settled :
    (j : String) (e : SyncError) (h h₁ : Host)
    → SameCalendar h h₁
    → Settled j h (inl (cal_write_err e), h₁)
cal_write_err-Settled j e h h₁ same = inr same

module _ {W : Type 0}
    (update_event : String → String → EventDraft → Host → W → Option SyncError × Host × W)
    (create_event : String → EventDraft → Host → W → (SyncError ⊎ String) × Host × W)
    (delete_remote : String → String → Host → W → Option SyncError × Host × W) (user zone : String)
    (update_keeps : (folder id : String) (d : EventDraft) (h : Host) (w : W)
      → SameCalendar h (update_event folder id d h w).1)
    (create_keeps : (folder : String) (d : EventDraft) (h : Host) (w : W)
      → SameCalendar h (create_event folder d h w).1)
    (j : String) where
  put_update-Settled :
      (folder server_id uid : String) (d : EventDraft) (existing : EventItem) (h : Host) (w : W)
      → Settled j h
          (put_update update_event create_event delete_remote user zone folder server_id uid d
            existing h w).0
  unfolding put_update
  put_update-Settled folder server_id uid d existing h w =
      let raw = if is_empty existing.time_zone_raw then zone else existing.time_zone_raw in
      let draft : EventDraft = record d { uid = uid; time_zone_raw = raw } in
      let h₁ = (update_event folder server_id draft h w).1 in
      let same = update_keeps folder server_id draft h w in
      elim (Option-cases ((update_event folder server_id draft h w).0)) [
        | inl p ↦
            rw (p, put_update)
              (stored_event-Settled j (updated_event server_id uid draft existing) h h₁ same)
        | inr (e, p) ↦ rw (p, put_update) (cal_write_err-Settled j e h h₁ same)
      ]

  put_create-Settled :
      (folder uid : String) (d : EventDraft) (h : Host) (w : W)
      → Settled j h
          (put_create update_event create_event delete_remote user zone folder uid d h w).0
  unfolding put_create
  put_create-Settled folder uid d h w =
      let draft : EventDraft = record d { uid = uid; time_zone_raw = zone } in
      let h₁ = (create_event folder draft h w).1 in
      let same = create_keeps folder draft h w in
      elim (Sum-cases ((create_event folder draft h w).0)) [
        | inl (e, p) ↦ rw (p, put_create) (cal_write_err-Settled j e h h₁ same)
        | inr (id, p) ↦ elim (Bool-cases (is_empty id)) [
          | inl q ↦ rw (p, q, put_create) (inr same)
          | inr q ↦
              rw (p, q, put_create)
                (stored_event-Settled j
                  (record (draft_to_event_item id uid draft) { organizer_email = user }) h h₁ same)
        ]
      ]

  -- With a client that leaves the events and their aliases alone (it moves sync keys): a PUT that answers with
  -- an event has it in the state, and the other events as they were; where it fails, the events and the
  -- aliases are as they were, or else a file of the state could not be written.
  pub put_calendar_object-Settled :
      (server_id : String) (create_only : Bool) (converted : Option (EventDraft × String))
      (h : Host) (w : W)
      → Settled j h
          (put_calendar_object update_event create_event delete_remote user zone server_id
            create_only converted h w).0
  unfolding put_calendar_object
  put_calendar_object-Settled server_id create_only converted h w =
      let folder = calendar_folder_id h.state.folders in
      elim (Bool-cases (is_empty folder)) [
        | inl p ↦ rw (p, put_calendar_object) (inr (refl, refl))
        | inr p ↦ elim (Bool-cases (is_refused server_id create_only h)) [
          | inl q ↦ rw (p, q, put_calendar_object) (inr (refl, refl))
          | inr q ↦ elim (Option-cases converted) [
            | inl c ↦ rw (p, q, c, put_calendar_object) (inr (refl, refl))
            | inr ((d, uid), c) ↦ elim (Option-cases (get h.state.events server_id)) [
              | inl g ↦ rw (p, q, c, g, put_calendar_object) (put_create-Settled folder uid d h w)
              | inr (ev, g) ↦
                  rw (p, q, c, g, put_calendar_object)
                    (put_update-Settled folder server_id uid d ev h w)
            ]
          ]
        ]
      ]

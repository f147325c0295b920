-- ===== src/Sync/Reads.antt =====
-- The mail synchronisation as the readers call it (sync.go, folders.go): the guards of syncMail, the
-- choice of stale mail for a read, and which folders hold mail. One synchronisation, `once`, is a
-- parameter, and so is the wait for one of the four slots.
use Prim.Native.String.{◌++◌}
use eas_bridge.Prelude.{
  ℕ, ◌-◌, ◌*◌, String, ◌≡◌, refl, Bool, true, false, not, ◌&&◌, ◌||◌, Option, none, some, List, [],
  ◌∷◌, arith, is_empty, is_nil, str_eq, if◌then◌else◌, leb, ◌==◌, Bool-cases, inl, inr,
}
use eas_bridge.Dict.{Dict, put, get_or}
use eas_bridge.Eas.{
  Folder, folder_type_inbox, folder_type_drafts, folder_type_deleted_items, folder_type_sent_items,
  folder_type_outbox, folder_type_user_mail,
}
use eas_bridge.Store.{DiskState}
use eas_bridge.Mail.Collect.{SyncError, is_status_5}
use eas_bridge.Sync.Backoff.{
  FolderBackoff, TransientBackoff, skip_backoff, track_sync_result, track_transient,
  transient_backoff, is_transient, minute,
}

unfoldable pub is_mail_folder_type : ℕ → Bool
is_mail_folder_type t =
    t == folder_type_inbox
    || t == folder_type_drafts
    || t == folder_type_deleted_items
    || t == folder_type_sent_items
    || t == folder_type_user_mail

-- systemIMAPFolderName; "" for a folder that has no such name
unfoldable pub system_imap_folder_name : ℕ → String
system_imap_folder_name t =
    if t == folder_type_inbox
    then "INBOX"
    else if t == folder_type_sent_items
    then "Sent"
    else if t == folder_type_drafts
    then "Drafts"
    else if t == folder_type_deleted_items
    then "Trash"
    else if t == folder_type_outbox
    then "Outbox"
    else ""

-- mailFolderIDs
unfoldable pub mail_folder_ids : List Folder → List String
unfolding is_mail_folder_type
mail_folder_ids [] = []
mail_folder_ids (f ∷ fs) =
    let rest = mail_folder_ids fs in if is_mail_folder_type f.kind then f.server_id ∷ rest else rest

-- trashFolderID
unfoldable pub trash_folder_id : List Folder → Option String
trash_folder_id [] = none
trash_folder_id (f ∷ fs) =
    if f.kind == folder_type_deleted_items then some f.server_id else trash_folder_id fs

-- What syncMail returns: the error of the round, the time a back-off has left, or a wait that was given up.
pub data MailError : Type 0 where
  round_failed : SyncError → MailError
  backing_off : ℕ → MailError
  slot_given_up : MailError

pub record Breakers : Type 0 where
  pub backoff : Dict FolderBackoff
  pub transient : TransientBackoff

-- `"mail:" + folderID`
unfoldable pub mail_key : String → String
mail_key folder_id = "mail:" ++ folder_id

module _ {W : Type 0} (once : W → Option SyncError × W) where
  unfoldable pub run_tracked : ℕ → String → Breakers → W → Option MailError × Breakers × W
  unfolding track_sync_result track_transient
  run_tracked now key b w =
      let r = once w in
      let b' : Breakers = record {
        backoff = track_sync_result now key (r.0) b.backoff;
        transient = track_transient now (r.0) b.transient;
      } in
      (elim (r.0) [ none ↦ none | some e ↦ some (round_failed e) ], b', r.1)

  -- syncMail, called at `now`; the slot is there at `later`, if at all, and the round ends at `done`.
  unfoldable pub sync_mail :
      ℕ → Option ℕ → ℕ → String → Breakers → W → Option MailError × Breakers × W
  unfolding skip_backoff transient_backoff run_tracked
  sync_mail now later done folder_id b w =
      let key = mail_key folder_id in
      let s = skip_backoff now key b.backoff in
      let b₁ : Breakers = record b { backoff = s.1 } in
      if s.0
      then (none, b₁, w)
      else let t = transient_backoff now b₁.transient in
        let b₂ : Breakers = record b₁ { transient = t.1 } in
        elim (t.0) [
          | some left ↦ (some (backing_off left), b₂, w)
          | none ↦ elim later [
            | none ↦ (some slot_given_up, b₂, w)
            | some at ↦
                let u = transient_backoff at b₂.transient in
                let b₃ : Breakers = record b₂ { transient = u.1 } in
                elim (u.0) [
                  | some left ↦ (some (backing_off left), b₃, w)
                  | none ↦ run_tracked done key b₃ w
                ]
          ]
        ]

-- hasUsableMailCache
unfoldable pub has_usable_mail_cache : String → DiskState → Bool
has_usable_mail_cache f s =
    not (is_nil (get_or [] s.items f))
    || (not (is_empty (get_or "" s.sync_keys f)) && not (str_eq (get_or "" s.sync_keys f) "0"))

-- canServeStaleMail
unfoldable pub can_serve_stale_mail : MailError → Bool
unfolding is_transient is_status_5
can_serve_stale_mail (backing_off left) = true
can_serve_stale_mail (round_failed e) = is_transient e || is_status_5 e
can_serve_stale_mail slot_given_up = false

-- syncMailForRead, after syncMail: what the reader gets, and the times of the log lines per folder.
unfoldable pub sync_mail_for_read :
    ℕ → String → Option MailError → DiskState → Dict ℕ → Option MailError × Dict ℕ
unfolding has_usable_mail_cache can_serve_stale_mail
sync_mail_for_read now f none s logged = (none, logged)
sync_mail_for_read now f (some e) s logged =
    if not (can_serve_stale_mail e) || not (has_usable_mail_cache f s)
    then (some e, logged)
    else (none, if leb (10 * minute) (now - get_or 0 logged f) then put logged f now else logged)

time_left :
    (now : ℕ) (t : TransientBackoff)
    → leb t.next_retry now ≡ false
    → (transient_backoff now t).0 ≡ some (t.next_retry - now)
unfolding transient_backoff
time_left now t h = ground (arith, h)

-- syncMail, and then the choice of syncMailForRead.
abbrev pub read_mail :
    {W : Type 0}
    → (W → Option SyncError × W)
    → ℕ
    → Option ℕ
    → ℕ
    → String
    → Breakers
    → DiskState
    → Dict ℕ
    → W
    → Option MailError × W
read_mail once now later done f b s logged w =
    let r = sync_mail once now later done f b w in
    ((sync_mail_for_read done f (r.0) s logged).0, r.2)

-- While the breaker is open, a read does not ask the server. It goes on where the folder backs off on its own
-- or has mail or a sync key; otherwise its error is the time that the breaker has left.
pub read_mail_open :
    {W : Type 0} (once : W → Option SyncError × W) (now done : ℕ) (later : Option ℕ) (f : String)
    (b : Breakers) (s : DiskState) (logged : Dict ℕ) (w : W)
    → leb b.transient.next_retry now ≡ false
    → read_mail once now later done f b s logged w ≡ (
      if (skip_backoff now (mail_key f) b.backoff).0 || has_usable_mail_cache f s
          then none
          else some (backing_off (b.transient.next_retry - now)),
      w,
    )
unfolding sync_mail sync_mail_for_read
read_mail_open once now done later f b s logged w h =
    elim (Bool-cases (skip_backoff now (mail_key f) b.backoff).0) [
      | inl e ↦ rw (e, sync_mail) refl
      | inr e ↦ elim (Bool-cases (has_usable_mail_cache f s)) [
        | inl c ↦ rw (e, time_left now b.transient h, c, sync_mail) refl
        | inr c ↦ rw (e, time_left now b.transient h, c, sync_mail) refl
      ]
    ]

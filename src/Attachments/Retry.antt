-- ===== src/Attachments/Retry.antt =====
-- The back-off of an attachment that the server answers without data (mime_engine.go), by its key. Times
-- are nanoseconds. Whether an error says that the data is missing is asked of the client's library.
use eas_bridge.Prelude.{
  ℕ, ◌+◌, ◌-◌, ◌*◌, String, Bool, true, false, not, Option, none, some, List, [], ◌∷◌, str_eq, leb,
  ◌==◌, if◌then◌else◌,
}
use eas_bridge.Dict.{Dict, get, put, remove, get_or}
use eas_bridge.Eas.{Attachment, EmailItem}
use eas_bridge.Mail.Merge.{merge_attachment_metadata}

pub record AttachmentBackoff (E : Type 0) : Type 0 where
  pub failures : ℕ
  pub next_retry : ℕ
  pub cause : Option E
  pub refreshed : Bool

abbrev pub never_failed : {E : Type 0} → AttachmentBackoff E
never_failed = record { failures = 0; next_retry = 0; cause = none; refreshed = false }

-- attachmentBackoffSteps, at the index `min(failures, 6) - 1`, in minutes
unfoldable pub attachment_step : ℕ → ℕ
attachment_step failures =
    if leb failures 1
    then 1
    else if failures == 2
    then 5
    else if failures == 3
    then 15
    else if failures == 4
    then 60
    else if failures == 5
    then 360
    else 1440

module _ {E : Type 0} where
  -- markAttachmentMetadataRefreshed
  unfoldable pub mark_attachment_metadata_refreshed :
      String → Dict (AttachmentBackoff E) → Bool × Dict (AttachmentBackoff E)
  mark_attachment_metadata_refreshed key b =
      let state = get_or never_failed b key in
      if state.refreshed then (false, b) else (true, put b key (record state { refreshed = true }))

  -- trackAttachmentFailure
  unfoldable pub track_attachment_failure :
      (E → Bool) → ℕ → String → E → Dict (AttachmentBackoff E) → Dict (AttachmentBackoff E)
  unfolding attachment_step
  track_attachment_failure is_no_data now key err b =
      let failures = (get_or never_failed b key).failures + 1 in
      if not (is_no_data err)
      then b
      else put b key (record {
        failures = failures;
        next_retry = now + attachment_step failures * 60000000000;
        cause = some err;
        refreshed = false;
      })

  -- attachmentBackoffError: the time that remains, and the cause
  unfoldable pub attachment_backoff_error :
      ℕ → String → Dict (AttachmentBackoff E) → Option (ℕ × Option E)
  attachment_backoff_error now key b = elim (get b key) [
    | none ↦ none
    | some state ↦
        if leb state.next_retry now then none else some (state.next_retry - now, state.cause)
  ]

  -- clearAttachmentBackoff
  unfoldable pub clear_attachment_backoff :
      String → Dict (AttachmentBackoff E) → Dict (AttachmentBackoff E)
  clear_attachment_backoff key b = remove b key

-- updateCachedAttachmentMetadata on the attachments of a message: the new list, and whether one was found
unfoldable pub update_attachments :
    Attachment → Attachment → List Attachment → Bool × List Attachment
unfolding merge_attachment_metadata
update_attachments previous refreshed [] = (false, [])
update_attachments previous refreshed (a ∷ rest) =
    let later = update_attachments previous refreshed rest in
    if str_eq a.file_reference previous.file_reference
    then (true, merge_attachment_metadata a refreshed ∷ rest)
    else (later.0, a ∷ later.1)

-- updateCachedAttachmentMetadata
unfoldable pub update_cached_attachment_metadata :
    String → Attachment → Attachment → List EmailItem → List EmailItem
unfolding update_attachments
update_cached_attachment_metadata server_id previous refreshed [] = []
update_cached_attachment_metadata server_id previous refreshed (it ∷ its) =
    let rest = update_cached_attachment_metadata server_id previous refreshed its in
    let r = update_attachments previous refreshed it.attachments in
    if not (str_eq it.server_id server_id)
    then it ∷ rest
    else if r.0
    then record it { attachments = r.1 } ∷ its
    else it ∷ rest

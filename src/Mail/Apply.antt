-- ===== src/Mail/Apply.antt =====
-- The second half of syncMailOnce (sync.go): what was collected is merged into the folder under
-- `mutateFolder`, with its UIDs, and the cached messages that changed are named for invalidation.
use eas_bridge.Prelude.{
  ℕ, String, Bool, true, false, ◌&&◌, Option, none, some, List, [], ◌∷◌, ◌++◌, is_nil, str_eq,
  contains, if◌then◌else◌, ◌==◌, bool_eq,
}
use eas_bridge.Dict.{Dict, empty, put, get_or, has}
use eas_bridge.Eas.{Attachment, EmailItem, no_email}
use eas_bridge.Store.{DiskState}
use eas_bridge.Store.Uids.{assign_uids}
use eas_bridge.Persist.Disk.{Host, mutate_folder, save_main}
use eas_bridge.Mail.Merge.{merge_email_change}
use eas_bridge.Mail.Collect.{SyncError, Changes}

-- emailMIMEContentEqual
same_attachment : Attachment → Attachment → Bool
same_attachment a b =
    str_eq a.display_name b.display_name
    && str_eq a.file_reference b.file_reference
    && a.method == b.method
    && a.estimated_data_size == b.estimated_data_size
    && str_eq a.content_id b.content_id
    && str_eq a.content_location b.content_location
    && bool_eq a.is_inline b.is_inline
    && str_eq a.content_type b.content_type

same_attachments : List Attachment → List Attachment → Bool
unfolding same_attachment
same_attachments [] [] = true
same_attachments [] (b ∷ bs) = false
same_attachments (a ∷ as_) [] = false
same_attachments (a ∷ as_) (b ∷ bs) = same_attachment a b && same_attachments as_ bs

unfoldable pub email_mime_content_equal : EmailItem → EmailItem → Bool
unfolding same_attachments
email_mime_content_equal a b =
    str_eq a.server_id b.server_id
    && str_eq a.subject b.subject
    && str_eq a.from b.from
    && str_eq a.to b.to
    && str_eq a.cc b.cc
    && str_eq a.reply_to b.reply_to
    && a.date_received == b.date_received
    && a.body_type == b.body_type
    && str_eq a.body b.body
    && bool_eq a.body_truncated b.body_truncated
    && bool_eq a.has_attachments b.has_attachments
    && same_attachments a.attachments b.attachments

-- `existing`, `order` and `invalidated`
pub record Merge : Type 0 where
  pub existing : Dict EmailItem
  pub order : List String
  pub invalidated : List String

unfoldable pub place : EmailItem → List String → Merge → Merge
place it invalidated m = record {
  existing = put m.existing it.server_id it;
  order = if has m.existing it.server_id then m.order else m.order ++ it.server_id ∷ [];
  invalidated = m.invalidated ++ invalidated;
}

unfoldable pub load_items : List EmailItem → Merge → Merge
load_items [] m = m
load_items (it ∷ its) m =
    load_items its
      (record m { existing = put m.existing it.server_id it; order = m.order ++ it.server_id ∷ [] })

unfoldable pub add_items : List EmailItem → Merge → Merge
unfolding place
add_items [] m = m
add_items (it ∷ its) m = add_items its (place it (it.server_id ∷ []) m)

-- `existing[it.ServerID] = after`: the key is the ID of the change.
unfoldable pub place_change : EmailItem → EmailItem → Merge → Merge
unfolding email_mime_content_equal
place_change before it m =
    let after = merge_email_change before it in
    record {
      existing = put m.existing it.server_id after;
      order = if has m.existing it.server_id then m.order else m.order ++ it.server_id ∷ [];
      invalidated =
          if email_mime_content_equal before after
          then m.invalidated
          else m.invalidated ++ it.server_id ∷ [];
    }

unfoldable pub change_items : List EmailItem → Merge → Merge
unfolding place_change
change_items [] m = m
change_items (it ∷ its) m =
    change_items its (place_change (get_or no_email m.existing it.server_id) it m)

unfoldable pub pick_items : List String → Dict EmailItem → List String → List EmailItem
pick_items deleted existing [] = []
pick_items deleted existing (id ∷ ids) =
    let rest = pick_items deleted existing ids in
    if contains id deleted then rest else get_or no_email existing id ∷ rest

unfoldable pub merge_of : List EmailItem → Changes → Merge
unfolding load_items add_items change_items
merge_of items c =
    let m = change_items c.changed (
      add_items c.added
        (load_items items (record { existing = empty; order = []; invalidated = [] }))) in
    record m { invalidated = m.invalidated ++ c.deleted }

unfoldable pub merged_items : List EmailItem → Changes → List EmailItem
unfolding pick_items merge_of
merged_items items c = let m = merge_of items c in pick_items c.deleted m.existing m.order

-- The closure that runs under `mutateFolder`.
unfoldable pub apply_changes : ℕ → String → Changes → DiskState → DiskState
unfolding merged_items
apply_changes now f c s =
    let r = assign_uids now f (merged_items (get_or [] s.items f) c) s in
    record (r.1) { items = put (r.1).items f (r.0) }

unfoldable pub is_empty_change : Changes → Bool
is_empty_change c = is_nil c.added && is_nil c.changed && is_nil c.deleted

-- What syncMailOnce returns: the error of a write, the error of the server, or nil.
pub data MailResult : Type 0 where
  finished : Option SyncError → MailResult
  write_failed : String → MailResult

-- After the loop, on the state that the client left. `key_before` is the sync key read at the start; a
-- failure to save a new key alone is only logged. With the result come the messages to invalidate.
unfoldable pub store_changes :
    ℕ → String → String → Option SyncError → Changes → Host → MailResult × List String × Host
unfolding merge_of apply_changes is_empty_change
store_changes now f key_before err c h =
    if is_empty_change c
    then (
      finished err,
      [],
      if str_eq (get_or "" h.state.sync_keys f) key_before then h else (save_main h).1,
    )
    else let r = mutate_folder f (apply_changes now f c) h in
      elim (r.0) [
        | some e ↦ (write_failed e, [], r.1)
        | none ↦ (finished err, (merge_of (get_or [] h.state.items f) c).invalidated, r.1)
      ]

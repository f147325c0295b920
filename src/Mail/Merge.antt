-- ===== src/Mail/Merge.antt =====
-- The merge of what the server sends into a cached mail (mime.go, sync.go): a field that is not set
-- leaves the cached one.
use eas_bridge.Prelude.{
  ℕ, String, ◌≡◌, refl, Bool, true, false, not, ◌||◌, Option, none, some, List, [], ◌∷◌, ◌++◌,
  arith, is_empty, is_nil, if◌then◌else◌, ltb, ◌==◌, length, zero, suc,
}
use eas_bridge.Dict.{Dict, empty, get, put}
use eas_bridge.Eas.{Attachment, EmailItem, body_type_none, no_email}

-- `if fetched.X != "" { out.X = fetched.X }`, and its forms for numbers and lists
abbrev pub text_or : String → String → String
text_or fetched base = if is_empty fetched then base else fetched

abbrev pub number_or : ℕ → ℕ → ℕ
number_or fetched base = if fetched == 0 then base else fetched

abbrev pub list_or {ℓ} : {A : Type ℓ} → List A → List A → List A
list_or [] base = base
list_or (x ∷ xs) base = x ∷ xs

unfoldable pub merge_attachment_metadata : Attachment → Attachment → Attachment
merge_attachment_metadata base fetched = record {
  display_name = text_or fetched.display_name base.display_name;
  file_reference = text_or fetched.file_reference base.file_reference;
  method = number_or fetched.method base.method;
  estimated_data_size =
      if ltb 0 fetched.estimated_data_size
      then fetched.estimated_data_size
      else base.estimated_data_size;
  content_id = text_or fetched.content_id base.content_id;
  content_location = text_or fetched.content_location base.content_location;
  is_inline = base.is_inline || fetched.is_inline;
  content_type = text_or fetched.content_type base.content_type;
}

unfoldable pub index_references : ℕ → List Attachment → Dict ℕ → Dict ℕ
index_references i [] m = m
index_references i (a ∷ as_) m =
    index_references (suc i) as_ (if is_empty a.file_reference then m else put m a.file_reference i)

-- out[i] = mergeAttachmentMetadata(out[i], attachment)
unfoldable pub merge_at : ℕ → Attachment → List Attachment → List Attachment
unfolding merge_attachment_metadata
merge_at i fetched [] = []
merge_at zero fetched (a ∷ as_) = merge_attachment_metadata a fetched ∷ as_
merge_at (suc i) fetched (a ∷ as_) = a ∷ merge_at i fetched as_

unfoldable pub merge_each : List Attachment → Dict ℕ → List Attachment → List Attachment
unfolding merge_at
merge_each [] by_reference out = out
merge_each (a ∷ as_) by_reference out =
    if is_empty a.file_reference
    then merge_each as_ by_reference (out ++ a ∷ [])
    else elim (get by_reference a.file_reference) [
      | some i ↦ merge_each as_ by_reference (merge_at i a out)
      | none ↦ merge_each as_ (put by_reference a.file_reference (length out)) (out ++ a ∷ [])
    ]

unfoldable pub merge_attachments : List Attachment → List Attachment → List Attachment
unfolding index_references merge_each
merge_attachments base fetched = merge_each fetched (index_references 0 base empty) base

unfoldable pub merge_email_metadata : EmailItem → EmailItem → EmailItem
unfolding merge_attachments
merge_email_metadata base fetched =
    let attachments =
      if is_nil fetched.attachments
      then base.attachments
      else merge_attachments base.attachments fetched.attachments in
    record base {
      server_id = text_or fetched.server_id base.server_id;
      subject = text_or fetched.subject base.subject;
      from = text_or fetched.from base.from;
      to = text_or fetched.to base.to;
      display_to = text_or fetched.display_to base.display_to;
      cc = text_or fetched.cc base.cc;
      bcc = text_or fetched.bcc base.bcc;
      reply_to = text_or fetched.reply_to base.reply_to;
      sender = text_or fetched.sender base.sender;
      date_received = number_or fetched.date_received base.date_received;
      body_estimated_size = number_or fetched.body_estimated_size base.body_estimated_size;
      attachments = attachments;
      has_attachments = base.has_attachments || fetched.has_attachments || not (is_nil attachments);
      thread_topic = text_or fetched.thread_topic base.thread_topic;
      conversation_id = list_or fetched.conversation_id base.conversation_id;
      message_class = text_or fetched.message_class base.message_class;
      body_preview = text_or fetched.body_preview base.body_preview;
      categories = list_or fetched.categories base.categories;
    }

unfoldable pub merge_email_item : EmailItem → EmailItem → EmailItem
unfolding merge_email_metadata
merge_email_item base fetched =
    let out = merge_email_metadata base fetched in
    record out {
      body = text_or fetched.body out.body;
      body_type =
          if is_empty fetched.body
          then out.body_type
          else if fetched.body_type == body_type_none
          then out.body_type
          else fetched.body_type;
      body_truncated = if is_empty fetched.body then out.body_truncated else fetched.body_truncated;
      body_mime = list_or fetched.body_mime out.body_mime;
    }

-- mergeEmailChange
unfoldable pub merge_email_change : EmailItem → EmailItem → EmailItem
unfolding merge_email_item
merge_email_change base change =
    if is_empty base.server_id
    then change
    else let merged = merge_email_item base change in
      record merged {
        read = if change.read_present then change.read else merged.read;
        flag_status = if change.flag_status_present then change.flag_status else merged.flag_status;
      }

-- What the client decodes from a Change that carries only the read mark or the flag.
unfoldable pub sparse_change : String → Option Bool → Option ℕ → EmailItem
sparse_change id read flag = record no_email {
  server_id = id;
  read = elim read [ none ↦ false | some r ↦ r ];
  read_present = elim read [ none ↦ false | some _ ↦ true ];
  flag_status = elim flag [ none ↦ 0 | some n ↦ n ];
  flag_status_present = elim flag [ none ↦ false | some _ ↦ true ];
}

-- The mail with the read mark and the flag of the Change, and all else kept.
unfoldable pub marked : EmailItem → Option Bool → Option ℕ → EmailItem
marked base read flag = record base {
  read = elim read [ none ↦ base.read | some r ↦ r ];
  flag_status = elim flag [ none ↦ base.flag_status | some n ↦ n ];
}

still_attached :
    (base : EmailItem)
    → (base.has_attachments || not (is_nil base.attachments)) ≡ base.has_attachments
    → (base.has_attachments || false || not (is_nil base.attachments)) ≡ base.has_attachments
still_attached base a = ground arith

-- A Change that carries at most the read mark and the flag sets those two fields of a cached mail, and
-- keeps everything else; the mail has a server ID and says so itself if it has attachments.
pub merge_email_change-sparse_change :
    (base : EmailItem) (read : Option Bool) (flag : Option ℕ)
    → is_empty base.server_id ≡ false
    → (base.has_attachments || not (is_nil base.attachments)) ≡ base.has_attachments
    → merge_email_change base (sparse_change base.server_id read flag) ≡ marked base read flag
unfolding merge_email_change merge_email_item merge_email_metadata marked sparse_change
merge_email_change-sparse_change base none none h a = rw (h, still_attached base a) refl
merge_email_change-sparse_change base none (some n) h a = rw (h, still_attached base a) refl
merge_email_change-sparse_change base (some r) none h a = rw (h, still_attached base a) refl
merge_email_change-sparse_change base (some r) (some n) h a = rw (h, still_attached base a) refl

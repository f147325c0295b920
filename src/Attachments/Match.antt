-- ===== src/Attachments/Match.antt =====
-- findRefreshedAttachment (mime_engine.go): the successor of an attachment whose reference the server has
-- changed, by a score. The comparison that ignores case is a parameter.
use Prim.Native.Char.{Char, char, code}
use Prim.Native.String.{[] as nil, ◌∷◌ as cons}
use eas_bridge.Prelude.{
  ℕ, String, Bool, true, false, not, ◌&&◌, ◌||◌, Option, none, some, List, [], ◌∷◌, str_eq,
  is_empty, ltb, ◌==◌, if◌then◌else◌,
}
use eas_bridge.Folders.Component.{trim_space}
use eas_bridge.Eas.{Attachment}

-- The replacement of line breaks by spaces.
unfoldable pub without_breaks : String → String
without_breaks nil = ""
without_breaks (cons c cs) =
    cons (if code c == 13 || code c == 10 then char 32 tt else c) (without_breaks cs)

-- sanitizeHeader
unfoldable pub sanitize_header : String → String
unfolding without_breaks trim_space
sanitize_header value = trim_space (without_breaks value)

unfoldable pub is_angle : Char → Bool
is_angle c = code c == 60 || code c == 62

-- `strings.Trim(s, "<>")`
unfoldable pub trim_angles_left : String → String
unfolding is_angle
trim_angles_left nil = ""
trim_angles_left (cons c cs) =
    let rest = trim_angles_left cs in if is_angle c then rest else cons c cs

unfoldable pub trim_angles_right : String → String
unfolding is_angle
trim_angles_right nil = ""
trim_angles_right (cons c cs) =
    let rest = trim_angles_right cs in if is_empty rest && is_angle c then "" else cons c rest

-- normalizeContentID
unfoldable pub normalize_content_id : String → String
unfolding sanitize_header trim_angles_left trim_angles_right
normalize_content_id value = trim_angles_right (trim_angles_left (sanitize_header value))

pub record Candidates : Type 0 where
  pub best_score : ℕ
  pub best : Attachment
  pub ambiguous : Bool

abbrev pub no_attachment : Attachment
no_attachment = record {
  display_name = "";
  file_reference = "";
  method = 0;
  estimated_data_size = 0;
  content_id = "";
  content_location = "";
  is_inline = false;
  content_type = "";
}

abbrev pub no_candidate : Candidates
no_candidate = record { best_score = 0; best = no_attachment; ambiguous = false }

module _ (equal_fold : String → String → Bool) (previous : Attachment) where
  -- The switch of the loop.
  unfoldable pub score : Attachment → ℕ
  unfolding normalize_content_id
  score candidate =
      let same_id =
        not (is_empty previous.content_id)
        && equal_fold (normalize_content_id previous.content_id)
            (normalize_content_id candidate.content_id) in
      let same_name =
        not (is_empty previous.display_name)
        && str_eq previous.display_name candidate.display_name in
      let same_size =
        ltb 0 previous.estimated_data_size
        && previous.estimated_data_size == candidate.estimated_data_size in
      let same_type =
        not (is_empty previous.content_type)
        && equal_fold previous.content_type candidate.content_type in
      if same_id
      then 4
      else if same_name && same_size
      then 3
      else if same_name && same_type
      then 2
      else 0

  -- What the loop does with a score.
  unfoldable pub ranked : ℕ → Attachment → Candidates → Candidates
  ranked s candidate st =
      if ltb st.best_score s
      then record { best_score = s; best = candidate; ambiguous = false }
      else if ltb 0 s && s == st.best_score
      then record st { ambiguous = true }
      else st

  -- One round of the loop.
  unfoldable pub consider : Attachment → Candidates → Candidates
  unfolding score ranked
  consider candidate st =
      if str_eq candidate.file_reference previous.file_reference
      then st
      else ranked (score candidate) candidate st

  unfoldable pub consider_each : List Attachment → Candidates → Candidates
  unfolding consider
  consider_each [] st = st
  consider_each (candidate ∷ candidates) st = consider_each candidates (consider candidate st)

  -- findRefreshedAttachment; the callers use the attachment only with `true`.
  unfoldable pub find_refreshed_attachment : List Attachment → Option Attachment
  unfolding consider_each
  find_refreshed_attachment candidates =
      let st = consider_each candidates no_candidate in
      if ltb 0 st.best_score && not st.ambiguous then some st.best else none

-- ===== src/Tests/Attachments.antt =====
-- The download of an attachment, and the successor of one, on small inputs.
use eas_bridge.Prelude.{
  ℕ, String, ◌≡◌, refl, sym, ap, ◌∙◌, Bool, true, false, Option, none, some, List, [], ◌∷◌, arith,
  str_eq, length, length-append, inr, ◌⊎◌,
}
use eas_bridge.Eas.{Attachment}
use eas_bridge.Attachments.Download.{FetchedAttachment, decode_base64_chunk, download_chunks}
use eas_bridge.Attachments.Chunks.{Serves, Stalls, download_chunks-arrives, download_chunks-Stalls}
use eas_bridge.Attachments.Best.{IsBest, find_refreshed_attachment-IsBest}
use eas_bridge.Attachments.Match.{no_attachment, find_refreshed_attachment}

-- A server of the one byte 7, without state, and one that answers each request with a line break. The
-- decoder takes every text as it is.
abbrev keep : List ℕ → Option (List ℕ)
keep bytes = some bytes

abbrev one_byte : String → ℕ → ℕ → Bool → (Bool ⊎ FetchedAttachment) × Bool
one_byte file_reference start end w = (inr (record { data_bytes = 7 ∷ []; range = "0-0" }), true)

abbrev line_breaks : String → ℕ → ℕ → Bool → (Bool ⊎ FetchedAttachment) × Bool
line_breaks file_reference start end w =
    (inr (record { data_bytes = 10 ∷ []; range = "0-0" }), true)

one_byte-Serves : Serves keep one_byte "ref" (7 ∷ [])
unfolding decode_base64_chunk
one_byte-Serves [] rest w e more = (
  record { data_bytes = 7 ∷ []; range = "0-0" },
  7 ∷ [],
  [],
  1,
  refl,
  refl,
  refl,
  refl,
  omega arith,
  sym e,
)
one_byte-Serves (b ∷ buf) rest w e more =
    let parts = ap length e ∙ length-append (b ∷ buf) rest in absurd (omega (arith, parts, more))

line_breaks-Stalls : Stalls keep line_breaks "ref" (7 ∷ []) 10 0
unfolding decode_base64_chunk
line_breaks-Stalls w = (record { data_bytes = 10 ∷ []; range = "0-0" }, 0, refl, refl, refl, refl)

download_chunks-arrives_example :
    (w' : Bool) × (download_chunks keep one_byte 2 "ref" 1 0 [] false ≡ some (inr (7 ∷ []), w'))
download_chunks-arrives_example =
    download_chunks-arrives keep one_byte "ref" (7 ∷ []) one_byte-Serves false

download_chunks-Stalls_example : download_chunks keep line_breaks 100 "ref" 10 0 [] false ≡ none
download_chunks-Stalls_example =
    download_chunks-Stalls keep line_breaks "ref" (7 ∷ []) 10 0 line_breaks-Stalls 100 [] false
      (omega arith)

abbrev report : Attachment
report = record no_attachment {
  display_name = "report.pdf";
  file_reference = "1";
  estimated_data_size = 90;
  content_type = "application/pdf";
}

abbrev report_again : Attachment
report_again = record report { file_reference = "2" }

abbrev other_size : Attachment
other_size = record report { file_reference = "3"; estimated_data_size = 91 }

report_found :
    find_refreshed_attachment str_eq report (report ∷ other_size ∷ report_again ∷ [])
    ≡ some report_again
unfolding find_refreshed_attachment
report_found = refl

report_ambiguous : find_refreshed_attachment str_eq report (report_again ∷ report_again ∷ []) ≡ none
unfolding find_refreshed_attachment
report_ambiguous = refl

abbrev reports : List Attachment
reports = report ∷ other_size ∷ report_again ∷ []

find_refreshed_attachment-IsBest_example :
    IsBest str_eq report reports (find_refreshed_attachment str_eq report reports)
find_refreshed_attachment-IsBest_example = find_refreshed_attachment-IsBest str_eq report reports

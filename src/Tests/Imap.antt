-- ===== src/Tests/Imap.antt =====
-- The inbox of Tests/Uids in an IMAP session: SELECT, STORE, EXPUNGE, COPY and SEARCH.
use Prim.Native.String.{◌++◌}
use eas_bridge.Prelude.{
  ℕ, ◌+◌, ◌<◌, ◌^◌, String, ◌≡◌, ◌≢◌, refl, true, false, Option, none, some, List, [], ◌∷◌, map,
  arith, eq_iff, length, str_eq, inr, ◌==◌,
}
use eas_bridge.Dict.{get, put}
use eas_bridge.Eas.{Folder}
use eas_bridge.Eas.Uploads.{MoveItemResult}
use eas_bridge.Store.{DiskState, u32}
use eas_bridge.Persist.Disk.{Host}
use eas_bridge.Persist.Marks.{mail}
use eas_bridge.Sync.Reads.{MailError}
use eas_bridge.Imap.Session.{
  MboxSnapshot, Session, NumSet, seq_set, named_items, select, SelectData,
}
use eas_bridge.Imap.Flags.{store_add, apply_flag_mutations}
use eas_bridge.Imap.Effects.{AllEffect, apply_flag_mutations-Effect}
use eas_bridge.Imap.Reports.{report_of, mutated-apply_flag_mutations}
use eas_bridge.Imap.Moves.{copy, victims_from, expunge, victims_from}
use eas_bridge.Imap.Expunged.{Climbs, expunge-Climbs}
use eas_bridge.Sync.Reads.{trash_folder_id}
use eas_bridge.Imap.Confirmed.{victim_ids}
use eas_bridge.Imap.Taken.{Taken, expunge-Taken, copy-Taken}
use eas_bridge.Search.Criteria.{SearchContext, filter_search}
use eas_bridge.Search.Results.{deleted_query, filter_search-victims}
use eas_bridge.Search.Markup.{opens, closes, is_plain, strip_html_tags, strip_html_tags_lem}
use eas_bridge.Tests.Uids.{two, inbox, host}

abbrev snap : MboxSnapshot
snap = record {
  items = two;
  uid_for_sid = record { entries = ("b", 2) ∷ ("a", 1) ∷ [] };
  sid_for_uid = λ u. none;
  uid_validity = 77;
  deleted = record { entries = ("a", true) ∷ [] };
}

abbrev session : Session
session = record { selected = "inbox"; snap = some snap }

abbrev calm : Host
calm = record host { fates = [] }

abbrev second : NumSet
second = seq_set (λ n. n == 2)

abbrev marks : List String
marks = "\\Seen" ∷ "\\Deleted" ∷ []

stored : (apply_flag_mutations "inbox" second store_add marks snap calm).0 ≡ none
unfolding apply_flag_mutations
stored = refl

apply_flag_mutations-Effect_example :
    AllEffect "inbox" store_add marks snap "b"
      (named_items second snap)
      calm
      (apply_flag_mutations "inbox" second store_add marks snap calm).1.host
apply_flag_mutations-Effect_example =
    apply_flag_mutations-Effect "inbox" store_add marks snap "b" second calm stored

mutated-apply_flag_mutations_example :
    (apply_flag_mutations "inbox" second store_add marks snap calm).1.mutated
    ≡ map (report_of "inbox" store_add marks snap) (named_items second snap)
mutated-apply_flag_mutations_example =
    mutated-apply_flag_mutations "inbox" store_add marks snap second calm stored

abbrev trash_folder : Folder
trash_folder = record { server_id = "trash"; parent_id = "0"; display_name = "Trash"; kind = 4 }

abbrev with_trash : Host
with_trash = record calm { state = record inbox { folders = trash_folder ∷ [] } }

-- A server that moves every message and gives it a new ID.
abbrev move_all : String → String → List String → ℕ → Option (List MoveItemResult) × ℕ
move_all src dst ids w =
    (some (map (λ id. record { src_server_id = id; dst_server_id = "new"; status = 3 }) ids), w + 1)

expunged : (expunge move_all 9 none session with_trash 0).0.0 ≡ inr (1 ∷ [])
unfolding expunge get put
expunged = refl

expunge-Climbs_example : Climbs 1 2 (1 ∷ [])
expunge-Climbs_example =
    expunge-Climbs move_all 9 none session snap with_trash 0 (1 ∷ []) refl (omega arith) expunged

trash_ne_inbox : ◌≢◌ {A = String} "trash" "inbox"
trash_ne_inbox e = ground (arith, (eq_iff "trash" "inbox").1 e)

expunge-Taken_example :
    Taken
      (victim_ids (victims_from none snap 0 snap.items))
      (move_all "inbox" "trash" (victim_ids (victims_from none snap 0 snap.items)) 0).0
      "inbox"
      "a"
      with_trash
      ((expunge move_all 9 none session with_trash 0).0.2)
unfolding trash_folder_id
expunge-Taken_example =
    expunge-Taken move_all 9 session snap with_trash 0 "a" refl none "trash" refl trash_ne_inbox

copy-Taken_example :
    Taken
      (map (λ e. (e.1).server_id) (named_items second snap))
      (move_all "inbox" "trash" (map (λ e. (e.1).server_id) (named_items second snap)) 0).0
      "inbox"
      "b"
      with_trash
      ((copy move_all 9 second (some trash_folder) session with_trash 0).0.2)
copy-Taken_example =
    copy-Taken move_all 9 session snap with_trash 0 "b" refl second trash_folder trash_ne_inbox

abbrev inbox_folder : Folder
inbox_folder = record { server_id = "inbox"; parent_id = "0"; display_name = "Inbox"; kind = 2 }

abbrev in_sync : String → DiskState → Option MailError × DiskState
in_sync f s = (none, s)

abbrev all_unseen : SelectData
all_unseen = record { num_messages = 2; first_unseen_seq_num = 1; uid_validity = 77; uid_next = 3 }

selects : (select (λ s. s) in_sync (some inbox_folder) session inbox).0 ≡ inr all_unseen
unfolding select get
selects = refl

two_fit : length (mail "inbox" inbox) < 2 ^ 32
unfolding get
two_fit = omega arith

abbrev context : SearchContext
context = record {
  snap = snap;
  body_text = λ id. none;
  to_lower = λ s. s;
  to_upper = λ s. elim (str_eq s "\\Deleted") [ true ↦ "\\DELETED" | false ↦ s ];
  rfc1123z = λ t. "";
}

filter_search-victims_example :
    map (λ n. u32 (n + 1)) (filter_search context deleted_query)
    ≡ map (λ v. v.seq) (victims_from none snap 0 two)
filter_search-victims_example = filter_search-victims context refl

strip_html_tags_lem_example :
    (is_plain (strip_html_tags "a<b>c") ≡ true)
    × (strip_html_tags "text" ≡ "text")
    × (strip_html_tags ("a<b>c" ++ "<" ++ "br" ++ ">" ++ "d")
        ≡ strip_html_tags "a<b>c" ++ strip_html_tags "d")
unfolding opens closes
strip_html_tags_lem_example = strip_html_tags_lem "a<b>c" "text" "br" "d" refl refl

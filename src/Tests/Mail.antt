-- ===== src/Tests/Mail.antt =====
-- A folder of two messages, one page that adds one, changes one and deletes one, and the page loop.
use eas_bridge.Prelude.{
  ℕ, String, ◌≡◌, refl, Bool, true, false, not, ◌&&◌, ◌||◌, none, some, List, [], ◌∷◌, arith,
  contains, Distinct,
}
use eas_bridge.Eas.{EmailItem, no_email}
use eas_bridge.Store.Uids.Allocation.{server_ids}
use eas_bridge.Dict.{get, put, empty}
use eas_bridge.Mail.Merge.{
  merge_email_change, sparse_change, marked, merge_email_change-sparse_change,
}
use eas_bridge.Mail.Collect.{
  Reply, page, failed, status, Changes, no_changes, collect, collected, ended, collect_terminates,
}
use eas_bridge.Folders.Component.{is_space}
use eas_bridge.Mail.Addresses.{split_eas_addresses, parse_eas_addrs}
use eas_bridge.Mail.Apply.{merged_items}
use eas_bridge.Mail.Contents.{merged_items-server_ids}

abbrev message : String → String → EmailItem
message id subject = record no_email { server_id = id; subject = subject }

abbrev folder : List EmailItem
folder = message "a" "first" ∷ message "b" "second" ∷ []

abbrev news : Changes
news = record {
  added = message "c" "third" ∷ [];
  changed = sparse_change "a" (some true) none ∷ [];
  deleted = "b" ∷ [];
}

folder-Distinct : Distinct (server_ids folder)
unfolding server_ids
folder-Distinct = (refl, (refl, tt))

-- The read mark reaches "a", which keeps its subject; "b" is gone.
merged_run :
    merged_items folder news
    ≡ record (message "a" "first") { read = true } ∷ message "c" "third" ∷ []
unfolding merged_items sparse_change get put empty merge_email_change
merged_run = refl

merged_items-server_ids_example :
    Distinct (server_ids (merged_items folder news))
    × ((k : String)
        → contains k (server_ids (merged_items folder news)) ≡ (
            (contains k (server_ids folder)
              || contains k (server_ids (news.added))
              || contains k (server_ids (news.changed)))
            && not (contains k news.deleted)))
merged_items-server_ids_example = merged_items-server_ids folder news folder-Distinct

merge_email_change-sparse_change_example :
    merge_email_change (message "a" "first") (sparse_change "a" (some true) none)
    ≡ marked (message "a" "first") (some true) none
merge_email_change-sparse_change_example =
    merge_email_change-sparse_change (message "a" "first") (some true) none refl refl

-- A server that refuses the key until it is reset, and then sends pages without end.
abbrev answer : Bool → Reply × Bool
answer false = (failed (status 5), false)
answer true =
    (page (record { added = []; changed = []; deleted = []; more_available = true }), true)

-- Status 5 twice is an error, without a third request.
collect_run :
    collect {W = ℕ} (λ n. (failed (status 5), n)) (λ n. 7) 5 0 false no_changes 3
    ≡ collected (some (status 5)) no_changes 7
unfolding collect
collect_run = refl

collect_terminates_example :
    ended (collect {W = Bool} answer (λ w. true) 1002 0 false no_changes false) ≡ true
collect_terminates_example =
    collect_terminates {W = Bool} answer (λ w. true) 1002 false (omega arith)

-- A name with a semicolon in quotes is one part for the one function and two for the other.
quoted_name_kept : split_eas_addresses "\"a;b\" <x@y>; c@d" ≡ ("\"a;b\" <x@y>" ∷ "c@d" ∷ [])
unfolding split_eas_addresses is_space
quoted_name_kept = refl

quoted_name_split : parse_eas_addrs "\"a;b\" <x@y>" ≡ (
    record { name = ""; mailbox = "\"a"; host = "" }
    ∷ record { name = "b"; mailbox = "x"; host = "y" }
    ∷ [])
unfolding parse_eas_addrs is_space
quoted_name_split = refl

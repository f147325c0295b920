-- ===== src/Search/Criteria.antt =====
-- matchSearchItem, itemHasFlag, searchHeaderValue, containsFold and filterSearch (search.go). The
-- case mappings and the RFC 1123 print of a date are functions of Go's Unicode and time packages, and
-- the text of a cached body comes from files: they are parameters. A time is UTC.
use Prim.Native.String.{◌++◌}
use text.Mathlib.Text.{find?}
use eas_bridge.Prelude.{
  ℕ, ◌+◌, ◌/◌, suc, String, Bool, true, false, not, ◌&&◌, ◌||◌, Option, none, some, List, [], ◌∷◌,
  str_eq, is_empty, if◌then◌else◌, ltb, leb, ◌==◌, all,
}
use eas_bridge.Dict.{get_or}
use eas_bridge.Eas.{EmailItem}
use eas_bridge.Store.{u32}
use eas_bridge.Imap.Session.{MboxSnapshot}

-- imap.SearchCriteriaHeaderField
pub record HeaderField : Type 0 where
  pub key : String
  pub value : String

-- The fields of imap.SearchCriteria but NOT and OR. A set of numbers is its `Contains`; 0 is the zero
-- time, and a size 0 asks nothing.
pub record Criteria : Type 0 where
  pub seq_num : List (ℕ → Bool)
  pub uid : List (ℕ → Bool)
  pub since : ℕ
  pub before : ℕ
  pub sent_since : ℕ
  pub sent_before : ℕ
  pub header : List HeaderField
  pub body : List String
  pub text : List String
  pub flag : List String
  pub not_flag : List String
  pub larger : ℕ
  pub smaller : ℕ

-- imap.SearchCriteria
mutual
  pub data Query : Type 0 where
    query : Criteria → Queries → Pairs → Query

  -- the criteria under NOT
  pub data Queries : Type 0 where
    end : Queries
    next : Query → Queries → Queries

  -- the pairs under OR
  pub data Pairs : Type 0 where
    no_pair : Pairs
    pair : Query → Query → Pairs → Pairs

-- dateOnly: the day of a time
unfoldable pub date_only : ℕ → ℕ
date_only t = t / 86400000000000

-- searchContext, with the functions of Go's packages that the test calls.
pub record SearchContext : Type 0 where
  pub snap : MboxSnapshot
  pub body_text : String → Option String
  pub to_lower : String → String
  pub to_upper : String → String
  pub rfc1123z : ℕ → String

-- strings.Contains
unfoldable pub has_substring : String → String → Bool
has_substring s t = elim (find? s t) [ none ↦ false | some i ↦ true ]

unfoldable pub contains_fold : SearchContext → String → String → Bool
unfolding has_substring
contains_fold sc haystack needle = has_substring (sc.to_lower haystack) (sc.to_lower needle)

unfoldable pub item_has_flag : SearchContext → EmailItem → String → Bool
item_has_flag sc it f =
    let name = sc.to_upper f in
    if str_eq name "\\SEEN"
    then it.read
    else if str_eq name "\\DELETED"
    then get_or false sc.snap.deleted it.server_id
    else if str_eq name "\\FLAGGED"
    then it.flag_status == 2
    else false

unfoldable pub search_header_value : SearchContext → EmailItem → String → String
search_header_value sc it key =
    let name = sc.to_upper key in
    if str_eq name "SUBJECT"
    then it.subject
    else if str_eq name "FROM"
    then it.from
    else if str_eq name "TO"
    then it.to
    else if str_eq name "CC"
    then it.cc
    else if str_eq name "BCC"
    then it.bcc
    else if str_eq name "REPLY-TO"
    then it.reply_to
    else if str_eq name "SENDER"
    then it.sender
    else if str_eq name "DATE"
    then if it.date_received == 0 then "" else sc.rfc1123z it.date_received
    else ""

-- the loop over c.Header
unfoldable pub has_header : SearchContext → EmailItem → HeaderField → Bool
unfolding search_header_value contains_fold
has_header sc it hf =
    let val = search_header_value sc it hf.key in
    if is_empty hf.value then not (is_empty val) else contains_fold sc val hf.value

-- the loop over c.Text
unfoldable pub has_text : SearchContext → EmailItem → String → Bool
unfolding contains_fold
has_text sc it s =
    let head = it.subject ++ "\n" ++ it.from ++ "\n" ++ it.to ++ "\n" ++ it.cc ++ "\n" ++ it.bcc in
    let hay : String = elim (sc.body_text it.server_id) [
      | none ↦ head
      | some bt ↦ head ++ "\n" ++ bt
    ] in
    contains_fold sc hay s

-- the loop over c.Body
unfoldable pub has_body : SearchContext → EmailItem → String → Bool
unfolding contains_fold
has_body sc it s = elim (sc.body_text it.server_id) [
  | none ↦ false
  | some bt ↦ contains_fold sc bt s
]

-- `!t.IsZero() && d.Before(dateOnly(t))`, and the other way round
unfoldable pub is_too_early : ℕ → ℕ → Bool
unfolding date_only
is_too_early d t = not (t == 0) && ltb d (date_only t)

unfoldable pub is_too_late : ℕ → ℕ → Bool
unfolding date_only
is_too_late d t = not (t == 0) && not (ltb d (date_only t))

-- The tests up to NOT and OR; each loop ends the function at its first miss.
unfoldable pub match_criteria : SearchContext → ℕ → EmailItem → Criteria → Bool
unfolding date_only is_too_early is_too_late has_header has_text has_body item_has_flag
match_criteria sc idx it c =
    let d = date_only it.date_received in
    all (λ set. set (u32 (idx + 1))) c.seq_num
    && all (λ set. set (get_or 0 sc.snap.uid_for_sid it.server_id)) c.uid
    && not (is_too_early d c.since)
    && not (is_too_late d c.before)
    && not (is_too_early d c.sent_since)
    && not (is_too_late d c.sent_before)
    && all (has_header sc it) c.header
    && all (has_text sc it) c.text
    && all (has_body sc it) c.body
    && all (item_has_flag sc it) c.flag
    && all (λ f. not (item_has_flag sc it f)) c.not_flag
    && not (ltb 0 c.larger && leb it.body_estimated_size c.larger)
    && not (ltb 0 c.smaller && leb c.smaller it.body_estimated_size)

-- matchSearchItem, for the item at the index
unfoldable mutual
  unfolding match_criteria

  pub match_search_item : SearchContext → ℕ → EmailItem → Query → Bool
  match_search_item sc idx it (query c nots ors) =
      match_criteria sc idx it c && none_match sc idx it nots && each_pair sc idx it ors

  -- the loop over c.Not
  pub none_match : SearchContext → ℕ → EmailItem → Queries → Bool
  none_match sc idx it end = true
  none_match sc idx it (next q qs) = not (match_search_item sc idx it q) && none_match sc idx it qs

  -- the loop over c.Or
  pub each_pair : SearchContext → ℕ → EmailItem → Pairs → Bool
  each_pair sc idx it no_pair = true
  each_pair sc idx it (pair l r ps) =
      (match_search_item sc idx it l || match_search_item sc idx it r) && each_pair sc idx it ps

-- filterSearch from the index `i`
unfoldable pub filter_from : SearchContext → Query → ℕ → List EmailItem → List ℕ
unfolding match_search_item
filter_from sc q i [] = []
filter_from sc q i (it ∷ its) =
    let rest = filter_from sc q (suc i) its in
    if match_search_item sc i it q then i ∷ rest else rest

unfoldable pub filter_search : SearchContext → Query → List ℕ
unfolding filter_from
filter_search sc q = filter_from sc q 0 sc.snap.items

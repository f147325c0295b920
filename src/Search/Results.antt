-- ===== src/Search/Results.antt =====
-- SEARCH DELETED against the messages that EXPUNGE takes.
use eas_bridge.Prelude.{
  ℕ, ◌+◌, suc, ◌≡◌, refl, ap, false, none, List, [], ◌∷◌, map, arith, Bool-cases, inl, inr,
}
use eas_bridge.Dict.{get_or}
use eas_bridge.Eas.{EmailItem}
use eas_bridge.Store.{u32}
use eas_bridge.Imap.Moves.{victims_from, is_spared}
use eas_bridge.Search.Criteria.{
  SearchContext, Criteria, Query, query, end, no_pair, match_criteria, match_search_item,
  filter_from, filter_search, item_has_flag,
}

-- The criteria that ask nothing.
abbrev pub any_message : Criteria
any_message = record {
  seq_num = [];
  uid = [];
  since = 0;
  before = 0;
  sent_since = 0;
  sent_before = 0;
  header = [];
  body = [];
  text = [];
  flag = [];
  not_flag = [];
  larger = 0;
  smaller = 0;
}

-- The criteria `DELETED`.
abbrev pub deleted_query : Query
deleted_query = query (record any_message { flag = "\\Deleted" ∷ [] }) end no_pair

deleted_match :
    (sc : SearchContext) (i : ℕ) (it : EmailItem)
    → sc.to_upper "\\Deleted" ≡ "\\DELETED"
    → match_search_item sc i it deleted_query ≡ get_or false sc.snap.deleted it.server_id
unfolding match_search_item match_criteria item_has_flag
deleted_match sc i it up = rw (up, item_has_flag) (ground arith)

deleted_from :
    (sc : SearchContext) (i : ℕ) (its : List EmailItem)
    → sc.to_upper "\\Deleted" ≡ "\\DELETED"
    → map (λ n. u32 (n + 1)) (filter_from sc deleted_query i its)
      ≡ map (λ v. v.seq) (victims_from none sc.snap i its)
unfolding filter_from victims_from is_spared
deleted_from sc i [] up = refl
deleted_from sc i (it ∷ its) up =
    let same = deleted_match sc i it up in
    elim (Bool-cases (get_or false sc.snap.deleted it.server_id)) [
      | inl p ↦
          rw (same, p, filter_from, victims_from)
            (ap (λ l. u32 (i + 1) ∷ l) (deleted_from sc (suc i) its up))
      | inr p ↦ rw (same, p, filter_from, victims_from) (deleted_from sc (suc i) its up)
    ]

-- SEARCH DELETED names exactly the messages that an EXPUNGE would then try to move, by number.
pub filter_search-victims :
    (sc : SearchContext)
    → sc.to_upper "\\Deleted" ≡ "\\DELETED"
    → map (λ n. u32 (n + 1)) (filter_search sc deleted_query)
      ≡ map (λ v. v.seq) (victims_from none sc.snap 0 sc.snap.items)
unfolding filter_search
filter_search-victims sc up = deleted_from sc 0 sc.snap.items up

-- ===== src/Search/Command.antt =====
-- The command SEARCH (imapd.go): the numbers that the response lists.
use eas_bridge.Prelude.{ℕ, ◌+◌, Option, none, some, List, map}
use eas_bridge.Dict.{get_or}
use eas_bridge.Store.{u32}
use eas_bridge.Imap.Session.{MboxSnapshot, Session}
use eas_bridge.Imap.Moves.{item_at}
use eas_bridge.Search.Criteria.{SearchContext, Query, filter_search}

-- imapserver.NumKind
pub data NumKind : Type 0 where
  seq_kind : NumKind
  uid_kind : NumKind

unfoldable pub number_of : NumKind → MboxSnapshot → ℕ → ℕ
unfolding item_at
number_of seq_kind snap i = u32 (i + 1)
number_of uid_kind snap i = get_or 0 snap.uid_for_sid (item_at i snap.items).server_id

-- Search, with the functions of the context; `none` where no folder is selected
unfoldable pub search : NumKind → SearchContext → Query → Session → Option (List ℕ)
unfolding number_of filter_search
search kind sc q sess = elim (sess.snap) [
  | none ↦ none
  | some snap ↦ some (map (number_of kind snap) (filter_search (record sc { snap = snap }) q))
]

-- ===== src/Imap/Session.antt =====
-- The state of an IMAP session (imapd.go): the snapshot of the selected folder, how it is taken and
-- refreshed, SELECT, STATUS and Poll, and the walk over the messages that a command names.
use eas_bridge.Prelude.{
  ℕ, ◌+◌, suc, String, Bool, true, not, ◌&&◌, Option, none, some, List, [], ◌∷◌, is_empty, inl, inr,
  ◌⊎◌, length, if◌then◌else◌, ltb, ◌==◌,
}
use eas_bridge.Dict.{Dict, empty, put, get_or, keys}
use eas_bridge.Eas.{EmailItem, Folder}
use eas_bridge.Store.{DiskState, UidEntry, no_meta, u32}
use eas_bridge.Store.Uids.{sid_map_of}
use eas_bridge.Sync.Reads.{MailError}

-- `map[uint32]string`
abbrev pub SidMap : Type 0
SidMap = ℕ → Option String

pub record MboxSnapshot : Type 0 where
  pub items : List EmailItem
  pub uid_for_sid : Dict ℕ
  pub sid_for_uid : SidMap
  pub uid_validity : ℕ
  pub deleted : Dict Bool

pub record Session : Type 0 where
  pub selected : String
  pub snap : Option MboxSnapshot

-- the loop that fills sidForUID; a later entry overwrites an earlier one
unfoldable pub sid_for_uid_of : SidMap → List UidEntry → SidMap
sid_for_uid_of m [] = m
sid_for_uid_of m (e ∷ es) = sid_for_uid_of (λ u. if e.uid == u then some e.server_id else m u) es

unfoldable pub mark_all : List String → Dict Bool → Dict Bool
mark_all [] out = out
mark_all (id ∷ ids) out = mark_all ids (put out id true)

-- snapshotDeleted
unfoldable pub snapshot_deleted : String → DiskState → Dict Bool
unfolding mark_all
snapshot_deleted f s = mark_all (keys (get_or empty s.deleted f)) empty

unfoldable pub snapshot_of : String → DiskState → MboxSnapshot
unfolding snapshot_deleted sid_map_of sid_for_uid_of
snapshot_of f s = record {
  items = get_or [] s.items f;
  uid_for_sid = sid_map_of empty (get_or [] s.uids f);
  sid_for_uid = sid_for_uid_of (λ u. none) (get_or [] s.uids f);
  uid_validity = (get_or no_meta s.folder_meta f).uid_validity;
  deleted = snapshot_deleted f s;
}

-- refreshSnapshot
unfoldable pub refresh_snapshot : DiskState → Session → Session
unfolding snapshot_of
refresh_snapshot s sess =
    if is_empty sess.selected
    then sess
    else record sess { snap = some (snapshot_of sess.selected s) }

-- The loop of Select; `i` is the index of the first item of the list.
unfoldable pub first_unseen : ℕ → ℕ → List EmailItem → ℕ
first_unseen i found [] = found
first_unseen i found (it ∷ its) =
    first_unseen (suc i) (if not it.read && found == 0 then u32 (i + 1) else found) its

pub record SelectData : Type 0 where
  pub num_messages : ℕ
  pub first_unseen_seq_num : ℕ
  pub uid_validity : ℕ
  pub uid_next : ℕ

-- the loop of Status
unfoldable pub count_unseen : List EmailItem → ℕ → ℕ
count_unseen [] n = n
count_unseen (it ∷ its) n = count_unseen its (if it.read then n else u32 (n + 1))

pub record StatusData : Type 0 where
  pub num_messages : ℕ
  pub uid_validity : ℕ
  pub uid_next : ℕ
  pub num_unseen : ℕ

pub data SelectError : Type 0 where
  no_such_folder : SelectError
  sync_failed : MailError → SelectError

module _ {W : Type 0} (state_of : W → DiskState)
    (sync_for_read : String → W → Option MailError × W) where
  -- Select: `found` is the answer of findFolder. A failure leaves the session as it is.
  unfoldable pub select : Option Folder → Session → W → (SelectError ⊎ SelectData) × Session × W
  unfolding snapshot_of first_unseen
  select none sess w = (inl no_such_folder, sess, w)
  select (some folder) sess w =
      let id = folder.server_id in
      let r = sync_for_read id w in
      let s = state_of (r.1) in
      let items = get_or [] s.items id in
      let meta = get_or no_meta s.folder_meta id in
      elim (r.0) [
        | some e ↦ (inl (sync_failed e), sess, r.1)
        | none ↦ (
          inr (record {
            num_messages = u32 (length items);
            first_unseen_seq_num = first_unseen 0 0 items;
            uid_validity = meta.uid_validity;
            uid_next = meta.next_uid;
          }),
          record { selected = id; snap = some (snapshot_of id s) },
          r.1,
        )
      ]

  -- Status
  unfoldable pub status : Option Folder → W → (SelectError ⊎ StatusData) × W
  unfolding count_unseen
  status none w = (inl no_such_folder, w)
  status (some folder) w =
      let id = folder.server_id in
      let r = sync_for_read id w in
      let s = state_of (r.1) in
      let items = get_or [] s.items id in
      let meta = get_or no_meta s.folder_meta id in
      elim (r.0) [
        | some e ↦ (inl (sync_failed e), r.1)
        | none ↦ (
          inr (record {
            num_messages = u32 (length items);
            uid_validity = meta.uid_validity;
            uid_next = meta.next_uid;
            num_unseen = count_unseen items 0;
          }),
          r.1,
        )
      ]

-- Unselect
unfoldable pub unselect : Session → Session
unselect sess = record { selected = ""; snap = none }

-- Poll: the new number of messages, where it grew
unfoldable pub poll : DiskState → Session → Option ℕ × Session
unfolding refresh_snapshot
poll s sess = elim (sess.snap) [
  | none ↦ (none, sess)
  | some old ↦
      if is_empty sess.selected
      then (none, sess)
      else let new = snapshot_of sess.selected s in
        let old_count = u32 (length old.items) in
        let new_count = u32 (length new.items) in
        (if ltb old_count new_count then some new_count else none, refresh_snapshot s sess)
]

-- A set of sequence numbers or of UIDs, as its `Contains`.
pub data NumSet : Type 0 where
  seq_set : (ℕ → Bool) → NumSet
  uid_set : (ℕ → Bool) → NumSet

-- The test of forEachItem for the item at index `i`.
unfoldable pub is_named : NumSet → MboxSnapshot → ℕ → EmailItem → Bool
is_named (seq_set has) snap i it = has (u32 (i + 1))
is_named (uid_set has) snap i it = has (get_or 0 snap.uid_for_sid it.server_id)

-- The messages that forEachItem visits, with their sequence numbers, in its order.
unfoldable pub named_from : NumSet → MboxSnapshot → ℕ → List EmailItem → List (ℕ × EmailItem)
unfolding is_named
named_from set snap i [] = []
named_from set snap i (it ∷ its) =
    let rest = named_from set snap (suc i) its in
    if is_named set snap i it then (u32 (i + 1), it) ∷ rest else rest

unfoldable pub named_items : NumSet → MboxSnapshot → List (ℕ × EmailItem)
unfolding named_from
named_items set snap = named_from set snap 0 snap.items

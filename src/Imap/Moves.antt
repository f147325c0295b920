-- ===== src/Imap/Moves.antt =====
-- EXPUNGE and COPY of the IMAP server (imapd.go), both as MoveItems of the server and then as a move
-- in the state. The client is a parameter; the invalidated files of the message cache, the broadcast
-- to IDLE sessions and the synchronisation in the background are left out.
use eas_bridge.Prelude.{
  ℕ, ◌+◌, ◌-◌, zero, suc, String, Bool, false, not, Option, none, some, List, [], ◌∷◌, map, is_nil,
  is_empty, length, ltb, ◌==◌, if◌then◌else◌, ◌⊎◌, inl, inr,
}
use eas_bridge.Dict.{Dict, empty, get, put, get_or}
use eas_bridge.Eas.{EmailItem, no_email, Folder}
use eas_bridge.Eas.Uploads.{MoveItemResult}
use eas_bridge.Store.{u32}
use eas_bridge.Sync.Reads.{trash_folder_id}
use eas_bridge.Persist.Disk.{Host, Error, and_then}
use eas_bridge.Persist.Operations.{remove_items, add_moved_items}
use eas_bridge.Imap.Session.{MboxSnapshot, Session, refresh_snapshot, NumSet, named_items}

-- moveItemsStatusOK
abbrev pub move_items_status_ok : ℕ
move_items_status_ok = 3

-- The loop that fills dstIDOf.
unfoldable pub dst_id_of : Dict String → List MoveItemResult → Dict String
dst_id_of m [] = m
dst_id_of m (r ∷ rs) =
    dst_id_of
      (if r.status == move_items_status_ok then put m r.src_server_id r.dst_server_id else m) rs

pub record Victim : Type 0 where
  pub server_id : String
  pub seq : ℕ

-- `uids != nil && !uids.Contains(uid)`
unfoldable pub is_spared : Option (ℕ → Bool) → ℕ → Bool
is_spared none uid = false
is_spared (some has) uid = not (has uid)

-- The loop over the snapshot; `i` is the index of the first item of the list.
unfoldable pub victims_from : Option (ℕ → Bool) → MboxSnapshot → ℕ → List EmailItem → List Victim
unfolding is_spared
victims_from uids snap i [] = []
victims_from uids snap i (it ∷ its) =
    let rest = victims_from uids snap (suc i) its in
    if not (get_or false snap.deleted it.server_id)
    then rest
    else if is_spared uids (get_or 0 snap.uid_for_sid it.server_id)
    then rest
    else record { server_id = it.server_id; seq = u32 (i + 1) } ∷ rest

-- `snap.items[i]`; the zero item stands for the panic of an index out of range.
unfoldable pub item_at : ℕ → List EmailItem → EmailItem
item_at i [] = no_email
item_at zero (it ∷ its) = it
item_at (suc i) (it ∷ its) = item_at i its

-- Server IDs that went, their sequence numbers, and the items under their new IDs.
pub record Moved : Type 0 where
  pub ids : List String
  pub seqs : List ℕ
  pub items : List EmailItem

-- The ID in the target folder: the old one where the server gives none.
unfoldable pub new_id : String → String → String
new_id dst old = if is_empty dst then old else dst

unfoldable pub moved_victims : Dict String → MboxSnapshot → List Victim → Moved
unfolding item_at new_id
moved_victims dst snap [] = record { ids = []; seqs = []; items = [] }
moved_victims dst snap (v ∷ vs) =
    let rest = moved_victims dst snap vs in
    elim (get dst v.server_id) [
      | none ↦ rest
      | some d ↦ record {
        ids = v.server_id ∷ rest.ids;
        seqs = v.seq ∷ rest.seqs;
        items =
            record (item_at (v.seq - 1) snap.items) { server_id = new_id d v.server_id }
            ∷ rest.items;
      }
    ]

-- The items of the snapshot by their ID.
unfoldable pub item_by_id : Dict EmailItem → List EmailItem → Dict EmailItem
item_by_id m [] = m
item_by_id m (it ∷ its) = item_by_id (put m it.server_id it) its

unfoldable pub moved_ids : Dict String → Dict EmailItem → List String → Moved
unfolding new_id
moved_ids dst items [] = record { ids = []; seqs = []; items = [] }
moved_ids dst items (id ∷ ids) =
    let rest = moved_ids dst items ids in
    elim (get dst id) [
      | none ↦ rest
      | some d ↦ record rest {
        ids = id ∷ rest.ids;
        items = record (get_or no_email items id) { server_id = new_id d id } ∷ rest.items;
      }
    ]

pub data MoveError : Type 0 where
  not_selected : MoveError
  no_such_folder : MoveError
  no_trash : MoveError
  server_failed : MoveError
  all_refused : MoveError
  some_refused : MoveError
  not_stored : MoveError

-- removeItems, then addMovedItems, which moves the messages in the state.
unfoldable pub move_local : ℕ → String → String → Moved → Host → Error × Host
unfolding remove_items add_moved_items and_then
move_local now src dst m = and_then (remove_items src m.ids) (add_moved_items now dst m.items)

-- From the answer of MoveItems to the end of expungeMarked.
unfoldable pub settle_expunge :
    ℕ
    → String
    → Session
    → MboxSnapshot
    → List Victim
    → Option (List MoveItemResult)
    → Host
    → (MoveError ⊎ List ℕ) × Session × Host
unfolding dst_id_of moved_victims move_local refresh_snapshot
settle_expunge now trash sess snap vs none h = (inl server_failed, sess, h)
settle_expunge now trash sess snap vs (some results) h =
    let m = moved_victims (dst_id_of empty results) snap vs in
    if is_nil m.ids
    then (inl all_refused, sess, h)
    else let r = move_local now sess.selected trash m h in
      elim (r.0) [
        | some e ↦ (inl not_stored, sess, r.1)
        | none ↦ (inr m.seqs, refresh_snapshot (r.1).state sess, r.1)
      ]

-- From the answer of MoveItems to the end of Copy, for the IDs of the messages that it names; the answer
-- of a Copy that succeeds is nil.
unfoldable pub settle_copy :
    ℕ
    → String
    → Session
    → MboxSnapshot
    → List String
    → Option (List MoveItemResult)
    → Host
    → Option MoveError × Session × Host
unfolding dst_id_of item_by_id moved_ids move_local refresh_snapshot
settle_copy now dst sess snap ids none h = (some server_failed, sess, h)
settle_copy now dst sess snap ids (some results) h =
    let m = moved_ids (dst_id_of empty results) (item_by_id empty snap.items) ids in
    let refused = if ltb (length m.ids) (length ids) then some some_refused else none in
    if is_nil m.ids
    then (refused, sess, h)
    else let r = move_local now sess.selected dst m h in
      elim (r.0) [
        | some e ↦ (some not_stored, sess, r.1)
        | none ↦ (refused, refresh_snapshot (r.1).state sess, r.1)
      ]

module _ {W : Type 0}
    (move_items : String → String → List String → W → Option (List MoveItemResult) × W) where
  -- expungeMarked, with the guard of Expunge
  unfoldable pub expunge :
      ℕ → Option (ℕ → Bool) → Session → Host → W → ((MoveError ⊎ List ℕ) × Session × Host) × W
  unfolding victims_from trash_folder_id settle_expunge
  expunge now uids sess h w = elim (sess.snap) [
    | none ↦ ((inl not_selected, sess, h), w)
    | some snap ↦
        let vs = victims_from uids snap 0 snap.items in
        if is_nil vs then ((inr [], sess, h), w) else elim (trash_folder_id h.state.folders) [
          | none ↦ ((inl no_trash, sess, h), w)
          | some trash ↦
              let r = move_items sess.selected trash (map (λ v. v.server_id) vs) w in
              (settle_expunge now trash sess snap vs (r.0) h, r.1)
        ]
  ]

  -- Copy: `found` is the answer of findFolder.
  unfoldable pub copy :
      ℕ → NumSet → Option Folder → Session → Host → W → (Option MoveError × Session × Host) × W
  unfolding named_items settle_copy
  copy now set found sess h w = elim (sess.snap) [
    | none ↦ ((some not_selected, sess, h), w)
    | some snap ↦ elim found [
      | none ↦ ((some no_such_folder, sess, h), w)
      | some dst ↦
          let ids = map (λ e. (e.1).server_id) (named_items set snap) in
          if is_nil ids
          then ((none, sess, h), w)
          else let r = move_items sess.selected dst.server_id ids w in
            (settle_copy now dst.server_id sess snap ids (r.0) h, r.1)
    ]
  ]

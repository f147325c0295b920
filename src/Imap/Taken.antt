-- ===== src/Imap/Taken.antt =====
-- What EXPUNGE and COPY take out of the folder that is selected.
use eas_bridge.Prelude.{
  ℕ, String, ◌≡◌, ◌≢◌, refl, sym, ap, ◌∙◌, Bool, false, ◌&&◌, Option, none, some, List, map, arith,
  contains, is_nil, if◌then◌else◌, Bool-cases, Option-cases, inl, inr,
}
use eas_bridge.Dict.{empty}
use eas_bridge.Eas.{Folder}
use eas_bridge.Eas.Uploads.{MoveItemResult}
use eas_bridge.Store.Uids.{find_item}
use eas_bridge.Sync.Reads.{trash_folder_id}
use eas_bridge.Persist.Disk.{Host}
use eas_bridge.Persist.Marks.{mail}
use eas_bridge.Imap.Session.{MboxSnapshot, Session, NumSet, named_items}
use eas_bridge.Imap.Moves.{
  dst_id_of, Victim, victims_from, moved_victims, item_by_id, moved_ids, Moved, move_local,
  settle_expunge, settle_copy, expunge, copy,
}
use eas_bridge.Imap.Moved.{move_local_lem}
use eas_bridge.Imap.Confirmed.{
  is_confirmed, confirms, victim_ids, ids-moved_victims, ids-moved_ids, there-confirmed,
  none_listed, no_victims,
}

-- The messages of `ids` that the answer confirms are gone from the folder, the others as they were.
abbrev pub Taken :
    List String → Option (List MoveItemResult) → String → String → Host → Host → Type 0
Taken ids answer f id h h' =
    find_item id (mail f h'.state)
    ≡ (if contains id ids && confirms answer id then none else find_item id (mail f h.state))

none-Taken :
    (ids : List String) (answer : Option (List MoveItemResult)) (f id : String) (h : Host)
    → (contains id ids && confirms answer id) ≡ false
    → Taken ids answer f id h h
none-Taken ids answer f id h p = rw p refl

moved-Taken :
    (now : ℕ) (f dst : String) (m : Moved) (ids : List String) (rs : List MoveItemResult) (h : Host)
    (id : String)
    → dst ≢ f
    → contains id m.ids ≡ (contains id ids && is_confirmed id rs)
    → Taken ids (some rs) f id h ((move_local now f dst m h).1)
unfolding confirms
moved-Taken now f dst m ids rs h id other e =
    move_local_lem now f dst m h id other
    ∙ ap (λ b. if b then none else find_item id (mail f h.state)) e

module _ (now : ℕ) (dst : String) (sess : Session) (snap : MboxSnapshot)
    (other : dst ≢ sess.selected) (id : String) where
  settle_expunge-Taken :
      (vs : List Victim) (answer : Option (List MoveItemResult)) (h : Host)
      → Taken
          (victim_ids vs)
          answer
          sess.selected
          id
          h
          ((settle_expunge now dst sess snap vs answer h).2)
  unfolding settle_expunge confirms
  settle_expunge-Taken vs none h = none-Taken (victim_ids vs) none sess.selected id h (ground arith)
  settle_expunge-Taken vs (some rs) h =
      let m = moved_victims (dst_id_of empty rs) snap vs in
      let e : contains id m.ids ≡ (contains id (victim_ids vs) && is_confirmed id rs) =
        ids-moved_victims id (dst_id_of empty rs) snap vs
        ∙ ap (λ b. contains id (victim_ids vs) && b) (there-confirmed id rs) in
      elim (Bool-cases (is_nil m.ids)) [
        | inl p ↦
            rw (p, settle_expunge)
              (none-Taken (victim_ids vs) (some rs) sess.selected id h
                (sym e ∙ none_listed id m.ids p))
        | inr p ↦ elim (Option-cases (move_local now sess.selected dst m h).0) [
          | inl q ↦
              rw (p, q, settle_expunge)
                (moved-Taken now sess.selected dst m (victim_ids vs) rs h id other e)
          | inr (x, q) ↦
              rw (p, q, settle_expunge)
                (moved-Taken now sess.selected dst m (victim_ids vs) rs h id other e)
        ]
      ]

  settle_copy-Taken :
      (ids : List String) (answer : Option (List MoveItemResult)) (h : Host)
      → Taken ids answer sess.selected id h ((settle_copy now dst sess snap ids answer h).2)
  unfolding settle_copy confirms
  settle_copy-Taken ids none h = none-Taken ids none sess.selected id h (ground arith)
  settle_copy-Taken ids (some rs) h =
      let m = moved_ids (dst_id_of empty rs) (item_by_id empty snap.items) ids in
      let e : contains id m.ids ≡ (contains id ids && is_confirmed id rs) =
        ids-moved_ids id (dst_id_of empty rs) (item_by_id empty snap.items) ids
        ∙ ap (λ b. contains id ids && b) (there-confirmed id rs) in
      elim (Bool-cases (is_nil m.ids)) [
        | inl p ↦
            rw (p, settle_copy)
              (none-Taken ids (some rs) sess.selected id h (sym e ∙ none_listed id m.ids p))
        | inr p ↦ elim (Option-cases (move_local now sess.selected dst m h).0) [
          | inl q ↦ rw (p, q, settle_copy) (moved-Taken now sess.selected dst m ids rs h id other e)
          | inr (x, q) ↦
              rw (p, q, settle_copy) (moved-Taken now sess.selected dst m ids rs h id other e)
        ]
      ]

module _ {W : Type 0}
    (move_items : String → String → List String → W → Option (List MoveItemResult) × W) (now : ℕ)
    (sess : Session) (snap : MboxSnapshot) (h : Host) (w : W) (id : String)
    (selected : sess.snap ≡ some snap) where
  -- An EXPUNGE in a folder that is not the trash takes from it the marked messages that the server confirms, and
  -- leaves every other message as it was, whichever writes fail.
  pub expunge-Taken :
      (uids : Option (ℕ → Bool)) (trash : String)
      → trash_folder_id h.state.folders ≡ some trash
      → trash ≢ sess.selected
      → let ids = victim_ids (victims_from uids snap 0 snap.items) in
        Taken ids
          (move_items sess.selected trash ids w).0
          sess.selected
          id
          h
          ((expunge move_items now uids sess h w).0.2)
  unfolding expunge
  expunge-Taken uids trash has_trash other =
      let vs = victims_from uids snap 0 snap.items in
      let answer = (move_items sess.selected trash (victim_ids vs) w).0 in
      elim (Bool-cases (is_nil vs)) [
        | inl p ↦
            rw (selected, p, expunge)
              (none-Taken (victim_ids vs) answer sess.selected id h
                (ap (λ b. b && confirms answer id) (no_victims id vs p)))
        | inr p ↦
            rw (selected, p, has_trash, expunge)
              (settle_expunge-Taken now trash sess snap other id vs answer h)
      ]

  -- A COPY to another folder takes from the selected one the named messages that the server confirms, and
  -- leaves every other message of it as it was, whichever writes fail.
  pub copy-Taken :
      (set : NumSet) (dst : Folder)
      → dst.server_id ≢ sess.selected
      → let ids = map (λ e. (e.1).server_id) (named_items set snap) in
        Taken ids
          (move_items sess.selected dst.server_id ids w).0
          sess.selected
          id
          h
          ((copy move_items now set (some dst) sess h w).0.2)
  unfolding copy
  copy-Taken set dst other =
      let ids = map (λ e. (e.1).server_id) (named_items set snap) in
      let answer = (move_items sess.selected dst.server_id ids w).0 in
      elim (Bool-cases (is_nil ids)) [
        | inl p ↦
            rw (selected, p, copy)
              (none-Taken ids answer sess.selected id h
                (ap (λ b. b && confirms answer id) (none_listed id ids p)))
        | inr p ↦
            rw (selected, p, copy)
              (settle_copy-Taken now dst.server_id sess snap other id ids answer h)
      ]

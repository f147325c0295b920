-- ===== src/Imap/Flags.antt =====
-- STORE of the IMAP server (imapd.go): applyFlagMutations, with every write of the state and its
-- failure, and the push of the changes to the server, whose client is a parameter.
use eas_bridge.Prelude.{
  ℕ, String, Bool, true, false, Option, none, some, List, [], ◌∷◌, ◌++◌, str_eq, is_nil, ◌==◌,
  if◌then◌else◌,
}
use eas_bridge.Dict.{get_or}
use eas_bridge.Eas.{EmailItem}
use eas_bridge.Eas.Uploads.{EmailChange, no_change}
use eas_bridge.Persist.Disk.{Host, Error, save_main}
use eas_bridge.Persist.Operations.{mark_read, mark_unread, set_flagged, set_deleted}
use eas_bridge.Imap.Session.{MboxSnapshot, Session, NumSet, named_items}

-- flagsFrom
unfoldable pub flags_from : Bool → Bool → Bool → List String
flags_from read deleted flagged =
    (if read then "\\Seen" ∷ [] else [])
    ++ (if deleted then "\\Deleted" ∷ [] else [])
    ++ (if flagged then "\\Flagged" ∷ [] else [])

-- itemFlags
unfoldable pub item_flags : EmailItem → Bool → List String
unfolding flags_from
item_flags it deleted = flags_from it.read deleted (it.flag_status == 2)

pub data StoreOp : Type 0 where
  store_set : StoreOp
  store_add : StoreOp
  store_del : StoreOp

-- The branches of `switch storeFlags.Op`: FLAGS and +FLAGS are one case.
unfoldable pub sets : StoreOp → Bool
sets store_set = true
sets store_add = true
sets store_del = false

-- flagMutation
pub record FlagMutation : Type 0 where
  pub seq_num : ℕ
  pub uid : ℕ
  pub server_id : String
  pub flags : List String

-- The variables of the loop over the flags, with the changes collected so far.
pub record FlagState : Type 0 where
  pub read : Bool
  pub deleted : Bool
  pub flagged : Bool
  pub changes : List EmailChange
  pub host : Host

-- `if err := st.op(…); err != nil { return err }` and the assignments after it
unfoldable pub after_write : Error × Host → (Host → FlagState) → FlagState → Error × FlagState
after_write (some e, h) done st = (some e, record st { host = h })
after_write (none, h) done st = (none, done h)

module _ (f : String) (op : StoreOp) where
  unfoldable pub apply_seen : String → FlagState → Error × FlagState
  unfolding sets mark_read mark_unread after_write
  apply_seen id st =
      after_write (if sets op then mark_read f id st.host else mark_unread f id st.host)
        (λ h. record st {
          read = sets op;
          changes = st.changes ++ record (no_change id) { read = some (sets op) } ∷ [];
          host = h;
        })
        st

  unfoldable pub apply_flagged : String → FlagState → Error × FlagState
  unfolding sets set_flagged after_write
  apply_flagged id st =
      let code = if sets op then 2 else 0 in
      after_write (set_flagged f id (sets op) st.host)
        (λ h. record st {
          flagged = sets op;
          changes = st.changes ++ record (no_change id) { set_flag_status = some code } ∷ [];
          host = h;
        })
        st

  unfoldable pub apply_deleted : String → FlagState → Error × FlagState
  unfolding sets set_deleted after_write
  apply_deleted id st =
      after_write (set_deleted f id (sets op) st.host)
        (λ h. record st { deleted = sets op; host = h }) st

  -- one round of the loop over storeFlags.Flags
  unfoldable pub apply_flag : String → String → FlagState → Error × FlagState
  unfolding apply_seen apply_flagged apply_deleted
  apply_flag id flag st =
      if str_eq flag "\\Seen"
      then apply_seen id st
      else if str_eq flag "\\Flagged"
      then apply_flagged id st
      else if str_eq flag "\\Deleted"
      then apply_deleted id st
      else (none, st)

  unfoldable pub apply_flags : String → List String → FlagState → Error × FlagState
  unfolding apply_flag
  apply_flags id [] st = (none, st)
  apply_flags id (flag ∷ flags) st =
      let r = apply_flag id flag st in
      elim (r.0) [ some e ↦ (some e, r.1) | none ↦ apply_flags id flags (r.1) ]

-- What applyFlagMutations has gathered.
pub record Stored : Type 0 where
  pub changes : List EmailChange
  pub mutated : List FlagMutation
  pub host : Host

unfoldable pub start_flags : MboxSnapshot → EmailItem → Stored → FlagState
start_flags snap it acc = record {
  read = it.read;
  deleted = get_or false snap.deleted it.server_id;
  flagged = it.flag_status == 2;
  changes = acc.changes;
  host = acc.host;
}

-- `mutated = append(mutated, flagMutation{…})`
unfoldable pub with_mutation : MboxSnapshot → ℕ → EmailItem → FlagState → Stored → Stored
unfolding flags_from
with_mutation snap seq it t acc = record {
  changes = t.changes;
  mutated =
      acc.mutated
      ++ record {
        seq_num = seq;
        uid = get_or 0 snap.uid_for_sid it.server_id;
        server_id = it.server_id;
        flags = flags_from t.read t.deleted t.flagged;
      }
        ∷ [];
  host = t.host;
}

module _ (f : String) (op : StoreOp) (flags : List String) (snap : MboxSnapshot) where
  -- the function that forEachItem calls, over the messages it visits
  unfoldable pub apply_items : List (ℕ × EmailItem) → Stored → Error × Stored
  unfolding start_flags apply_flags with_mutation
  apply_items [] acc = (none, acc)
  apply_items ((seq, it) ∷ rest) acc =
      let r = apply_flags f op it.server_id flags (start_flags snap it acc) in
      let t = r.1 in
      elim (r.0) [
        | some e ↦ (some e, record acc { changes = t.changes; host = t.host })
        | none ↦ apply_items rest (with_mutation snap seq it t acc)
      ]

-- applyFlagMutations
unfoldable pub apply_flag_mutations :
    String → NumSet → StoreOp → List String → MboxSnapshot → Host → Error × Stored
unfolding named_items apply_items
apply_flag_mutations f set op flags snap h =
    apply_items f op flags snap (named_items set snap)
      (record { changes = []; mutated = []; host = h })

module _ {W : Type 0}
    (apply_email_changes : String → List EmailChange → Host → W → Bool × Host × W) where
  -- pushEmailChanges: a failure is only logged; the upload moves the sync key, which is then saved.
  unfoldable pub push_email_changes : String → List EmailChange → Host → W → Host × W
  unfolding save_main
  push_email_changes f changes h w =
      if is_nil changes
      then (h, w)
      else let r = apply_email_changes f changes h w in
        if r.0 then ((save_main (r.1)).1, r.2) else (r.1, r.2)

  -- Store: the responses, or an error; a writer that fails is left out.
  unfoldable pub store :
      Session → NumSet → StoreOp → List String → Host → W → Option (List FlagMutation) × Host × W
  unfolding apply_flag_mutations push_email_changes
  store sess set op flags h w = elim (sess.snap) [
    | none ↦ (none, h, w)
    | some snap ↦
        let r = apply_flag_mutations sess.selected set op flags snap h in
        elim (r.0) [
          | some e ↦ (none, (r.1).host, w)
          | none ↦
              let p = push_email_changes sess.selected (r.1).changes (r.1).host w in
              (some (r.1).mutated, p.0, p.1)
        ]
  ]

-- ===== src/Imap/Reports.antt =====
-- The responses of a STORE: the flags that applyFlagMutations hands back for each message.
use eas_bridge.Prelude.{
  ℕ, String, ◌≡◌, refl, sym, ◌∙◌, Bool, true, false, ◌&&◌, ◌||◌, none, List, [], ◌∷◌, ◌++◌, map,
  arith, str_eq, contains, if◌then◌else◌, Option-cases, inl, inr, ◌==◌,
}
use mathlib.Core.List.{append_assoc, append-nil}
use eas_bridge.Dict.{get_or}
use eas_bridge.Eas.{EmailItem}
use eas_bridge.Persist.Disk.{Host, Error}
use eas_bridge.Imap.Session.{MboxSnapshot, NumSet, named_items}
use eas_bridge.Imap.Flags.{
  StoreOp, sets, flags_from, FlagMutation, FlagState, apply_seen, apply_flagged, apply_deleted,
  apply_flag, apply_flags, Stored, apply_items, start_flags, with_mutation, apply_flag_mutations,
}
use eas_bridge.Imap.Stored.{done-after_write, only_one}

-- The three marks that the loop keeps for the response: which of them are set to `on`.
abbrev Shown : Bool → Bool → Bool → Bool → FlagState → FlagState → Type 0
Shown on d r g st t =
    (t.deleted ≡ (if d then on else st.deleted))
    × (t.read ≡ (if r then on else st.read))
    × (t.flagged ≡ (if g then on else st.flagged))

compose-Shown :
    (on d r g d' r' g' : Bool) (s t u : FlagState)
    → Shown on d r g s t
    → Shown on d' r' g' t u
    → Shown on (d || d') (r || r') (g || g') s u
compose-Shown on d r g d' r' g' s t u p q = ground (arith, p.0, p.1, p.2, q.0, q.1, q.2)

dispatch-Shown :
    (on a b c : Bool) (st : FlagState) (x y z : Error × FlagState)
    → (a && b ≡ false) × (a && c ≡ false) × (b && c ≡ false)
    → (x.0 ≡ none → Shown on false true false st (x.1))
    → (y.0 ≡ none → Shown on false false true st (y.1))
    → (z.0 ≡ none → Shown on true false false st (z.1))
    → (if a then x else if b then y else if c then z else (none, st)).0 ≡ none
    → Shown on c a b st (if a then x else if b then y else if c then z else (none, st)).1
dispatch-Shown on true true c st x y z (p, _, _) ex ey ez ok = cc
dispatch-Shown on true false true st x y z (_, p, _) ex ey ez ok = cc
dispatch-Shown on true false false st x y z p ex ey ez ok = ex ok
dispatch-Shown on false true true st x y z (_, _, p) ex ey ez ok = cc
dispatch-Shown on false true false st x y z p ex ey ez ok = ey ok
dispatch-Shown on false false true st x y z p ex ey ez ok = ez ok
dispatch-Shown on false false false st x y z p ex ey ez ok = (refl, refl, refl)

module _ (f : String) (op : StoreOp) where
  apply_flag-Shown :
      (id flag : String) (st : FlagState)
      → (apply_flag f op id flag st).0 ≡ none
      → Shown
          (sets op)
          (str_eq flag "\\Deleted")
          (str_eq flag "\\Seen")
          (str_eq flag "\\Flagged")
          st
          (apply_flag f op id flag st).1
  unfolding apply_flag apply_seen apply_flagged apply_deleted
  apply_flag-Shown id flag st ok =
      dispatch-Shown (sets op) (str_eq flag "\\Seen") (str_eq flag "\\Flagged")
        (str_eq flag "\\Deleted") st _ _ _
        (
          only_one flag "\\Seen" "\\Flagged" refl,
          only_one flag "\\Seen" "\\Deleted" refl,
          only_one flag "\\Flagged" "\\Deleted" refl,
        )
        (λ q. rw (done-after_write _ _ st q) (refl, refl, refl))
        (λ q. rw (done-after_write _ _ st q) (refl, refl, refl))
        (λ q. rw (done-after_write _ _ st q) (refl, refl, refl)) ok

  apply_flags-Shown :
      (id : String) (flags : List String) (st : FlagState)
      → (apply_flags f op id flags st).0 ≡ none
      → Shown
          (sets op)
          (contains "\\Deleted" flags)
          (contains "\\Seen" flags)
          (contains "\\Flagged" flags)
          st
          (apply_flags f op id flags st).1
  unfolding apply_flags
  apply_flags-Shown id [] st ok = (refl, refl, refl)
  apply_flags-Shown id (flag ∷ flags) st ok = elim (Option-cases (apply_flag f op id flag st).0) [
    | inr (e, p) ↦ absurd (cc (rw (p, apply_flags) at ok))
    | inl p ↦
        let t = (apply_flag f op id flag st).1 in
        rw (p, apply_flags)
          (compose-Shown (sets op) _ _ _ _ _ _ st t (apply_flags f op id flags t).1
            (apply_flag-Shown id flag st p)
            (apply_flags-Shown id flags t (rw (p, apply_flags) at ok)))
  ]

module _ (f : String) (op : StoreOp) (flags : List String) (snap : MboxSnapshot) where
  -- The response for a message, from its snapshot.
  unfoldable pub report_of : ℕ × EmailItem → FlagMutation
  unfolding sets flags_from
  report_of (seq, it) = record {
    seq_num = seq;
    uid = get_or 0 snap.uid_for_sid it.server_id;
    server_id = it.server_id;
    flags =
        flags_from (if contains "\\Seen" flags then sets op else it.read)
          (if contains "\\Deleted" flags then sets op else get_or false snap.deleted it.server_id)
          (if contains "\\Flagged" flags then sets op else it.flag_status == 2);
  }

  mutated-apply_items :
      (l : List (ℕ × EmailItem)) (acc : Stored)
      → (apply_items f op flags snap l acc).0 ≡ none
      → (apply_items f op flags snap l acc).1.mutated ≡ acc.mutated ++ map report_of l
  unfolding apply_items start_flags with_mutation report_of
  mutated-apply_items [] acc ok = sym (append-nil acc.mutated)
  mutated-apply_items ((seq, it) ∷ l) acc ok =
      let st = start_flags snap it acc in
      let r = apply_flags f op it.server_id flags st in
      elim (Option-cases (r.0)) [
        | inr (e, p) ↦ absurd (cc (rw (p, apply_items) at ok))
        | inl p ↦
            let shown = apply_flags-Shown f op it.server_id flags st p in
            rw (p, apply_items)
              (mutated-apply_items l (with_mutation snap seq it (r.1) acc)
                  (rw (p, apply_items) at ok)
                ∙ rw (shown.0, shown.1, shown.2) (append_assoc acc.mutated _ _))
      ]

  -- Where the writes of a STORE succeed, it reports the messages that it names, in the order of the
  -- mailbox, each with its UID and the marks that it had in the snapshot, those that the command lists
  -- set or cleared.
  pub mutated-apply_flag_mutations :
      (set : NumSet) (h : Host)
      → (apply_flag_mutations f set op flags snap h).0 ≡ none
      → (apply_flag_mutations f set op flags snap h).1.mutated
        ≡ map report_of (named_items set snap)
  unfolding apply_flag_mutations
  mutated-apply_flag_mutations set h ok =
      mutated-apply_items (named_items set snap) (record { changes = []; mutated = []; host = h })
        ok

-- ===== src/Imap/Stored.antt =====
-- What a STORE leaves in the state of the folder, message by message.
use eas_bridge.Prelude.{
  ℕ, String, ◌≡◌, refl, Bool, true, false, ◌&&◌, ◌||◌, Option, none, some, List, [], ◌∷◌, arith,
  str_eq, eq_iff, eq_refl, sym, ap, ◌∙◌, subst, contains, if◌then◌else◌, Option-cases, inl, inr,
}
use eas_bridge.Eas.{EmailItem}
use eas_bridge.Store.{DiskState}
use eas_bridge.Store.Uids.{find_item}
use eas_bridge.Persist.Disk.{Host, Error, save_folder}
use eas_bridge.Persist.Operations.{
  is_deleted, change_item, set_deleted, mark_read, mark_unread, set_flagged,
}
use eas_bridge.Persist.Marks.{
  mail, find_item-change_item, is_deleted-change_item, mail-set_deleted, is_deleted-set_deleted,
}
use eas_bridge.Imap.Flags.{
  StoreOp, sets, FlagState, after_write, apply_seen, apply_flagged, apply_deleted, apply_flag,
  apply_flags,
}

unfoldable pub code_of : Bool → ℕ
code_of on = if on then 2 else 0

-- A message with its read mark and its flag set to `on`, where `r` and `g` say so.
unfoldable pub with_marks : Bool → Bool → Bool → EmailItem → EmailItem
unfolding code_of
with_marks on r g it = record it {
  read = if r then on else it.read;
  flag_status = if g then code_of on else it.flag_status;
}

unfoldable pub marked : Bool → Bool → Bool → Option EmailItem → Option EmailItem
unfolding with_marks
marked on r g none = none
marked on r g (some it) = some (with_marks on r g it)

-- What happens to the message `k` from `s` to `t`: `d`, `r` and `g` say whether its \Deleted mark, its
-- read mark and its flag are set to `on`; all else of the message stays.
unfoldable pub Effect : String → Bool → Bool → Bool → Bool → String → DiskState → DiskState → Type 0
unfolding marked
Effect f on d r g k s t =
    (is_deleted f k t ≡ (if d then on else is_deleted f k s))
    × (find_item k (mail f t) ≡ marked on r g (find_item k (mail f s)))

marked_twice :
    (on r g r' g' : Bool) (o : Option EmailItem)
    → marked on r' g' (marked on r g o) ≡ marked on (r || r') (g || g') o
unfolding marked
marked_twice on r g r' g' none = refl
marked_twice on true true true true (some it) = refl
marked_twice on true true true false (some it) = refl
marked_twice on true true false true (some it) = refl
marked_twice on true true false false (some it) = refl
marked_twice on true false true true (some it) = refl
marked_twice on true false true false (some it) = refl
marked_twice on true false false true (some it) = refl
marked_twice on true false false false (some it) = refl
marked_twice on false true true true (some it) = refl
marked_twice on false true true false (some it) = refl
marked_twice on false true false true (some it) = refl
marked_twice on false true false false (some it) = refl
marked_twice on false false true true (some it) = refl
marked_twice on false false true false (some it) = refl
marked_twice on false false false true (some it) = refl
marked_twice on false false false false (some it) = refl

unmarked : (on : Bool) (o : Option EmailItem) → o ≡ marked on false false o
unfolding marked
unmarked on none = refl
unmarked on (some it) = refl

pub compose-Effect :
    (f : String) (on d r g d' r' g' : Bool) (k : String) (s t u : DiskState)
    → Effect f on d r g k s t
    → Effect f on d' r' g' k t u
    → Effect f on (d || d') (r || r') (g || g') k s u
unfolding Effect
compose-Effect f on d r g d' r' g' k s t u p q = (
  ground (arith, p.0, q.0),
  q.1 ∙ ap (marked on r' g') (p.1) ∙ marked_twice on r g r' g' (find_item k (mail f s)),
)

pub cast-Effect :
    (f : String) (on : Bool) (k : String) (s t : DiskState) {d r g d' r' g' : Bool}
    → d ≡ d'
    → r ≡ r'
    → g ≡ g'
    → Effect f on d r g k s t
    → Effect f on d' r' g' k s t
cast-Effect f on k s t p q w e = rw (sym p, sym q, sym w) e

distribute : (a b e : Bool) → ((a && e) || (b && e)) ≡ ((a || b) && e)
distribute a b e = ground arith

pub gather : (a d e : Bool) → ((a && d) || (a && e)) ≡ (a && (d || e))
gather a d e = ground arith

pub same-Effect :
    (f : String) (on : Bool) (k : String) (s : DiskState) → Effect f on false false false k s s
unfolding Effect
same-Effect f on k s = (refl, unmarked on (find_item k (mail f s)))

pub done-after_write :
    (r : Error × Host) (done : Host → FlagState) (st : FlagState)
    → (after_write r done st).0 ≡ none
    → (after_write r done st).1 ≡ done (r.1)
unfolding after_write
done-after_write (some e, h) done st p = cc
done-after_write (none, h) done st p = refl

abbrev changed : (EmailItem → EmailItem) → Bool → Option EmailItem → Option EmailItem
changed g here o = if here then elim o [ none ↦ none | some it ↦ some (g it) ] else o

changed_read :
    (on here : Bool) (o : Option EmailItem)
    → changed (λ it. record it { read = on }) here o ≡ marked on here false o
unfolding marked
changed_read on here none = ground arith
changed_read on true (some it) = refl
changed_read on false (some it) = refl

changed_flag :
    (on here : Bool) (o : Option EmailItem)
    → changed (λ it. record it { flag_status = code_of on }) here o ≡ marked on false here o
unfolding marked
changed_flag on here none = ground arith
changed_flag on true (some it) = refl
changed_flag on false (some it) = refl

abbrev changing : String → String → Host → (EmailItem → EmailItem) → Error × Host
changing f id h g = save_folder f (record h { state = change_item g f id h.state })

marked-read :
    (f id : String) (on : Bool) (h : Host)
    → (if on then mark_read f id h else mark_unread f id h)
      ≡ changing f id h (λ it. record it { read = on })
unfolding mark_read mark_unread
marked-read f id true h = refl
marked-read f id false h = refl

module _ (f id k : String) (on : Bool) (h : Host) where
  read-Effect :
      Effect f on false
        (str_eq id k)
        false
        k
        h.state
        ((changing f id h (λ it. record it { read = on })).1).state
  unfolding Effect
  read-Effect =
      let g : EmailItem → EmailItem = λ it. record it { read = on } in
      (
        is_deleted-change_item g f id k h,
        find_item-change_item g f id k h (λ it. refl)
            ∙ changed_read on (str_eq id k) (find_item k (mail f h.state)),
      )

  flag-Effect :
      Effect f on false false
        (str_eq id k)
        k
        h.state
        ((changing f id h (λ it. record it { flag_status = code_of on })).1).state
  unfolding Effect
  flag-Effect =
      let g : EmailItem → EmailItem = λ it. record it { flag_status = code_of on } in
      (
        is_deleted-change_item g f id k h,
        find_item-change_item g f id k h (λ it. refl)
            ∙ changed_flag on (str_eq id k) (find_item k (mail f h.state)),
      )

  set_deleted-Effect :
      Effect f on (str_eq id k) false false k h.state ((set_deleted f id on h).1).state
  unfolding Effect
  set_deleted-Effect = (
    is_deleted-set_deleted f id on h f k ∙ own_folder,
    ap (find_item k) (mail-set_deleted f id on h) ∙ unmarked on (find_item k (mail f h.state)),
  )
    where
      own_folder :
          (if str_eq f f && str_eq id k then on else is_deleted f k h.state)
          ≡ (if str_eq id k then on else is_deleted f k h.state)
      own_folder = rw (eq_refl f) refl

pub only_one : (flag s t : String) → str_eq s t ≡ false → (str_eq flag s && str_eq flag t) ≡ false
only_one flag s t h = ground (arith, eq_iff flag s)

module _ (f : String) (op : StoreOp) (id k : String) (st : FlagState) where
  -- The effect of one flag for the message `id` on the message `k`.
  abbrev FlagEffect : Bool → Bool → Bool → FlagState → Type 0
  FlagEffect d r g after =
      Effect f (sets op) (d && str_eq id k) (r && str_eq id k) (g && str_eq id k) k st.host.state
        after.host.state

  apply_seen-Effect :
      (apply_seen f op id st).0 ≡ none → FlagEffect false true false (apply_seen f op id st).1
  unfolding apply_seen
  apply_seen-Effect ok =
      subst (FlagEffect false true false) (sym (done-after_write _ _ st ok))
        (rw (marked-read f id (sets op) st.host) (read-Effect f id k (sets op) st.host))

  apply_flagged-Effect :
      (apply_flagged f op id st).0 ≡ none → FlagEffect false false true (apply_flagged f op id st).1
  unfolding apply_flagged set_flagged code_of
  apply_flagged-Effect ok =
      subst (FlagEffect false false true) (sym (done-after_write _ _ st ok))
        (flag-Effect f id k (sets op) st.host)

  apply_deleted-Effect :
      (apply_deleted f op id st).0 ≡ none → FlagEffect true false false (apply_deleted f op id st).1
  unfolding apply_deleted
  apply_deleted-Effect ok =
      subst (FlagEffect true false false) (sym (done-after_write _ _ st ok))
        (set_deleted-Effect f id k (sets op) st.host)

  dispatch-Effect :
      (a b c : Bool) (x y z : Error × FlagState)
      → (a && b ≡ false) × (a && c ≡ false) × (b && c ≡ false)
      → (x.0 ≡ none → FlagEffect false true false (x.1))
      → (y.0 ≡ none → FlagEffect false false true (y.1))
      → (z.0 ≡ none → FlagEffect true false false (z.1))
      → (if a then x else if b then y else if c then z else (none, st)).0 ≡ none
      → FlagEffect c a b (if a then x else if b then y else if c then z else (none, st)).1
  dispatch-Effect true true c x y z (p, _, _) ex ey ez ok = cc
  dispatch-Effect true false true x y z (_, p, _) ex ey ez ok = cc
  dispatch-Effect true false false x y z p ex ey ez ok = ex ok
  dispatch-Effect false true true x y z (_, _, p) ex ey ez ok = cc
  dispatch-Effect false true false x y z p ex ey ez ok = ey ok
  dispatch-Effect false false true x y z p ex ey ez ok = ez ok
  dispatch-Effect false false false x y z p ex ey ez ok = same-Effect f (sets op) k st.host.state

  apply_flag-Effect :
      (flag : String)
      → (apply_flag f op id flag st).0 ≡ none
      → FlagEffect
          (str_eq flag "\\Deleted")
          (str_eq flag "\\Seen")
          (str_eq flag "\\Flagged")
          (apply_flag f op id flag st).1
  unfolding apply_flag
  apply_flag-Effect flag ok =
      dispatch-Effect (str_eq flag "\\Seen") (str_eq flag "\\Flagged") (str_eq flag "\\Deleted") _ _
        _
        (
          only_one flag "\\Seen" "\\Flagged" refl,
          only_one flag "\\Seen" "\\Deleted" refl,
          only_one flag "\\Flagged" "\\Deleted" refl,
        )
        apply_seen-Effect apply_flagged-Effect apply_deleted-Effect ok

module _ (f : String) (op : StoreOp) (k : String) where
  pub apply_flags-Effect :
      (id : String) (flags : List String) (st : FlagState)
      → (apply_flags f op id flags st).0 ≡ none
      → Effect f
          (sets op)
          (contains "\\Deleted" flags && str_eq id k)
          (contains "\\Seen" flags && str_eq id k)
          (contains "\\Flagged" flags && str_eq id k)
          k
          st.host.state
          (apply_flags f op id flags st).1.host.state
  unfolding apply_flags
  apply_flags-Effect id [] st ok = same-Effect f (sets op) k st.host.state
  apply_flags-Effect id (flag ∷ flags) st ok = elim (Option-cases (apply_flag f op id flag st).0) [
    | inr (e, p) ↦ absurd (failing p ok)
    | inl p ↦
        let t = (apply_flag f op id flag st).1 in
        rw (p, apply_flags)
          (cast-Effect f (sets op) k st.host.state _
            (distribute (str_eq flag "\\Deleted") (contains "\\Deleted" flags) (str_eq id k))
            (distribute (str_eq flag "\\Seen") (contains "\\Seen" flags) (str_eq id k))
            (distribute (str_eq flag "\\Flagged") (contains "\\Flagged" flags) (str_eq id k))
            (compose-Effect f (sets op) _ _ _ _ _ _ k st.host.state t.host.state _
              (apply_flag-Effect f op id k st flag p) (apply_flags-Effect id flags t (rest p ok))))
  ]
    where
      failing :
          {e : String}
          → (apply_flag f op id flag st).0 ≡ some e
          → (apply_flags f op id (flag ∷ flags) st).0 ≡ none
          → ⊥
      failing p ok = cc (rw (p, apply_flags) at ok)

      rest :
          (apply_flag f op id flag st).0 ≡ none
          → (apply_flags f op id (flag ∷ flags) st).0 ≡ none
          → (apply_flags f op id flags (apply_flag f op id flag st).1).0 ≡ none
      rest p ok = rw (p, apply_flags) at ok

-- ===== src/Store/Uids/Stability.antt =====
-- The theorems on `assignUIDs` (state.go) that its clients use: about known and new mail, the returned
-- list, the other folders and UIDVALIDITY.
use eas_bridge.Prelude.{
  ℕ, ◌+◌, ◌≤◌, String, ◌≡◌, ◌≢◌, ◌∙◌, ap, refl, none, some, List, [], ◌∷◌, map, arith, subst,
  eq_iff, if◌then◌else◌, contains, Option-cases, inl, inr, true, ◌==◌,
}
use mathlib.Core.List.{Perm}
use mathlib.Core.List.Perm
use eas_bridge.Dict.{get, get_or-put_self, get-put_ne}
use eas_bridge.Eas.{EmailItem}
use eas_bridge.Store.{DiskState, UidEntry, no_meta, u32}
use eas_bridge.Store.Uids.{
  tag, sort_tagged, init_meta, folder_alloc, assign_uids, find_uid, uid_for_server_id, find_sid,
  server_id_for_uid, uid_validity,
}
use eas_bridge.Store.Uids.Table.{
  Ascending, Below, IsOrdered, ids, uid_of, uid_of-le, find_uid-uid_of,
}
use eas_bridge.Store.Uids.Sorting.{sort-perm}
use eas_bridge.Store.Uids.Allocation.{server_ids}
use eas_bridge.Store.Uids.Tagging.{map_item-tag}
use eas_bridge.Store.Uids.Assignment.{
  table, next_of, HasRoom, s', done, ids-assign, get-start, start-Below, next-le-start,
  done-Extends, uid_of-assign, done_covers,
}

uid_of-find_uid :
    (k : String) (es : List UidEntry) → find_uid k es ≢ 0 → uid_of k es ≡ some (find_uid k es)
unfolding find_uid uid_of
uid_of-find_uid k [] h = absurd (h refl)
uid_of-find_uid k (e ∷ es) h = ground (arith, uid_of-find_uid k es)

uid_of-none :
    (k : String) (es : List UidEntry) → Ascending 1 es → find_uid k es ≡ 0 → uid_of k es ≡ none
unfolding find_uid
uid_of-none k es a h = elim (Option-cases (uid_of k es)) [
  | inl e ↦ e
  | inr (u, e) ↦ absurd (omega (arith, find_uid-uid_of k es u e, uid_of-le k es 1 u a e))
]

below_of_find : (es : List UidEntry) (a b : ℕ) → a ≤ b → Below a es → Below b es
below_of_find [] a b h p = tt
below_of_find (e ∷ es) a b h p = (omega arith, below_of_find es a b h p.1)

module _ (now : ℕ) (f : String) (items : List EmailItem) (s : DiskState)
    (ordered : IsOrdered (table f s)) (room : HasRoom now f items s) (k : String)
    (here : contains k (server_ids items) ≡ true) where
  -- Where the old table is in order and the counter has room for the batch, a message of the batch that
  -- had a UID has the same UID afterwards, also when the stored counter was older than the table.
  pub assign-keeps :
      uid_for_server_id f k s ≢ 0
      → uid_for_server_id f k (assign_uids now f items s).1 ≡ uid_for_server_id f k s
  unfolding uid_for_server_id s'
  assign-keeps known =
      let u = find_uid k (table f s) in
      let old = uid_of-find_uid k (table f s) known in
      find_uid-uid_of k (table f (s' now f items s)) u (
        uid_of-assign now f items s ordered room k here
        ∙ (done-Extends now f items s ordered room).keeps k u
            (get-start now f items s k ordered.distinct ∙ old))

  -- Where the old table is in order and the counter has room for the batch, a message of the batch that
  -- had no UID gets one that is at least the stored counter and above every UID of the old table.
  pub assign_fresh :
      uid_for_server_id f k s ≡ 0
      → (next_of f s ≤ uid_for_server_id f k (assign_uids now f items s).1)
        × Below (uid_for_server_id f k (assign_uids now f items s).1) (table f s)
  unfolding uid_for_server_id s'
  assign_fresh new = elim (Option-cases (get (done now f items s).sid_map k)) [
    | inl missing ↦ absurd (done_covers now f items s ordered room k here missing)
    | inr (u, found) ↦
        let at_least =
          (done-Extends now f items s ordered room).fresh k u
            (get-start now f items s k ordered.distinct
              ∙ uid_of-none k (table f s) ordered.ascending new)
            found in
        let e =
          find_uid-uid_of k (table f (s' now f items s)) u
            (uid_of-assign now f items s ordered room k here ∙ found) in
        rw e (
          omega (arith, at_least, next-le-start now f items s ordered room),
          below_of_find (table f s) _ _ at_least (start-Below now f items s ordered room),
        )
  ]

module _ (now : ℕ) (f : String) (items : List EmailItem) (s : DiskState) where
  -- The returned list is the batch, in the order of the rows of the new table.
  pub assign-perm :
      Perm (assign_uids now f items s).0 items
      × (ids (table f (assign_uids now f items s).1) ≡ server_ids (assign_uids now f items s).0)
  unfolding assign_uids s'
  assign-perm =
      let m = (folder_alloc now f items s).sid_map in
      (
        subst (λ l. Perm (map (λ t. t.item) (sort_tagged (tag m items))) l) (map_item-tag m items)
            (Perm.map (λ t. t.item) (sort-perm (tag m items))),
        ids-assign now f items s,
      )

  -- The UID tables, counters and validities of the other folders stay as they were.
  pub assign_frame :
      (g : String)
      → f ≢ g
      → (get (assign_uids now f items s).1.uids g ≡ get s.uids g)
        × (get (assign_uids now f items s).1.folder_meta g ≡ get s.folder_meta g)
  unfolding assign_uids
  assign_frame g n = (get-put_ne s.uids f g _ n, get-put_ne s.folder_meta f g _ n)

  -- UIDVALIDITY keeps its value; where it was 0, it is set to the clock, as a `uint32`.
  pub uid_validity-assign :
      uid_validity f (assign_uids now f items s).1
      ≡ (if uid_validity f s == 0 then u32 now else uid_validity f s)
  unfolding assign_uids uid_validity init_meta
  uid_validity-assign = ap (λ m. m.uid_validity) (get_or-put_self no_meta s.folder_meta f _)

module _ (f k : String) (s : DiskState) where
  find_sid_of :
      (lo : ℕ) (es : List UidEntry)
      → Ascending lo es
      → find_uid k es ≢ 0
      → find_sid (find_uid k es) es ≡ some k
  unfolding find_sid find_uid
  find_sid_of lo [] a h = absurd (h refl)
  find_sid_of lo (e ∷ es) a h = ground (
    arith,
    eq_iff e.server_id k,
    find_sid_of (e.uid + 1) es a.1,
    uid_of-find_uid k es,
    uid_of-le k es (e.uid + 1) (find_uid k es) a.1,
  )

  -- In an ordered table, the lookup of a message's UID and then of the message with that UID gives the
  -- message back, where it has a UID.
  pub server_id-uid :
      IsOrdered (table f s)
      → uid_for_server_id f k s ≢ 0
      → server_id_for_uid f (uid_for_server_id f k s) s ≡ k
  unfolding uid_for_server_id server_id_for_uid
  server_id-uid o h = ground (arith, find_sid_of 1 (table f s) o.ascending h)

-- ===== src/Store/Uids/Assignment.antt =====
-- `assignUIDs` as a whole, on the UID table of its folder.
use eas_bridge.Prelude.{
  Distinct, ℕ, ◌+◌, ◌≤◌, ◌<◌, ◌-◌, ◌^◌, String, ◌≡◌, ◌≢◌, ◌∙◌, ap, sym, none, List, [], arith,
  contains, length, true,
}
use eas_bridge.Dict.{get, get_or-put_self, get_or, empty, get-empty}
use eas_bridge.Eas.{EmailItem}
use eas_bridge.Store.{DiskState, UidEntry, FolderMeta, no_meta}
use eas_bridge.Store.Uids.{
  Alloc, Tagged, init_meta, raise_next, start_alloc, folder_alloc, tag, sort_tagged, assign_uids,
}
use eas_bridge.Store.Uids.Table.{
  Below, IsOrdered, ids, uid_of, uid_of-le, uid_of-lt, uid_of-inj, get-sid_map_of, raise_next-le,
  raise_next-Below,
}
use eas_bridge.Store.Uids.Sorting.{
  entries, sort-Ascending, contains-sort, sort-Distinct, Agrees, sort-Agrees, uid_of-Agrees,
}
use eas_bridge.Store.Uids.Allocation.{
  IsGood, Extends, allocate-IsGood, allocate-Extends, allocate_covers, server_ids,
}
use eas_bridge.Store.Uids.Tagging.{
  contains-tag, tag-Distinct, tag-Agrees, ids-entries, Agrees-AtLeast, Agrees-Below,
  Agrees-DistinctUids,
}

-- The UID table and the counter of a folder.
abbrev pub table : String → DiskState → List UidEntry
table f s = get_or [] s.uids f

abbrev pub next_of : String → DiskState → ℕ
next_of f s = (get_or no_meta s.folder_meta f).next_uid

-- The `uint32` counter does not wrap while the batch is served.
pub record HasRoom (now : ℕ) (f : String) (items : List EmailItem) (s : DiskState) : Type 0 where
  pub stored : Below (2 ^ 32 - 1) (table f s)
  pub counter :
      raise_next (init_meta now (get_or no_meta s.folder_meta f)).next_uid (table f s)
        + length items
      < 2 ^ 32

init_meta_pos :
    (now : ℕ) (m : FolderMeta)
    → (1 ≤ (init_meta now m).next_uid) × (m.next_uid ≤ (init_meta now m).next_uid)
unfolding init_meta
init_meta_pos now m = ground arith

module _ (now : ℕ) (f : String) (items : List EmailItem) (s : DiskState) where
  pub start : Alloc
  start = start_alloc (init_meta now (get_or no_meta s.folder_meta f)) (table f s)

  pub done : Alloc
  done = folder_alloc now f items s

  pub rows : List Tagged
  unfolding done
  rows = sort_tagged (tag done.sid_map items)

  unfoldable pub s' : DiskState
  s' = (assign_uids now f items s).1

  pub table-assign : table f s' ≡ entries rows
  unfolding s' assign_uids rows
  table-assign = get_or-put_self [] s.uids f (entries rows)

  pub ids-assign : ids (table f s') ≡ server_ids (assign_uids now f items s).0
  unfolding assign_uids rows
  ids-assign = ap ids table-assign ∙ ids-entries rows

  pub next-assign : next_of f s' ≡ done.next_uid
  unfolding s' assign_uids done
  next-assign = ap (λ m. m.next_uid) (get_or-put_self no_meta s.folder_meta f _)

  pub get-start :
      (k : String) → Distinct (ids (table f s)) → get start.sid_map k ≡ uid_of k (table f s)
  unfolding start start_alloc
  get-start k d = ground (arith, get-sid_map_of (table f s) empty k d, get-empty {V = ℕ} k)

  module _ (ordered : IsOrdered (table f s)) (room : HasRoom now f items s) where
    pub start-Below : Below start.next_uid (table f s)
    unfolding start start_alloc
    start-Below = raise_next-Below (table f s) _ room.stored

    pub next-le-start : next_of f s ≤ start.next_uid
    unfolding start start_alloc
    next-le-start = omega (
      arith,
      init_meta_pos now (get_or no_meta s.folder_meta f),
      raise_next-le (table f s) (init_meta now (get_or no_meta s.folder_meta f)).next_uid
          room.stored,
    )

    pub start-pos : 1 ≤ start.next_uid
    unfolding start start_alloc
    start-pos = omega (
      arith,
      init_meta_pos now (get_or no_meta s.folder_meta f),
      raise_next-le (table f s) (init_meta now (get_or no_meta s.folder_meta f)).next_uid
          room.stored,
    )

    start-IsGood : IsGood start
    start-IsGood = record {
      inj = λ k j u p q.
          uid_of-inj k j (table f s) 1 u ordered.ascending (sym (get-start k ordered.distinct) ∙ p)
            (sym (get-start j ordered.distinct) ∙ q);
      low = λ k u p.
          uid_of-le k (table f s) 1 u ordered.ascending (sym (get-start k ordered.distinct) ∙ p);
      high = λ k u p.
          uid_of-lt k (table f s) start.next_uid u start-Below
            (sym (get-start k ordered.distinct) ∙ p);
      pos = start-pos;
    }

    room-start : start.next_uid + length items < 2 ^ 32
    unfolding start start_alloc
    room-start = room.counter

    pub done-IsGood : IsGood done
    unfolding done folder_alloc start
    done-IsGood = allocate-IsGood items start room-start start-IsGood

    pub done-Extends : Extends start done
    unfolding done folder_alloc start
    done-Extends = allocate-Extends items start room-start

    pub done_covers :
        (k : String) → contains k (server_ids items) ≡ true → get done.sid_map k ≢ none
    unfolding done folder_alloc start
    done_covers k h = allocate_covers items start k room-start h

    rows-Agrees : Agrees done.sid_map (entries rows)
    unfolding rows
    rows-Agrees =
        sort-Agrees done.sid_map (tag done.sid_map items)
          (tag-Agrees done.sid_map items (λ k h. done_covers k h))

    -- Where the batch has the server ID, the new table gives what the reverse table gives.
    pub uid_of-assign :
        (k : String)
        → contains k (server_ids items) ≡ true
        → uid_of k (table f s') ≡ get done.sid_map k
    unfolding rows
    uid_of-assign k h = rw table-assign (
        uid_of-Agrees done.sid_map (entries rows) k rows-Agrees
        ∙ ground
            (arith, contains-sort k (tag done.sid_map items), contains-tag done.sid_map k items))

    -- The counter never goes back.
    pub assign-grows : next_of f s ≤ next_of f s'
    assign-grows = omega (arith, next-le-start, done-Extends.grows, ap (λ n. n) next-assign)

    -- Where the old table is in order, the counter has room and the batch names no message twice, the UIDs
    -- of the new table ascend from 1, its messages are distinct, and all UIDs are below the new counter.
    pub assign-IsOrdered :
        Distinct (server_ids items)
        → IsOrdered (table f (assign_uids now f items s).1)
          × Below (next_of f (assign_uids now f items s).1) (table f (assign_uids now f items s).1)
    unfolding rows s'
    assign-IsOrdered d =
        let m = done.sid_map in
        let g = done-IsGood in
        let agrees = tag-Agrees m items (λ k h. done_covers k h) in
        let distinct = tag-Distinct m items d in
        rw (table-assign, next-assign)
          (
            record {
              ascending =
                  sort-Ascending 1 (tag m items) (Agrees-AtLeast m (tag m items) g.low agrees)
                    (Agrees-DistinctUids m g.inj (tag m items) distinct agrees);
              distinct = sort-Distinct (tag m items) distinct;
            },
            Agrees-Below m (entries rows) done.next_uid g.high rows-Agrees,
          )

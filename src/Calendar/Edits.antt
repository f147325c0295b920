-- ===== src/Calendar/Edits.antt =====
-- The operations on the cache as sequences of five edits, and the pending log next to the two maps.
use eas_bridge.Prelude.{
  String, ◌≡◌, Bool, true, false, not, ◌||◌, ◌&&◌, none, some, List, [], ◌∷◌, arith, str_eq,
  is_empty, if◌then◌else◌, Bool-cases, Option-cases, inl, inr, sort_strings,
}
use eas_bridge.Dict.{Dict, get, get-put, get-remove}
use eas_bridge.Eas.{EventItem}
use eas_bridge.Store.{CalendarEventAlias}
use eas_bridge.Calendar.Equality.{deep_equal}
use eas_bridge.Calendar.Changes.{record_upsert, record_delete, record_alias, record_alias_delete}
use eas_bridge.Calendar.Cache.{
  Cache, store_event, drop_event, replace_event, store_alias, drop_alias, still_same, refresh_alias,
  equivalent_of, add_new, add_event, change_event, members, retarget_one, retarget, promote,
  delete_event,
}

pub data Edits (c : Cache) : Cache → Type 0 where
  done : Edits c c
  storing : {d : Cache} (ev : EventItem) → Edits c d → Edits c (store_event ev d)
  dropping : {d : Cache} (id : String) (ev : EventItem) → Edits c d → Edits c (drop_event id ev d)
  replacing : {d : Cache} (old ev : EventItem) → Edits c d → Edits c (replace_event old ev d)
  aliasing :
      {d : Cache} (id : String) (a : CalendarEventAlias) → Edits c d → Edits c (store_alias id a d)
  unaliasing : {d : Cache} (id : String) → Edits c d → Edits c (drop_alias id d)

-- The pending log accounts for the difference between the maps at the last write and now.
pub record Tracks (events : Dict EventItem) (aliases : Dict CalendarEventAlias) (c : Cache)
    : Type 0 where
  pub upserted :
      (k : String) (e : EventItem) → get c.changes.upserts k ≡ some e → get c.events k ≡ some e
  pub deleted : (k : String) → get c.changes.deletes k ≡ some tt → get c.events k ≡ none
  pub untouched :
      (k : String)
      → get c.changes.upserts k ≡ none
      → get c.changes.deletes k ≡ none
      → get c.events k ≡ get events k
  pub aliased :
      (k : String) (a : CalendarEventAlias)
      → get c.changes.alias_upserts k ≡ some a
      → get c.aliases k ≡ some a
  pub unaliased : (k : String) → get c.changes.alias_deletes k ≡ some tt → get c.aliases k ≡ none
  pub alias_untouched :
      (k : String)
      → get c.changes.alias_upserts k ≡ none
      → get c.changes.alias_deletes k ≡ none
      → get c.aliases k ≡ get aliases k

module _ {events : Dict EventItem} {aliases : Dict CalendarEventAlias} where
  storing-Tracks :
      (c : Cache) (ev : EventItem)
      → Tracks events aliases c
      → Tracks events aliases (store_event ev c)
  unfolding store_event record_upsert
  storing-Tracks c ev t =
      let sid = ev.server_id in
      let m = c.changes in
      record {
        upserted = λ k e h.
            ground (arith, get-put m.upserts sid k ev, get-put c.events sid k ev, t.upserted k e);
        deleted = λ k h.
            ground (arith, get-remove m.deletes sid k, get-put c.events sid k ev, t.deleted k);
        untouched = λ k h g. ground (
          arith,
          get-put m.upserts sid k ev,
          get-remove m.deletes sid k,
          get-put c.events sid k ev,
          t.untouched k,
        );
        aliased = t.aliased;
        unaliased = t.unaliased;
        alias_untouched = t.alias_untouched;
      }

  replacing-Tracks :
      (c : Cache) (old ev : EventItem)
      → Tracks events aliases c
      → Tracks events aliases (replace_event old ev c)
  unfolding replace_event record_upsert
  replacing-Tracks c old ev t =
      let sid = ev.server_id in
      let m = c.changes in
      record {
        upserted = λ k e h.
            ground (arith, get-put m.upserts sid k ev, get-put c.events sid k ev, t.upserted k e);
        deleted = λ k h.
            ground (arith, get-remove m.deletes sid k, get-put c.events sid k ev, t.deleted k);
        untouched = λ k h g. ground (
          arith,
          get-put m.upserts sid k ev,
          get-remove m.deletes sid k,
          get-put c.events sid k ev,
          t.untouched k,
        );
        aliased = t.aliased;
        unaliased = t.unaliased;
        alias_untouched = t.alias_untouched;
      }

  dropping-Tracks :
      (c : Cache) (sid : String) (ev : EventItem)
      → Tracks events aliases c
      → Tracks events aliases (drop_event sid ev c)
  unfolding drop_event record_delete
  dropping-Tracks c sid ev t =
      let m = c.changes in
      record {
        upserted = λ k e h.
            ground (arith, get-remove m.upserts sid k, get-remove c.events sid k, t.upserted k e);
        deleted = λ k h.
            ground (arith, get-put m.deletes sid k tt, get-remove c.events sid k, t.deleted k);
        untouched = λ k h g. ground (
          arith,
          get-remove m.upserts sid k,
          get-put m.deletes sid k tt,
          get-remove c.events sid k,
          t.untouched k,
        );
        aliased = t.aliased;
        unaliased = t.unaliased;
        alias_untouched = t.alias_untouched;
      }

  aliasing-Tracks :
      (c : Cache) (sid : String) (a : CalendarEventAlias)
      → Tracks events aliases c
      → Tracks events aliases (store_alias sid a c)
  unfolding store_alias record_alias
  aliasing-Tracks c sid a t =
      let m = c.changes in
      record {
        upserted = t.upserted;
        deleted = t.deleted;
        untouched = t.untouched;
        aliased = λ k e h.
            ground
              (arith, get-put m.alias_upserts sid k a, get-put c.aliases sid k a, t.aliased k e);
        unaliased = λ k h.
            ground
              (arith, get-remove m.alias_deletes sid k, get-put c.aliases sid k a, t.unaliased k);
        alias_untouched = λ k h g. ground (
          arith,
          get-put m.alias_upserts sid k a,
          get-remove m.alias_deletes sid k,
          get-put c.aliases sid k a,
          t.alias_untouched k,
        );
      }

  unaliasing-Tracks :
      (c : Cache) (sid : String)
      → Tracks events aliases c
      → Tracks events aliases (drop_alias sid c)
  unfolding drop_alias record_alias_delete
  unaliasing-Tracks c sid t =
      let m = c.changes in
      record {
        upserted = t.upserted;
        deleted = t.deleted;
        untouched = t.untouched;
        aliased = λ k e h.
            ground
              (arith, get-remove m.alias_upserts sid k, get-remove c.aliases sid k, t.aliased k e);
        unaliased = λ k h.
            ground
              (arith, get-put m.alias_deletes sid k tt, get-remove c.aliases sid k, t.unaliased k);
        alias_untouched = λ k h g. ground (
          arith,
          get-remove m.alias_upserts sid k,
          get-put m.alias_deletes sid k tt,
          get-remove c.aliases sid k,
          t.alias_untouched k,
        );
      }

  pub Edits-Tracks : {c d : Cache} → Edits c d → Tracks events aliases c → Tracks events aliases d
  Edits-Tracks done t = t
  Edits-Tracks (storing {d} ev r) t = storing-Tracks d ev (Edits-Tracks r t)
  Edits-Tracks (dropping {d} id ev r) t = dropping-Tracks d id ev (Edits-Tracks r t)
  Edits-Tracks (replacing {d} old ev r) t = replacing-Tracks d old ev (Edits-Tracks r t)
  Edits-Tracks (aliasing {d} id a r) t = aliasing-Tracks d id a (Edits-Tracks r t)
  Edits-Tracks (unaliasing {d} id r) t = unaliasing-Tracks d id (Edits-Tracks r t)

Edits-if :
    {b : Cache} (t : Bool) (x y : Cache) → Edits b x → Edits b y → Edits b (if t then x else y)
Edits-if true x y p q = p
Edits-if false x y p q = q

Edits-if_second :
    {b : Cache} (t : Bool) (x y : Bool × Cache)
    → Edits b x.1
    → Edits b y.1
    → Edits b (if t then x else y).1
Edits-if_second true x y p q = p
Edits-if_second false x y p q = q

refresh-Edits :
    {b : Cache} (alias : CalendarEventAlias) (ev : EventItem) (dr : Bool) (c : Cache)
    → Edits b c
    → Edits b (refresh_alias alias ev dr c)
unfolding refresh_alias
refresh-Edits alias ev dr c r =
    Edits-if (not (str_eq alias.uid ev.uid) || (dr && not alias.replay)) _ c
      (aliasing ev.server_id _ r) r

add_new-Edits :
    {b : Cache} (ev : EventItem) (dr : Bool) (c : Cache) → Edits b c → Edits b (add_new ev dr c).1
unfolding add_new
add_new-Edits ev dr c r = elim (Option-cases (equivalent_of ev dr c.index)) [
  | inl e ↦ rw (e, add_new) (storing ev r)
  | inr (id, e) ↦ rw (e, add_new) (aliasing ev.server_id _ r)
]

pub add_event-Edits :
    {b : Cache} (ev : EventItem) (dr : Bool) (c : Cache) → Edits b c → Edits b (add_event ev dr c).1
unfolding add_event
add_event-Edits ev dr c r = elim (Bool-cases (is_empty ev.server_id)) [
  | inl e ↦ rw e r
  | inr e ↦ rw e (elim (Option-cases (get c.events ev.server_id)) [
    | inr (existing, f) ↦
        rw f (Edits-if_second (deep_equal existing ev) (false, c) _ r (replacing existing ev r))
    | inl f ↦ rw f (elim (Option-cases (get c.aliases ev.server_id)) [
      | inl g ↦ rw g (add_new-Edits ev dr c r)
      | inr (alias, g) ↦ rw g (elim (Bool-cases (still_same alias ev c)) [
        | inl h ↦ rw h (refresh-Edits alias ev dr c r)
        | inr h ↦ rw h (add_new-Edits ev dr (drop_alias ev.server_id c) (unaliasing ev.server_id r))
      ])
    ])
  ])
]

pub change_event-Edits :
    {b : Cache} (ev : EventItem) (c : Cache) → Edits b c → Edits b (change_event ev c).1
unfolding change_event
change_event-Edits ev c r = elim (Bool-cases (is_empty ev.server_id)) [
  | inl e ↦ rw e r
  | inr e ↦ rw e (elim (Option-cases (get c.events ev.server_id)) [
    | inr (existing, f) ↦
        rw f (Edits-if_second (deep_equal existing ev) (false, c) _ r (replacing existing ev r))
    | inl f ↦ rw f (elim (Option-cases (get c.aliases ev.server_id)) [
      | inl g ↦ rw g (storing ev r)
      | inr (alias, g) ↦ rw g (elim (Bool-cases (still_same alias ev c)) [
        | inl h ↦ rw h (refresh-Edits alias ev false c r)
        | inr h ↦ rw h (storing ev (unaliasing ev.server_id r))
      ])
    ])
  ])
]

retarget-Edits :
    {b : Cache} (id : String) (rest : List String) (c : Cache)
    → Edits b c
    → Edits b (retarget id rest c)
unfolding retarget retarget_one
retarget-Edits id [] c r = r
retarget-Edits id (k ∷ rest) c r = retarget-Edits id rest (retarget_one id k c) (aliasing k _ r)

by_members :
    {b : Cache} (existing : EventItem) (id : String) (c : Cache)
    → Edits b c
    → (ms : List String)
    → Edits b
        (elim ms as (λ l. Bool × Cache) [
          | [] ↦ (true, drop_event id existing c)
          | p ∷ rest ↦ (true, promote id existing p rest c)
        ]).1
unfolding promote
by_members existing id c r [] = dropping id existing r
by_members existing id c r (p ∷ rest) =
    retarget-Edits p rest _ (storing _ (dropping id existing (unaliasing p r)))

pub delete_event-Edits :
    {b : Cache} (id : String) (c : Cache) → Edits b c → Edits b (delete_event id c).1
unfolding delete_event
delete_event-Edits id c r = elim (Option-cases (get c.aliases id)) [
  | inr (alias, e) ↦ rw (e, delete_event) (unaliasing id r)
  | inl e ↦
      rw (e, delete_event)
        (elim (Option-cases (get c.events id)) [
          | inl f ↦ rw (f, delete_event) r
          | inr (existing, f) ↦
              rw (f, delete_event)
                (by_members existing id c r (sort_strings (members id c.aliases.entries)))
        ])
]

-- ===== src/Calendar/Operations.antt =====
-- Add and Change, and the invariant of the cache.
use eas_bridge.Prelude.{
  String, ◌≡◌, ◌≢◌, refl, Bool, true, false, not, ◌||◌, ◌&&◌, none, some, arith, str_eq, is_empty,
  if◌then◌else◌, Bool-cases, Option-cases, inl, inr,
}
use eas_bridge.Dict.{get, get-remove_self}
use eas_bridge.Eas.{EventItem}
use eas_bridge.Store.{CalendarEventAlias}
use eas_bridge.Calendar.Equality.{deep_equal, duplicate_key}
use eas_bridge.Calendar.Index.{find_equivalent_mem, bucket}
use eas_bridge.Calendar.Cache.{
  Cache, replace_event, drop_alias, still_same, refresh_alias, equivalent_of, add_new, add_event,
  change_event,
}
use eas_bridge.Calendar.WellFormed.{
  IsWellFormed, storing-IsWellFormed, replacing-IsWellFormed, aliasing-IsWellFormed,
  unaliasing-IsWellFormed,
}

If-IsWellFormed :
    (t : Bool) (x y : Cache) → IsWellFormed x → IsWellFormed y → IsWellFormed (if t then x else y)
If-IsWellFormed true x y p q = p
If-IsWellFormed false x y p q = q

If-IsWellFormed_second :
    (t : Bool) (x y : Bool × Cache)
    → IsWellFormed x.1
    → IsWellFormed y.1
    → IsWellFormed (if t then x else y).1
If-IsWellFormed_second true x y p q = p
If-IsWellFormed_second false x y p q = q

-- An event that the index calls equivalent is in the cache.
equivalent_of_mem :
    (c : Cache)
    → IsWellFormed c
    → (ev : EventItem) (dr : Bool) (id : String) → equivalent_of ev dr c.index ≡ some id
    → get c.events id ≢ none
unfolding equivalent_of
equivalent_of_mem c w ev dr id h = λ n.
    elim (Option-cases (get (bucket (duplicate_key ev) c.index) id)) [
      | inl e ↦
          ground
            (arith, find_equivalent_mem ev false c.index id, find_equivalent_mem ev true c.index id)
      | inr (e, p) ↦ ground (arith, w.indexed (duplicate_key ev) id e p)
    ]

module _ (ev : EventItem) (c : Cache) (w : IsWellFormed c) where
  refresh-IsWellFormed :
      (alias : CalendarEventAlias) (dr : Bool)
      → get c.events ev.server_id ≡ none
      → get c.aliases ev.server_id ≡ some alias
      → IsWellFormed (refresh_alias alias ev dr c)
  unfolding refresh_alias
  refresh-IsWellFormed alias dr p q =
      If-IsWellFormed (not (str_eq alias.uid ev.uid) || (dr && not alias.replay)) _ c
        (aliasing-IsWellFormed c w ev.server_id _ p (w.targets ev.server_id alias q)) w

  add_new-IsWellFormed :
      (dr : Bool)
      → get c.events ev.server_id ≡ none
      → get c.aliases ev.server_id ≡ none
      → IsWellFormed (add_new ev dr c).1
  unfolding add_new
  add_new-IsWellFormed dr p q = elim (Option-cases (equivalent_of ev dr c.index)) [
    | inl e ↦ rw (e, add_new) (storing-IsWellFormed c w ev p q)
    | inr (id, e) ↦
        rw (e, add_new)
          (aliasing-IsWellFormed c w ev.server_id _ p (equivalent_of_mem c w ev dr id e))
  ]

  replace_or_same-IsWellFormed :
      (existing : EventItem)
      → get c.events ev.server_id ≡ some existing
      → IsWellFormed
          (if◌then◌else◌ {A = Bool × Cache}
            (deep_equal existing ev)
            (false, c)
            (true, replace_event existing ev c)).1
  replace_or_same-IsWellFormed existing p =
      If-IsWellFormed_second (deep_equal existing ev) (false, c) _ w
        (replacing-IsWellFormed c w existing ev p)

unalias_events : (id : String) (c : Cache) → (drop_alias id c).events ≡ c.events
unfolding drop_alias
unalias_events id c = refl

unalias_aliases : (id : String) (c : Cache) → get (drop_alias id c).aliases id ≡ none
unfolding drop_alias
unalias_aliases id c = get-remove_self c.aliases id

-- EAS Add.
pub add_event-IsWellFormed :
    (ev : EventItem) (dr : Bool) (c : Cache) → IsWellFormed c → IsWellFormed (add_event ev dr c).1
unfolding add_event
add_event-IsWellFormed ev dr c w = elim (Bool-cases (is_empty ev.server_id)) [
  | inl e ↦ rw e w
  | inr e ↦ rw e (elim (Option-cases (get c.events ev.server_id)) [
    | inr (existing, f) ↦ rw f (replace_or_same-IsWellFormed ev c w existing f)
    | inl f ↦ rw f (elim (Option-cases (get c.aliases ev.server_id)) [
      | inl g ↦ rw g (add_new-IsWellFormed ev c w dr f g)
      | inr (alias, g) ↦ rw g (elim (Bool-cases (still_same alias ev c)) [
        | inl h ↦ rw h (refresh-IsWellFormed ev c w alias dr f g)
        | inr h ↦ rw h (
            add_new-IsWellFormed ev (drop_alias ev.server_id c)
              (unaliasing-IsWellFormed c w ev.server_id) dr (rw unalias_events f)
              (unalias_aliases ev.server_id c))
      ])
    ])
  ])
]

-- EAS Change.
pub change_event-IsWellFormed :
    (ev : EventItem) (c : Cache) → IsWellFormed c → IsWellFormed (change_event ev c).1
unfolding change_event
change_event-IsWellFormed ev c w = elim (Bool-cases (is_empty ev.server_id)) [
  | inl e ↦ rw e w
  | inr e ↦ rw e (elim (Option-cases (get c.events ev.server_id)) [
    | inr (existing, f) ↦ rw f (replace_or_same-IsWellFormed ev c w existing f)
    | inl f ↦ rw f (elim (Option-cases (get c.aliases ev.server_id)) [
      | inl g ↦ rw g (storing-IsWellFormed c w ev f g)
      | inr (alias, g) ↦ rw g (elim (Bool-cases (still_same alias ev c)) [
        | inl h ↦ rw h (refresh-IsWellFormed ev c w alias false f g)
        | inr h ↦ rw h (
            storing-IsWellFormed (drop_alias ev.server_id c)
              (unaliasing-IsWellFormed c w ev.server_id) ev (rw unalias_events f)
              (unalias_aliases ev.server_id c))
      ])
    ])
  ])
]

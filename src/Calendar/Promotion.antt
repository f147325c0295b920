-- ===== src/Calendar/Promotion.antt =====
-- EAS Delete and the invariant: where aliases are left, one of them takes the event over.
use eas_bridge.Prelude.{
  String, ◌≡◌, ◌≢◌, ◌∙◌, refl, sym, ap, subst, Bool, true, false, none, some, List, [], ◌∷◌, map,
  arith, str_eq, eq_iff, eq_refl, if◌then◌else◌, Option-cases, ◌&&◌, inl, inr, contains, Distinct,
  sort_strings, contains-sort_strings, sort_strings-Distinct,
}
use eas_bridge.Dict.{
  get, remove, keys, get_or, get-put, get-remove, contains-keys, put-Distinct, remove-Distinct,
}
use eas_bridge.Eas.{EventItem}
use eas_bridge.Store.{CalendarEventAlias, no_alias}
use eas_bridge.Calendar.Equality.{DuplicateKey, duplicate_key, key_eq, key_eq_iff}
use eas_bridge.Calendar.Index.{bucket, bucket-add, bucket-remove, remove_event}
use eas_bridge.Calendar.Cache.{
  Cache, store_event, drop_event, store_alias, drop_alias, members, retarget_one, retarget, promote,
  delete_event,
}
use eas_bridge.Calendar.WellFormed.{IsWellFormed, dropping-IsWellFormed, unaliasing-IsWellFormed}

abbrev Entries : Type 0
Entries = List (String × CalendarEventAlias)

-- Members are keys; a key whose alias stands for the event is a member; members are distinct.
contains-members :
    (id k : String) (l : Entries)
    → contains k (members id l) ≡ true
    → contains k (map (λ e. e.0) l) ≡ true
unfolding members
contains-members id k [] h = h
contains-members id k ((j, a) ∷ l) h = ground (arith, contains-members id k l)

members-Distinct :
    (id : String) (l : Entries) → Distinct (map (λ e. e.0) l) → Distinct (members id l)
unfolding members
members-Distinct id [] d = tt
members-Distinct id ((j, a) ∷ l) d =
    ground (arith, members-Distinct id l d.1, contains-members id j l)

member_of_entry :
    (id k : String) (a : CalendarEventAlias) (l : Entries)
    → get (record { entries = l }) k ≡ some a
    → a.canonical_id ≡ id
    → contains k (members id l) ≡ true
unfolding members get
member_of_entry id k a [] h e = cc
member_of_entry id k a ((j, b) ∷ l) h e =
    ground (arith, member_of_entry id k a l, eq_iff j k, eq_iff b.canonical_id id)

retarget-aliases :
    (p : String) (rest : List String) (c : Cache) (k : String)
    → get (retarget p rest c).aliases k ≡ (
        if contains k rest
        then some (record (get_or no_alias c.aliases k) { canonical_id = p })
        else get c.aliases k)
unfolding retarget retarget_one store_alias
retarget-aliases p [] c k = refl
retarget-aliases p (j ∷ rest) c k = ground (
  arith,
  retarget-aliases p rest (retarget_one p j c) k,
  get-put c.aliases j k (record (get_or no_alias c.aliases j) { canonical_id = p }),
  eq_iff j k,
)

retarget_same :
    (p : String) (rest : List String) (c : Cache)
    → ((retarget p rest c).events ≡ c.events) × ((retarget p rest c).index ≡ c.index)
unfolding retarget retarget_one store_alias
retarget_same p [] c = (refl, refl)
retarget_same p (j ∷ rest) c = retarget_same p rest (retarget_one p j c)

retarget-single :
    (p : String) (rest : List String) (c : Cache)
    → Distinct (keys c.aliases)
    → Distinct (keys (retarget p rest c).aliases)
unfolding retarget retarget_one store_alias
retarget-single p [] c d = d
retarget-single p (j ∷ rest) c d =
    retarget-single p rest (retarget_one p j c) (put-Distinct c.aliases j _ d)

module _ (id : String) (c : Cache) (w : IsWellFormed c) where
  abbrev found : List String
  found = sort_strings (members id c.aliases.entries)

  -- The sorted members: aliases of the cache, among them every alias of `id`.
  found_key : (k : String) → contains k found ≡ true → get c.aliases k ≢ none
  found_key k h = λ n. ground (
    arith,
    contains-sort_strings k (members id c.aliases.entries),
    contains-members id k c.aliases.entries,
    contains-keys c.aliases k,
  )

  found_all :
      (k : String) (a : CalendarEventAlias)
      → get c.aliases k ≡ some a
      → a.canonical_id ≡ id
      → contains k found ≡ true
  found_all k a h e =
      contains-sort_strings k (members id c.aliases.entries)
      ∙ member_of_entry id k a c.aliases.entries h e

  found-Distinct : Distinct found
  found-Distinct =
      sort_strings-Distinct (members id c.aliases.entries)
        (members-Distinct id c.aliases.entries w.single)

  module _ (existing : EventItem) (here : get c.events id ≡ some existing) (p : String)
      (rest : List String) (split : found ≡ p ∷ rest) where
    parts : (contains p rest ≡ false) × Distinct rest
    parts = subst Distinct split found-Distinct

    in_found : (k : String) → contains k found ≡ (contains k (p ∷ rest))
    in_found k = ap (contains k) split

    -- No member is an event, so none is `id` itself.
    not_event : (k : String) → contains k (p ∷ rest) ≡ true → get c.events k ≡ none
    not_event k h = elim (Option-cases (get c.events k)) [
      | inl e ↦ e
      | inr (e, q) ↦ absurd (found_key k (in_found k ∙ h) (w.disjoint k e q))
    ]

    promoted : EventItem
    promoted = record existing { server_id = p; uid = (get_or no_alias c.aliases p).uid }

    before : Cache
    before = store_event promoted (drop_event id existing (drop_alias p c))

    before-events :
        (k : String)
        → get before.events k
          ≡ (if str_eq p k then some promoted else if str_eq id k then none else get c.events k)
    unfolding before promoted store_event drop_event drop_alias
    before-events k =
        ground (arith, get-put (remove c.events id) p k promoted, get-remove c.events id k)

    before-aliases :
        (k : String) → get before.aliases k ≡ (if str_eq p k then none else get c.aliases k)
    unfolding before store_event drop_event drop_alias
    before-aliases k = get-remove c.aliases p k

    before-index :
        (q : DuplicateKey) (k : String)
        → get (bucket q before.index) k ≡ (
            if key_eq (duplicate_key promoted) q && str_eq p k
            then some promoted
            else if key_eq (duplicate_key existing) q && str_eq id k
            then none
            else get (bucket q c.index) k)
    unfolding before promoted store_event drop_event drop_alias
    before-index q k = ground (
      arith,
      bucket-add p k promoted q (remove_event id existing c.index),
      bucket-remove id k existing q c.index,
    )

    before-single : Distinct (keys before.aliases)
    unfolding before store_event drop_event drop_alias
    before-single = remove-Distinct c.aliases p w.single

    after : Cache
    after = retarget p rest before

    after-aliases :
        (k : String)
        → get after.aliases k ≡ (
            if contains k rest
            then some (record (get_or no_alias before.aliases k) { canonical_id = p })
            else if str_eq p k
            then none
            else get c.aliases k)
    unfolding after
    after-aliases k = ground (arith, retarget-aliases p rest before k, before-aliases k)

    after-events :
        (k : String)
        → get after.events k
          ≡ (if str_eq p k then some promoted else if str_eq id k then none else get c.events k)
    unfolding after
    after-events k = ap (λ d. get d k) ((retarget_same p rest before).0) ∙ before-events k

    after-index :
        (q : DuplicateKey) (k : String)
        → get (bucket q after.index) k ≡ (
            if key_eq (duplicate_key promoted) q && str_eq p k
            then some promoted
            else if key_eq (duplicate_key existing) q && str_eq id k
            then none
            else get (bucket q c.index) k)
    unfolding after
    after-index q k =
        ap (λ d. get (bucket q d) k) ((retarget_same p rest before).1) ∙ before-index q k

    after-named : (k : String) (e : EventItem) → get after.events k ≡ some e → e.server_id ≡ k
    unfolding promoted
    after-named k e h = ground (arith, after-events k, eq_iff p k, w.named k e)

    after-disjoint :
        (k : String) (e : EventItem) → get after.events k ≡ some e → get after.aliases k ≡ none
    after-disjoint k e h =
        ground
          (arith, after-events k, after-aliases k, eq_iff p k, w.disjoint k e, not_event k, parts.0)

    after-targets :
        (k : String) (a : CalendarEventAlias)
        → get after.aliases k ≡ some a
        → get after.events a.canonical_id ≢ none
    after-targets k a h n = ground (
      arith,
      after-aliases k,
      after-events a.canonical_id,
      w.targets k a,
      found_all k a,
      in_found k,
      eq_iff id a.canonical_id,
      eq_iff p k,
      eq_refl p,
    )

    after-indexed :
        (q : DuplicateKey) (k : String) (e : EventItem)
        → get (bucket q after.index) k ≡ some e
        → (get after.events k ≡ some e) × (duplicate_key e ≡ q)
    after-indexed q k e h = ground (
      arith,
      after-index q k,
      after-events k,
      w.indexed q k e,
      not_event k,
      eq_iff p k,
      eq_iff id k,
      eq_refl p,
      key_eq_iff (duplicate_key promoted) q,
      key_eq_iff (duplicate_key existing) q,
    )

    after_unique : Distinct (keys after.events)
    unfolding after before promoted store_event drop_event drop_alias
    after_unique =
        subst (λ d. Distinct (keys d)) (sym ((retarget_same p rest before).0))
          (put-Distinct (remove c.events id) p promoted (remove-Distinct c.events id w.unique))

    promote-IsWellFormed : IsWellFormed (promote id existing p rest c)
    unfolding promote after before promoted
    promote-IsWellFormed = record {
      named = after-named;
      disjoint = after-disjoint;
      targets = after-targets;
      indexed = after-indexed;
      single = retarget-single p rest before before-single;
      unique = after_unique;
    }

no_member : (l : List String) (k : String) → contains k l ≡ false → contains k l ≢ true
no_member l k e h = ground arith

no_alias_of :
    (id : String) (c : Cache) (w : IsWellFormed c)
    → sort_strings (members id c.aliases.entries) ≡ []
    → (k : String) (a : CalendarEventAlias) → get c.aliases k ≡ some a
    → a.canonical_id ≢ id
no_alias_of id c w e k a h q =
    no_member (sort_strings (members id c.aliases.entries)) k (ap (contains k) e)
      (found_all id c w k a h q)

deleting-IsWellFormed :
    (id : String) (c : Cache) (w : IsWellFormed c) (existing : EventItem)
    (here : get c.events id ≡ some existing) (found : List String)
    → sort_strings (members id c.aliases.entries) ≡ found
    → IsWellFormed (
        let r : Bool × Cache = elim found [
          | [] ↦ (true, drop_event id existing c)
          | p ∷ rest ↦ (true, promote id existing p rest c)
        ] in
        r.1)
deleting-IsWellFormed id c w existing here [] e =
    dropping-IsWellFormed c w id existing here (no_alias_of id c w e)
deleting-IsWellFormed id c w existing here (p ∷ rest) e =
    promote-IsWellFormed id c w existing here p rest e

-- A cache that is well formed is well formed after an EAS Delete of any ID.
pub delete_event-IsWellFormed :
    (id : String) (c : Cache) → IsWellFormed c → IsWellFormed ((delete_event id c).1)
unfolding delete_event
delete_event-IsWellFormed id c w = elim (Option-cases (get c.aliases id)) [
  | inr (a, h) ↦ rw (h, delete_event) (unaliasing-IsWellFormed c w id)
  | inl h ↦ elim (Option-cases (get c.events id)) [
    | inl n ↦ rw (h, n, delete_event) w
    | inr (existing, e) ↦
        rw (h, e, delete_event)
          (deleting-IsWellFormed id c w existing e (sort_strings (members id c.aliases.entries))
            refl)
  ]
]

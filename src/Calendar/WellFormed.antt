-- ===== src/Calendar/WellFormed.antt =====
-- The invariant of the calendar cache, and the five edits.
use eas_bridge.Prelude.{String, ◌≡◌, ◌≢◌, none, some, arith, Distinct, eq_iff}
use eas_bridge.Dict.{get, get-put, get-remove, keys, put-Distinct, remove-Distinct}
use eas_bridge.Eas.{EventItem}
use eas_bridge.Store.{CalendarEventAlias}
use eas_bridge.Calendar.Equality.{DuplicateKey, duplicate_key, key_eq_iff}
use eas_bridge.Calendar.Index.{bucket, remove_event, bucket-add, bucket-remove}
use eas_bridge.Calendar.Cache.{
  Cache, store_event, drop_event, replace_event, store_alias, drop_alias,
}

-- Events stand under their own IDs; no ID is an event and an alias; an alias stands for an event;
-- the index holds events of the cache, in their own buckets.
pub record IsWellFormed (c : Cache) : Type 0 where
  pub named : (k : String) (e : EventItem) → get c.events k ≡ some e → e.server_id ≡ k
  pub disjoint : (k : String) (e : EventItem) → get c.events k ≡ some e → get c.aliases k ≡ none
  pub targets :
      (k : String) (a : CalendarEventAlias)
      → get c.aliases k ≡ some a
      → get c.events a.canonical_id ≢ none
  pub indexed :
      (q : DuplicateKey) (k : String) (e : EventItem)
      → get (bucket q c.index) k ≡ some e
      → (get c.events k ≡ some e) × (duplicate_key e ≡ q)
  pub single : Distinct (keys c.aliases)
  pub unique : Distinct (keys c.events)

module _ (c : Cache) (w : IsWellFormed c) where
  pub storing-IsWellFormed :
      (ev : EventItem)
      → get c.events ev.server_id ≡ none
      → get c.aliases ev.server_id ≡ none
      → IsWellFormed (store_event ev c)
  unfolding store_event
  storing-IsWellFormed ev p q =
      let sid = ev.server_id in
      record {
        named = λ k e h. ground (arith, get-put c.events sid k ev, eq_iff sid k, w.named k e);
        disjoint = λ k e h. ground (arith, get-put c.events sid k ev, eq_iff sid k, w.disjoint k e);
        targets =
            λ k a h n. ground (arith, get-put c.events sid a.canonical_id ev, w.targets k a h);
        indexed = λ r k e h. ground (
          arith,
          get-put c.events sid k ev,
          eq_iff sid k,
          bucket-add sid k ev r c.index,
          w.indexed r k e,
          key_eq_iff (duplicate_key ev) r,
        );
        single = w.single;
        unique = put-Distinct c.events sid ev w.unique;
      }

  pub replacing-IsWellFormed :
      (old ev : EventItem)
      → get c.events ev.server_id ≡ some old
      → IsWellFormed (replace_event old ev c)
  unfolding replace_event
  replacing-IsWellFormed old ev p =
      let sid = ev.server_id in
      record {
        named = λ k e h. ground (arith, get-put c.events sid k ev, eq_iff sid k, w.named k e);
        disjoint = λ k e h.
            ground (
              arith,
              get-put c.events sid k ev,
              eq_iff sid k,
              w.disjoint k e,
              w.disjoint sid old p,
            );
        targets =
            λ k a h n. ground (arith, get-put c.events sid a.canonical_id ev, w.targets k a h);
        indexed = λ r k e h. ground (
          arith,
          get-put c.events sid k ev,
          eq_iff sid k,
          bucket-add sid k ev r (remove_event sid old c.index),
          bucket-remove sid k old r c.index,
          w.indexed r k e,
          key_eq_iff (duplicate_key ev) r,
          key_eq_iff (duplicate_key old) r,
        );
        single = w.single;
        unique = put-Distinct c.events sid ev w.unique;
      }

  pub dropping-IsWellFormed :
      (id : String) (old : EventItem)
      → get c.events id ≡ some old
      → ((k : String) (a : CalendarEventAlias) → get c.aliases k ≡ some a → a.canonical_id ≢ id)
      → IsWellFormed (drop_event id old c)
  unfolding drop_event
  dropping-IsWellFormed id old p unused = record {
    named = λ k e h. ground (arith, get-remove c.events id k, w.named k e);
    disjoint = λ k e h. ground (arith, get-remove c.events id k, w.disjoint k e);
    targets = λ k a h n. ground (
      arith,
      get-remove c.events id a.canonical_id,
      w.targets k a h,
      unused k a h,
      eq_iff id a.canonical_id,
    );
    indexed = λ r k e h. ground (
      arith,
      get-remove c.events id k,
      eq_iff id k,
      bucket-remove id k old r c.index,
      w.indexed r k e,
      key_eq_iff (duplicate_key old) r,
    );
    single = w.single;
    unique = remove-Distinct c.events id w.unique;
  }

  pub aliasing-IsWellFormed :
      (id : String) (a : CalendarEventAlias)
      → get c.events id ≡ none
      → get c.events a.canonical_id ≢ none
      → IsWellFormed (store_alias id a c)
  unfolding store_alias
  aliasing-IsWellFormed id a p q = record {
    named = w.named;
    disjoint = λ k e h. ground (arith, get-put c.aliases id k a, eq_iff id k, w.disjoint k e);
    targets = λ k b h n. ground (arith, get-put c.aliases id k a, w.targets k b, q);
    indexed = w.indexed;
    single = put-Distinct c.aliases id a w.single;
    unique = w.unique;
  }

  pub unaliasing-IsWellFormed : (id : String) → IsWellFormed (drop_alias id c)
  unfolding drop_alias
  unaliasing-IsWellFormed id = record {
    named = w.named;
    disjoint = λ k e h. ground (arith, get-remove c.aliases id k, w.disjoint k e);
    targets = λ k b h n. ground (arith, get-remove c.aliases id k, w.targets k b);
    indexed = w.indexed;
    single = remove-Distinct c.aliases id w.single;
    unique = w.unique;
  }

-- ===== src/Dict.antt =====
-- Go's `map[string]V`. A `range` loop over a map visits the entries in some order: here in the order
-- of `entries`, which holds each key once. `get` is the two-valued read `v, ok := m[k]`.
mod Assoc
unfoldable pub use Assoc.{lookup, without}
use Assoc.{lookup-without}
use eas_bridge.Prelude.{
  String, ◌≡◌, ◌≢◌, eq_iff, eq_refl, refl, Option, none, some, List, [], ◌∷◌, map, arith, str_eq,
  if◌then◌else◌, Bool, true, false, is_nil, contains, Distinct,
}

pub record Dict {ℓ} (V : Type ℓ) : Type ℓ where
  pub entries : List (String × V)

module _ {ℓ} {V : Type ℓ} where
  unfoldable pub get : Dict V → String → Option V
  unfolding lookup
  get m key = lookup m.entries key

  -- m[key] = value
  unfoldable pub put : Dict V → String → V → Dict V
  unfolding without
  put m key value = record { entries = (key, value) ∷ without m.entries key }

  pub get-put :
      (m : Dict V) (key j : String) (value : V)
      → get (put m key value) j ≡ (if str_eq key j then some value else get m j)
  unfolding get put
  get-put m key j value = ground (arith, lookup-without m.entries key j)

  -- delete(m, key)
  unfoldable pub remove : Dict V → String → Dict V
  unfolding without
  remove m key = record { entries = without m.entries key }

  pub get-remove :
      (m : Dict V) (key j : String)
      → get (remove m key) j ≡ (if str_eq key j then none else get m j)
  unfolding get remove
  get-remove m key j = lookup-without m.entries key j

  -- the keys, in the order of a `range` loop
  abbrev pub keys : Dict V → List String
  keys d = map (λ e. e.0) d.entries

  -- `_, ok := m[k]`
  abbrev pub has : Dict V → String → Bool
  has d k = elim (get d k) [ none ↦ false | some v ↦ true ]

  -- the one-valued read `m[k]`, with the zero value of the type for a missing key
  abbrev pub get_or : V → Dict V → String → V
  get_or z d k = elim (get d k) [ none ↦ z | some v ↦ v ]

module _ {ℓ} {V : Type ℓ} where
  pub get_or-put_self : (z : V) (d : Dict V) (k : String) (v : V) → get_or z (put d k v) k ≡ v
  get_or-put_self z d k v = ground (arith, get-put d k k v, eq_refl k)

  pub get-put_self : (d : Dict V) (k : String) (v : V) → get (put d k v) k ≡ some v
  get-put_self d k v = rw (get-put d k k v, eq_refl k)

  pub get-put_ne : (d : Dict V) (k j : String) (v : V) → k ≢ j → get (put d k v) j ≡ get d j
  get-put_ne d k j v n = ground (arith, get-put d k j v, eq_iff k j)

  pub get-remove_self : (d : Dict V) (k : String) → get (remove d k) k ≡ none
  get-remove_self d k = rw (get-remove d k k, eq_refl k)

  pub get-remove_ne : (d : Dict V) (k j : String) → k ≢ j → get (remove d k) j ≡ get d j
  get-remove_ne d k j n = ground (arith, get-remove d k j, eq_iff k j)

module _ {ℓ} {V : Type ℓ} where
  lookup_of_nil : (l : List (String × V)) (k : String) → is_nil l ≡ true → lookup l k ≡ none
  unfolding lookup
  lookup_of_nil [] k h = refl
  lookup_of_nil (e ∷ l) k h = cc

  pub get_of_nil : (d : Dict V) (k : String) → is_nil d.entries ≡ true → get d k ≡ none
  unfolding get
  get_of_nil d k h = lookup_of_nil d.entries k h

  contains-lookup :
      (l : List (String × V)) (k : String)
      → contains k (map (λ e. e.0) l) ≡ elim (lookup l k) [ none ↦ false | some v ↦ true ]
  unfolding lookup
  contains-lookup [] k = refl
  contains-lookup ((j, v) ∷ l) k = ground (arith, contains-lookup l k)

  -- A `range` loop visits a key exactly when the map has it.
  pub contains-keys : (d : Dict V) (k : String) → contains k (keys d) ≡ has d k
  unfolding get
  contains-keys d k = contains-lookup d.entries k

module _ {ℓ} {V : Type ℓ} where
  contains-without :
      (l : List (String × V)) (k j : String)
      → contains j (map (λ e. e.0) (without l k))
        ≡ (if str_eq k j then false else contains j (map (λ e. e.0) l))
  unfolding without
  contains-without [] k j = ground arith
  contains-without ((i, v) ∷ l) k j =
      ground (arith, contains-without l k j, eq_iff i k, eq_iff i j, eq_iff k j)

  without-Distinct :
      (l : List (String × V)) (k : String)
      → Distinct (map (λ e. e.0) l)
      → Distinct (map (λ e. e.0) (without l k))
  unfolding without
  without-Distinct [] k d = tt
  without-Distinct ((i, v) ∷ l) k d =
      ground (arith, without-Distinct l k d.1, contains-without l k i)

  -- `put` and `remove` keep every key single.
  pub remove-Distinct : (d : Dict V) (k : String) → Distinct (keys d) → Distinct (keys (remove d k))
  unfolding remove
  remove-Distinct d k h = without-Distinct d.entries k h

  pub put-Distinct :
      (d : Dict V) (k : String) (v : V) → Distinct (keys d) → Distinct (keys (put d k v))
  unfolding put
  put-Distinct d k v h =
      (ground (arith, contains-without d.entries k k, eq_refl k), without-Distinct d.entries k h)

-- make(map[string]V)
unfoldable pub empty {ℓ} : {V : Type ℓ} → Dict V
empty = record { entries = [] }

pub get-empty {ℓ} : {V : Type ℓ} (k : String) → get (empty {V = V}) k ≡ none
unfolding get empty
get-empty k = refl

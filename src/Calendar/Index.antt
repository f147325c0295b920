-- ===== src/Calendar/Index.antt =====
-- calendarEventDuplicateIndex: the cached events by their duplicate key, then by server ID.
use eas_bridge.Prelude.{
  String, ◌≡◌, ◌≢◌, refl, Bool, true, ◌&&◌, ◌||◌, Option, none, some, List, [], ◌∷◌, arith, str_eq,
  str_lt, eq_iff, is_empty, is_nil, if◌then◌else◌, Bool-cases, inl, inr, ◌⊎◌, contains, Distinct,
  map, eq_refl,
}
use eas_bridge.Dict.{
  Dict, empty, get, put, remove, get-put, get-remove, get-empty, get_of_nil, contains-keys, keys,
}
use eas_bridge.Eas.{EventItem}
use eas_bridge.Calendar.Equality.{
  DuplicateKey, duplicate_key, key_eq, key_eq_iff, equal_except_server_id, same_content,
}

abbrev pub DuplicateIndex : Type 0
DuplicateIndex = List (DuplicateKey × Dict EventItem)

-- index[key]; a missing bucket reads as an empty one
unfoldable pub bucket : DuplicateKey → DuplicateIndex → Dict EventItem
bucket key [] = empty
bucket key ((k, b) ∷ rest) = if key_eq k key then b else bucket key rest

set_bucket : DuplicateKey → Dict EventItem → DuplicateIndex → DuplicateIndex
set_bucket key b [] = (key, b) ∷ []
set_bucket key b ((k, c) ∷ rest) =
    let r = set_bucket key b rest in if key_eq k key then (k, b) ∷ rest else (k, c) ∷ r

drop_bucket : DuplicateKey → DuplicateIndex → DuplicateIndex
drop_bucket key [] = []
drop_bucket key ((k, c) ∷ rest) =
    let r = drop_bucket key rest in if key_eq k key then r else (k, c) ∷ r

unfoldable pub add : String → EventItem → DuplicateIndex → DuplicateIndex
unfolding set_bucket
add id ev index = set_bucket (duplicate_key ev) (put (bucket (duplicate_key ev) index) id ev) index

unfoldable pub remove_event : String → EventItem → DuplicateIndex → DuplicateIndex
unfolding set_bucket drop_bucket
remove_event id ev index =
    let rest = remove (bucket (duplicate_key ev) index) id in
    if is_nil rest.entries
    then drop_bucket (duplicate_key ev) index
    else set_bucket (duplicate_key ev) rest index

add_all : List (String × EventItem) → DuplicateIndex → DuplicateIndex
add_all [] index = index
add_all ((id, ev) ∷ rest) index = add_all rest (add id ev index)

-- newCalendarEventDuplicateIndex
unfoldable pub new_index : Dict EventItem → DuplicateIndex
unfolding add_all
new_index events = add_all events.entries []

-- The loop over a bucket: the least server ID whose event is equivalent; "" while none is.
scan_bucket : EventItem → Bool → List (String × EventItem) → String → String
scan_bucket ev ignore_uid [] found = found
scan_bucket ev ignore_uid ((id, existing) ∷ rest) found =
    let equal =
      if ignore_uid then same_content existing ev else equal_except_server_id existing ev in
    scan_bucket ev ignore_uid rest
      (if equal && (is_empty found || str_lt id found) then id else found)

unfoldable pub find_equivalent : EventItem → Bool → DuplicateIndex → Option String
unfolding scan_bucket
find_equivalent ev ignore_uid index =
    let found = scan_bucket ev ignore_uid (bucket (duplicate_key ev) index).entries "" in
    if is_empty found then none else some found

bucket-set :
    (key q : DuplicateKey) (b : Dict EventItem) (index : DuplicateIndex)
    → bucket q (set_bucket key b index) ≡ (if key_eq key q then b else bucket q index)
unfolding bucket set_bucket
bucket-set key q b [] = refl
bucket-set key q b ((k, c) ∷ rest) =
    ground (arith, bucket-set key q b rest, key_eq_iff k key, key_eq_iff k q, key_eq_iff key q)

bucket-drop :
    (key q : DuplicateKey) (index : DuplicateIndex)
    → bucket q (drop_bucket key index) ≡ (if key_eq key q then empty else bucket q index)
unfolding bucket drop_bucket
bucket-drop key q [] = ground arith
bucket-drop key q ((k, c) ∷ rest) =
    ground (arith, bucket-drop key q rest, key_eq_iff k key, key_eq_iff k q, key_eq_iff key q)

pub bucket-add :
    (id j : String) (ev : EventItem) (q : DuplicateKey) (index : DuplicateIndex)
    → get (bucket q (add id ev index)) j
      ≡ (if key_eq (duplicate_key ev) q && str_eq id j then some ev else get (bucket q index) j)
unfolding add
bucket-add id j ev q index = ground (
  arith,
  bucket-set (duplicate_key ev) q (put (bucket (duplicate_key ev) index) id ev) index,
  get-put (bucket (duplicate_key ev) index) id j ev,
  key_eq_iff (duplicate_key ev) q,
)

pub bucket-remove :
    (id j : String) (ev : EventItem) (q : DuplicateKey) (index : DuplicateIndex)
    → get (bucket q (remove_event id ev index)) j
      ≡ (if key_eq (duplicate_key ev) q && str_eq id j then none else get (bucket q index) j)
unfolding remove_event
bucket-remove id j ev q index =
    let b = bucket (duplicate_key ev) index in
    ground (
      arith,
      bucket-set (duplicate_key ev) q (remove b id) index,
      bucket-drop (duplicate_key ev) q index,
      get-remove b id j,
      key_eq_iff (duplicate_key ev) q,
      get_of_nil (remove b id) j,
      get-empty {V = EventItem} j,
    )

scan_bucket_mem :
    (ev : EventItem) (ignore_uid : Bool) (l : List (String × EventItem)) (found : String)
    → (scan_bucket ev ignore_uid l found ≡ found)
      ⊎ (contains (scan_bucket ev ignore_uid l found) (map (λ e. e.0) l) ≡ true)
unfolding scan_bucket
scan_bucket_mem ev ignore_uid [] found = inl refl
scan_bucket_mem ev ignore_uid ((id, existing) ∷ rest) found =
    let equal =
      if ignore_uid then same_content existing ev else equal_except_server_id existing ev in
    elim (Bool-cases (equal && (is_empty found || str_lt id found))) [
      | inl e ↦ ground (arith, scan_bucket_mem ev ignore_uid rest id, eq_refl id)
      | inr e ↦ ground (arith, scan_bucket_mem ev ignore_uid rest found)
    ]

-- What the search answers is in the bucket of the event.
pub find_equivalent_mem :
    (ev : EventItem) (ignore_uid : Bool) (index : DuplicateIndex) (id : String)
    → find_equivalent ev ignore_uid index ≡ some id
    → get (bucket (duplicate_key ev) index) id ≢ none
unfolding find_equivalent
find_equivalent_mem ev ignore_uid index id h = λ n.
    let b = bucket (duplicate_key ev) index in
    ground (
      arith,
      scan_bucket_mem ev ignore_uid b.entries "",
      contains-keys b id,
      eq_iff (scan_bucket ev ignore_uid b.entries "") "",
    )

add_all-get :
    (q : DuplicateKey) (k : String) (e : EventItem) (l : List (String × EventItem))
    (index : DuplicateIndex)
    → Distinct (map (λ x. x.0) l)
    → get (bucket q (add_all l index)) k ≡ some e
    → (get (bucket q index) k ≡ some e)
      ⊎ ((get (record { entries = l }) k ≡ some e) × (duplicate_key e ≡ q))
unfolding add_all get
add_all-get q k e [] index d h = inl h
add_all-get q k e ((id, ev) ∷ rest) index d h = ground (
  arith,
  add_all-get q k e rest (add id ev index) d.1,
  bucket-add id k ev q index,
  key_eq_iff (duplicate_key ev) q,
  eq_iff id k,
  contains-keys (record { entries = rest }) k,
)

-- The index of a map holds its events, each in its own bucket.
pub new_index_lem :
    (events : Dict EventItem) (q : DuplicateKey) (k : String) (e : EventItem)
    → Distinct (keys events)
    → get (bucket q (new_index events)) k ≡ some e
    → (get events k ≡ some e) × (duplicate_key e ≡ q)
unfolding new_index bucket
new_index_lem events q k e d h =
    ground (arith, add_all-get q k e events.entries [] d h, get-empty {V = EventItem} k)

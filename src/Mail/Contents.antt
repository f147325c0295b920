-- ===== src/Mail/Contents.antt =====
-- The contents of a folder after a synchronisation.
use eas_bridge.Prelude.{
  String, ◌≡◌, ◌≢◌, refl, ◌∙◌, sym, ap, true, false, not, ◌&&◌, ◌||◌, none, some, List, [], ◌∷◌,
  ◌++◌, arith, str_eq, eq_iff, eq_refl, if◌then◌else◌, contains, Distinct, is_empty, Bool-cases,
  Option-cases, subst, inl, inr,
}
use eas_bridge.Dict.{empty, get, put, get_or, has, get-put, get-empty}
use eas_bridge.Eas.{EmailItem, no_email}
use eas_bridge.Store.Uids.Allocation.{server_ids}
use eas_bridge.Mail.Merge.{merge_email_change, merge_email_item, merge_email_metadata, text_or}
use eas_bridge.Mail.Collect.{Changes}
use eas_bridge.Mail.Apply.{
  Merge, place, load_items, add_items, place_change, change_items, pick_items, merge_of,
  merged_items,
}

-- The order names the keys of `existing`, each once, and an item stands under its own ID.
record IsMerge (m : Merge) : Type 0 where
  single : Distinct m.order
  named : (k : String) (it : EmailItem) → get m.existing k ≡ some it → it.server_id ≡ k
  known : (k : String) → contains k m.order ≡ has m.existing k

contains-append_one :
    (k j : String) (l : List String) → contains k (l ++ j ∷ []) ≡ (contains k l || str_eq j k)
contains-append_one k j [] = ground arith
contains-append_one k j (i ∷ l) = ground (arith, contains-append_one k j l)

Distinct-append_one :
    (j : String) (l : List String) → Distinct l → contains j l ≡ false → Distinct (l ++ j ∷ [])
Distinct-append_one j [] d h = (refl, tt)
Distinct-append_one j (i ∷ l) d h = (
  ground (arith, d.0, contains-append_one i j l, eq_iff i j, eq_iff j i),
  Distinct-append_one j l d.1 (ground (arith, h)),
)

text_or_same : (b a : String) → b ≡ a → text_or a b ≡ a
text_or_same b a e = ground (arith, e)

merge_email_change-server_id :
    (before it : EmailItem)
    → (is_empty before.server_id || str_eq before.server_id it.server_id) ≡ true
    → (merge_email_change before it).server_id ≡ it.server_id
unfolding merge_email_change merge_email_item merge_email_metadata
merge_email_change-server_id before it h = elim (Bool-cases (is_empty before.server_id)) [
  | inl e ↦ rw (e, merge_email_change) refl
  | inr e ↦
      rw (e, merge_email_change)
        (text_or_same before.server_id it.server_id
          (ground (arith, h, e, eq_iff before.server_id it.server_id)))
]

-- One item that is placed under its ID, new or not.
placed :
    (m : Merge) (id : String) (it : EmailItem) (invalidated : List String)
    → it.server_id ≡ id
    → IsMerge m
    → IsMerge (record {
      existing = put m.existing id it;
      order = if has m.existing id then m.order else m.order ++ id ∷ [];
      invalidated = invalidated;
    })
placed m id it invalidated e w = elim (Bool-cases (has m.existing id)) [
  | inl h ↦ rw h record {
    single = w.single;
    named = λ k x g. ground (arith, get-put m.existing id k it, eq_iff id k, e, w.named k x);
    known = λ k. ground (arith, get-put m.existing id k it, eq_iff id k, w.known k, h);
  }
  | inr h ↦ rw h record {
    single = Distinct-append_one id m.order w.single (w.known id ∙ h);
    named = λ k x g. ground (arith, get-put m.existing id k it, eq_iff id k, e, w.named k x);
    known = λ k. ground (
      arith,
      get-put m.existing id k it,
      eq_iff id k,
      w.known k,
      contains-append_one k id m.order,
    );
  }
]

load_items-IsMerge :
    (its : List EmailItem) (m : Merge)
    → IsMerge m
    → Distinct (server_ids its)
    → ((k : String) → contains k (server_ids its) ≡ true → has m.existing k ≡ false)
    → IsMerge (load_items its m)
unfolding load_items server_ids
load_items-IsMerge [] m w d new = w
load_items-IsMerge (it ∷ its) m w d new =
    let sid = it.server_id in
    let absent : has m.existing sid ≡ false = new sid (ground (arith, eq_refl sid)) in
    let next =
      subst
        (λ b. IsMerge (record m {
          existing = put m.existing sid it;
          order = if b then m.order else m.order ++ sid ∷ [];
        }))
        absent (placed m sid it m.invalidated refl w) in
    load_items-IsMerge its
      (record m { existing = put m.existing sid it; order = m.order ++ sid ∷ [] }) next d.1
      (λ k h. ground (arith, get-put m.existing sid k it, new k, h, d.0, eq_iff sid k))

add_items-IsMerge : (its : List EmailItem) (m : Merge) → IsMerge m → IsMerge (add_items its m)
unfolding add_items place
add_items-IsMerge [] m w = w
add_items-IsMerge (it ∷ its) m w =
    add_items-IsMerge its (place it (it.server_id ∷ []) m)
      (placed m it.server_id it (m.invalidated ++ it.server_id ∷ []) refl w)

before_of :
    (m : Merge) (id : String)
    → IsMerge m
    → (is_empty (get_or no_email m.existing id).server_id
        || str_eq (get_or no_email m.existing id).server_id id)
      ≡ true
before_of m id w = elim (Option-cases (get m.existing id)) [
  | inl e ↦ rw (e, get_or) refl
  | inr (it, e) ↦
      rw (e, get_or) (ground (arith, w.named id it e, eq_refl id, eq_iff it.server_id id))
]

set_not_missing : (m : Merge) (id : String) → has m.existing id ≡ true → get m.existing id ≢ none
set_not_missing m id h e = ground arith

stands_under :
    (m : Merge) (id : String)
    → IsMerge m
    → has m.existing id ≡ true
    → (get_or no_email m.existing id).server_id ≡ id
stands_under m id w h = elim (Option-cases (get m.existing id)) [
  | inl e ↦ absurd (set_not_missing m id h e)
  | inr (it, e) ↦ rw (e, get_or) (w.named id it e)
]

change_items-IsMerge : (its : List EmailItem) (m : Merge) → IsMerge m → IsMerge (change_items its m)
unfolding change_items place_change
change_items-IsMerge [] m w = w
change_items-IsMerge (it ∷ its) m w =
    let before = get_or no_email m.existing it.server_id in
    change_items-IsMerge its (place_change before it m) (
      placed m it.server_id (merge_email_change before it) (place_change before it m).invalidated
        (merge_email_change-server_id before it (before_of m it.server_id w)) w)

pick-server_ids :
    (deleted : List String) (m : Merge) (ids : List String)
    → IsMerge m
    → ((k : String) → contains k ids ≡ true → has m.existing k ≡ true)
    → Distinct ids
    → Distinct (server_ids (pick_items deleted m.existing ids))
      × ((k : String)
          → contains k (server_ids (pick_items deleted m.existing ids))
            ≡ (contains k ids && not (contains k deleted)))
unfolding pick_items server_ids
pick-server_ids deleted m [] w h d = (tt, λ k. refl)
pick-server_ids deleted m (id ∷ ids) w h d =
    let rest = pick-server_ids deleted m ids w (λ k g. h k (ground (arith, g))) d.1 in
    let named = stands_under m id w (h id (ground (arith, eq_refl id))) in
    elim (Bool-cases (contains id deleted)) [
      | inl e ↦ rw (e, pick_items) (rest.0, λ k. ground (arith, rest.1 k, e, eq_iff id k))
      | inr e ↦
          rw (e, pick_items, named)
            (
              (ground (arith, rest.1 id, d.0), rest.0),
              λ k. ground (arith, rest.1 k, e, eq_iff id k),
            )
    ]

-- The IDs that are known after each of the three loops.
has-load_items :
    (its : List EmailItem) (m : Merge) (k : String)
    → has (load_items its m).existing k ≡ (has m.existing k || contains k (server_ids its))
unfolding load_items server_ids
has-load_items [] m k = ground arith
has-load_items (it ∷ its) m k =
    let next = record m {
      existing = put m.existing it.server_id it;
      order = m.order ++ it.server_id ∷ [];
    } in
    ground (arith, has-load_items its next k, get-put m.existing it.server_id k it)

has-add_items :
    (its : List EmailItem) (m : Merge) (k : String)
    → has (add_items its m).existing k ≡ (has m.existing k || contains k (server_ids its))
unfolding add_items server_ids place
has-add_items [] m k = ground arith
has-add_items (it ∷ its) m k = ground (
  arith,
  has-add_items its (place it (it.server_id ∷ []) m) k,
  get-put m.existing it.server_id k it,
)

has-change_items :
    (its : List EmailItem) (m : Merge) (k : String)
    → has (change_items its m).existing k ≡ (has m.existing k || contains k (server_ids its))
unfolding change_items server_ids place_change
has-change_items [] m k = ground arith
has-change_items (it ∷ its) m k =
    let before = get_or no_email m.existing it.server_id in
    ground (
      arith,
      has-change_items its (place_change before it m) k,
      get-put m.existing it.server_id k (merge_email_change before it),
    )

module _ (items : List EmailItem) (c : Changes) (d : Distinct (server_ids items)) where
  start : Merge
  start = record { existing = empty; order = []; invalidated = [] }

  start-IsMerge : IsMerge start
  unfolding start
  start-IsMerge = record {
    single = tt;
    named = λ k it h. ground (arith, get-empty {V = EmailItem} k);
    known = λ k. ground (arith, get-empty {V = EmailItem} k);
  }

  merge_of-IsMerge : IsMerge (merge_of items c)
  unfolding merge_of start
  merge_of-IsMerge =
      let loaded =
        load_items-IsMerge items start start-IsMerge d
          (λ k h. ground (arith, get-empty {V = EmailItem} k)) in
      let added = add_items-IsMerge c.added (load_items items start) loaded in
      let w = change_items-IsMerge c.changed (add_items c.added (load_items items start)) added in
      record { single = w.single; named = w.named; known = w.known }

  has-merge_of :
      (k : String)
      → has (merge_of items c).existing k ≡ (
          contains k (server_ids items)
          || contains k (server_ids c.added)
          || contains k (server_ids c.changed))
  unfolding merge_of start
  has-merge_of k = ground (
    arith,
    has-load_items items start k,
    has-add_items c.added (load_items items start) k,
    has-change_items c.changed (add_items c.added (load_items items start)) k,
    get-empty {V = EmailItem} k,
  )

  -- Take a folder that holds no server ID twice. After a synchronisation it again holds no server ID
  -- twice, and it holds exactly the IDs that were there, added or changed, and were not deleted.
  pub merged_items-server_ids :
      Distinct (server_ids (merged_items items c))
      × ((k : String)
          → contains k (server_ids (merged_items items c)) ≡ (
              (contains k (server_ids items)
                || contains k (server_ids c.added)
                || contains k (server_ids c.changed))
              && not (contains k c.deleted)))
  unfolding merged_items
  merged_items-server_ids =
      let m = merge_of items c in
      let w = merge_of-IsMerge in
      let r = pick-server_ids c.deleted m m.order w (λ k h. sym (w.known k) ∙ h) w.single in
      (r.0, λ k. r.1 k ∙ ap (λ b. b && not (contains k c.deleted)) (w.known k ∙ has-merge_of k))

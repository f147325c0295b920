-- ===== src/Store/Uids/Tagging.antt =====
-- The rows that `assignUIDs` sorts: their server IDs and UIDs come from the batch and the reverse table.
use eas_bridge.Prelude.{
  Distinct, ℕ, ◌≤◌, ◌<◌, String, ◌≡◌, ◌≢◌, ◌∙◌, ap, refl, none, some, List, [], ◌∷◌, map, arith,
  eq_iff, eq_refl, contains, true, false,
}
use eas_bridge.Dict.{Dict, get}
use eas_bridge.Eas.{EmailItem}
use eas_bridge.Store.{UidEntry}
use eas_bridge.Store.Uids.{Tagged, tag, entry_of}
use eas_bridge.Store.Uids.Table.{Below, ids}
use eas_bridge.Store.Uids.Sorting.{Free, DistinctUids, entries, AtLeast, Agrees}
use eas_bridge.Store.Uids.Allocation.{server_ids}

module _ (m : Dict ℕ) where
  pub contains-tag :
      (k : String) (its : List EmailItem)
      → contains k (ids (entries (tag m its))) ≡ contains k (server_ids its)
  unfolding tag server_ids entry_of
  contains-tag k [] = refl
  contains-tag k (it ∷ its) = ground (arith, contains-tag k its)

  pub tag-Distinct :
      (its : List EmailItem) → Distinct (server_ids its) → Distinct (ids (entries (tag m its)))
  unfolding tag server_ids entry_of
  tag-Distinct [] d = tt
  tag-Distinct (it ∷ its) d = (contains-tag it.server_id its ∙ d.0, tag-Distinct its d.1)

  pub tag-Agrees :
      (its : List EmailItem)
      → ((k : String) → contains k (server_ids its) ≡ true → get m k ≢ none)
      → Agrees m (entries (tag m its))
  unfolding tag server_ids entry_of
  tag-Agrees [] c = tt
  tag-Agrees (it ∷ its) c = (
    ground (arith, c it.server_id, eq_refl it.server_id),
    tag-Agrees its (λ k h. c k (ground arith)),
  )

  pub map_item-tag : (its : List EmailItem) → map (λ t. t.item) (tag m its) ≡ its
  unfolding tag
  map_item-tag [] = refl
  map_item-tag (it ∷ its) = ap (◌∷◌ it) (map_item-tag its)

pub ids-entries : (ts : List Tagged) → ids (entries ts) ≡ server_ids (map (λ t. t.item) ts)
unfolding server_ids entry_of
ids-entries [] = refl
ids-entries (t ∷ ts) = ap (◌∷◌ t.item.server_id) (ids-entries ts)

module _ (m : Dict ℕ) where
  pub Agrees-AtLeast :
      (ts : List Tagged)
      → ((k : String) (u : ℕ) → get m k ≡ some u → 1 ≤ u)
      → Agrees m (entries ts)
      → AtLeast 1 ts
  unfolding entry_of
  Agrees-AtLeast [] low a = tt
  Agrees-AtLeast (t ∷ ts) low a = (low t.item.server_id t.uid a.0, Agrees-AtLeast ts low a.1)

  pub Agrees-Below :
      (es : List UidEntry) (hi : ℕ)
      → ((k : String) (u : ℕ) → get m k ≡ some u → u < hi)
      → Agrees m es
      → Below hi es
  Agrees-Below [] hi high a = tt
  Agrees-Below (e ∷ es) hi high a = (high e.server_id e.uid a.0, Agrees-Below es hi high a.1)

  module _ (inj : (k j : String) (u : ℕ) → get m k ≡ some u → get m j ≡ some u → k ≡ j) where
    Agrees-Free :
        (k : String) (u : ℕ) (ts : List Tagged)
        → get m k ≡ some u
        → contains k (ids (entries ts)) ≡ false
        → Agrees m (entries ts)
        → Free u ts
    unfolding entry_of
    Agrees-Free k u [] g c a = tt
    Agrees-Free k u (t ∷ ts) g c a = (
      λ same. ground (arith, inj k t.item.server_id u g, eq_iff t.item.server_id k),
      Agrees-Free k u ts g (ground arith) a.1,
    )

    pub Agrees-DistinctUids :
        (ts : List Tagged) → Distinct (ids (entries ts)) → Agrees m (entries ts) → DistinctUids ts
    unfolding entry_of
    Agrees-DistinctUids [] d a = tt
    Agrees-DistinctUids (t ∷ ts) d a =
        (Agrees-Free t.item.server_id t.uid ts a.0 d.0 a.1, Agrees-DistinctUids ts d.1 a.1)

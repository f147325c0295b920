-- ===== src/Store/Uids/Sorting.antt =====
-- The sort by UID: it keeps the entries, and distinct UIDs come out strictly rising.
use eas_bridge.Prelude.{
  Distinct, ℕ, ◌+◌, ◌≤◌, ◌<◌, String, ◌≡◌, ◌≢◌, refl, ◌∙◌, ap, false, none, some, List, [], ◌∷◌,
  map, arith, str_eq, eq_iff, if◌then◌else◌, contains, leb, ◌||◌, Bool-cases, inl, inr,
}
use mathlib.Core.List.{Perm}
use mathlib.Core.List.Perm
use eas_bridge.Dict.{Dict, get}
use eas_bridge.Store.{UidEntry}
use eas_bridge.Store.Uids.{Tagged, insert_tagged, sort_tagged, entry_of}
use eas_bridge.Store.Uids.Table.{Ascending, Below, ids, uid_of}

-- No entry of the list has the UID.
abbrev pub Free : ℕ → List Tagged → Type 0
Free u [] = Unit {0}
Free u (t ∷ ts) = (t.uid ≢ u) × Free u ts

abbrev pub DistinctUids : List Tagged → Type 0
DistinctUids [] = Unit {0}
DistinctUids (t ∷ ts) = Free t.uid ts × DistinctUids ts

abbrev pub entries : List Tagged → List UidEntry
entries = map entry_of

Free-insert :
    (u : ℕ) (t : Tagged) (ts : List Tagged) → t.uid ≢ u → Free u ts → Free u (insert_tagged t ts)
unfolding insert_tagged
Free-insert u t [] n f = (n, tt)
Free-insert u t (s ∷ ss) n f = ground (arith, Free-insert u t ss)

Free-sort : (u : ℕ) (ts : List Tagged) → Free u ts → Free u (sort_tagged ts)
unfolding sort_tagged
Free-sort u [] f = tt
Free-sort u (t ∷ ts) f = Free-insert u t (sort_tagged ts) f.0 (Free-sort u ts f.1)

insert-Ascending :
    (lo : ℕ) (t : Tagged) (ts : List Tagged)
    → lo ≤ t.uid
    → Free t.uid ts
    → Ascending lo (entries ts)
    → Ascending lo (entries (insert_tagged t ts))
unfolding insert_tagged entry_of
insert-Ascending lo t [] l f a = (l, tt)
insert-Ascending lo t (s ∷ ss) l f a = ground (arith, insert-Ascending (s.uid + 1) t ss)

abbrev pub AtLeast : ℕ → List Tagged → Type 0
AtLeast lo [] = Unit {0}
AtLeast lo (t ∷ ts) = (lo ≤ t.uid) × AtLeast lo ts

pub sort-Ascending :
    (lo : ℕ) (ts : List Tagged)
    → AtLeast lo ts
    → DistinctUids ts
    → Ascending lo (entries (sort_tagged ts))
unfolding sort_tagged
sort-Ascending lo [] l d = tt
sort-Ascending lo (t ∷ ts) l d =
    insert-Ascending lo t (sort_tagged ts) l.0 (Free-sort t.uid ts d.0)
      (sort-Ascending lo ts l.1 d.1)

insert-Below :
    (hi : ℕ) (t : Tagged) (ts : List Tagged)
    → t.uid < hi
    → Below hi (entries ts)
    → Below hi (entries (insert_tagged t ts))
unfolding insert_tagged entry_of
insert-Below hi t [] l b = (l, tt)
insert-Below hi t (s ∷ ss) l b = ground (arith, insert-Below hi t ss)

pub sort-Below :
    (hi : ℕ) (ts : List Tagged) → Below hi (entries ts) → Below hi (entries (sort_tagged ts))
unfolding sort_tagged entry_of
sort-Below hi [] b = tt
sort-Below hi (t ∷ ts) b = insert-Below hi t (sort_tagged ts) b.0 (sort-Below hi ts b.1)

contains-insert :
    (k : String) (t : Tagged) (ts : List Tagged)
    → contains k (ids (entries (insert_tagged t ts)))
      ≡ (str_eq t.item.server_id k || contains k (ids (entries ts)))
unfolding insert_tagged entry_of
contains-insert k t [] = refl
contains-insert k t (s ∷ ss) = ground (arith, contains-insert k t ss)

pub contains-sort :
    (k : String) (ts : List Tagged)
    → contains k (ids (entries (sort_tagged ts))) ≡ contains k (ids (entries ts))
unfolding sort_tagged entry_of
contains-sort k [] = refl
contains-sort k (t ∷ ts) =
    contains-insert k t (sort_tagged ts)
    ∙ ap (λ b. str_eq t.item.server_id k || b) (contains-sort k ts)

insert-Distinct :
    (t : Tagged) (ts : List Tagged)
    → contains t.item.server_id (ids (entries ts)) ≡ false
    → Distinct (ids (entries ts))
    → Distinct (ids (entries (insert_tagged t ts)))
unfolding insert_tagged entry_of
insert-Distinct t [] c d = (refl, tt)
insert-Distinct t (s ∷ ss) c d = ground (
  arith,
  insert-Distinct t ss,
  contains-insert s.item.server_id t ss,
  eq_iff s.item.server_id t.item.server_id,
  eq_iff t.item.server_id s.item.server_id,
)

pub sort-Distinct :
    (ts : List Tagged) → Distinct (ids (entries ts)) → Distinct (ids (entries (sort_tagged ts)))
unfolding sort_tagged entry_of
sort-Distinct [] d = tt
sort-Distinct (t ∷ ts) d =
    insert-Distinct t (sort_tagged ts) (contains-sort t.item.server_id ts ∙ d.0)
      (sort-Distinct ts d.1)

-- Every entry has the UID that the table `m` gives its server ID.
abbrev pub Agrees : Dict ℕ → List UidEntry → Type 0
Agrees m [] = Unit {0}
Agrees m (e ∷ es) = (get m e.server_id ≡ some e.uid) × Agrees m es

insert-Agrees :
    (m : Dict ℕ) (t : Tagged) (ts : List Tagged)
    → get m t.item.server_id ≡ some t.uid
    → Agrees m (entries ts)
    → Agrees m (entries (insert_tagged t ts))
unfolding insert_tagged entry_of
insert-Agrees m t [] l b = (l, tt)
insert-Agrees m t (s ∷ ss) l b = ground (arith, insert-Agrees m t ss)

pub sort-Agrees :
    (m : Dict ℕ) (ts : List Tagged) → Agrees m (entries ts) → Agrees m (entries (sort_tagged ts))
unfolding sort_tagged entry_of
sort-Agrees m [] b = tt
sort-Agrees m (t ∷ ts) b = insert-Agrees m t (sort_tagged ts) b.0 (sort-Agrees m ts b.1)

pub uid_of-Agrees :
    (m : Dict ℕ) (es : List UidEntry) (k : String)
    → Agrees m es
    → uid_of k es ≡ (if contains k (ids es) then get m k else none)
unfolding uid_of
uid_of-Agrees m [] k a = refl
uid_of-Agrees m (e ∷ es) k a = ground (arith, uid_of-Agrees m es k a.1, eq_iff e.server_id k)

insert-perm : (t : Tagged) (ts : List Tagged) → Perm (insert_tagged t ts) (t ∷ ts)
unfolding insert_tagged
insert-perm t [] = Perm.refl (t ∷ [])
insert-perm t (s ∷ ss) = elim (Bool-cases (leb t.uid s.uid)) [
  | inl here ↦ rw here (Perm.refl (t ∷ s ∷ ss))
  | inr later ↦ rw later (Perm.trans (Perm.cons s (insert-perm t ss)) (Perm.swap t s ss))
]

pub sort-perm : (ts : List Tagged) → Perm (sort_tagged ts) ts
unfolding sort_tagged
sort-perm [] = Perm.refl []
sort-perm (t ∷ ts) = Perm.trans (insert-perm t (sort_tagged ts)) (Perm.cons t (sort-perm ts))

-- ===== src/Store/Uids/Table.antt =====
-- What a UID table is when it is in order, and what its lookups find.
use eas_bridge.Prelude.{
  ℕ, ◌+◌, ◌≤◌, ◌<◌, ◌-◌, ◌^◌, String, ◌≡◌, refl, false, Option, none, some, List, [], ◌∷◌, arith,
  str_eq, eq_iff, if◌then◌else◌, contains, Distinct, leb,
}
use eas_bridge.Dict.{Dict, get, put, get-put}
use eas_bridge.Store.{UidEntry, u32}
use eas_bridge.Store.Uids.{sid_map_of, raise_next, find_uid}

-- UIDs rise strictly along the table, from `lo` on.
abbrev pub Ascending : ℕ → List UidEntry → Type 0
Ascending lo [] = Unit {0}
Ascending lo (e ∷ es) = (lo ≤ e.uid) × Ascending (e.uid + 1) es

abbrev pub Below : ℕ → List UidEntry → Type 0
Below hi [] = Unit {0}
Below hi (e ∷ es) = (e.uid < hi) × Below hi es

abbrev pub ids : List UidEntry → List String
ids [] = []
ids (e ∷ es) = e.server_id ∷ ids es

unfoldable pub uid_of : String → List UidEntry → Option ℕ
uid_of k [] = none
uid_of k (e ∷ es) = if str_eq e.server_id k then some e.uid else uid_of k es

-- A table in order: UIDs from 1 on, strictly rising, each server ID once, all below `next`.
pub record IsOrdered (es : List UidEntry) : Type 0 where
  pub ascending : Ascending 1 es
  pub distinct : Distinct (ids es)

pub Below-mono : (es : List UidEntry) (a b : ℕ) → a ≤ b → Below a es → Below b es
Below-mono [] a b h p = tt
Below-mono (e ∷ es) a b h p = (omega arith, Below-mono es a b h p.1)

pub uid_of-le :
    (k : String) (es : List UidEntry) (lo u : ℕ) → Ascending lo es → uid_of k es ≡ some u → lo ≤ u
unfolding uid_of
uid_of-le k [] lo u a h = cc
uid_of-le k (e ∷ es) lo u a h = ground (arith, uid_of-le k es (e.uid + 1) u a.1)

pub uid_of-lt :
    (k : String) (es : List UidEntry) (hi u : ℕ) → Below hi es → uid_of k es ≡ some u → u < hi
unfolding uid_of
uid_of-lt k [] hi u a h = cc
uid_of-lt k (e ∷ es) hi u a h = ground (arith, uid_of-lt k es hi u a.1)

-- One UID stands for one server ID.
pub uid_of-inj :
    (k j : String) (es : List UidEntry) (lo u : ℕ)
    → Ascending lo es
    → uid_of k es ≡ some u
    → uid_of j es ≡ some u
    → k ≡ j
unfolding uid_of
uid_of-inj k j [] lo u a p q = cc
uid_of-inj k j (e ∷ es) lo u a p q = ground (
  arith,
  eq_iff e.server_id k,
  eq_iff e.server_id j,
  uid_of-inj k j es (e.uid + 1) u a.1,
  uid_of-le k es (e.uid + 1) u a.1,
  uid_of-le j es (e.uid + 1) u a.1,
)

pub uid_of_absent :
    (k : String) (es : List UidEntry) → contains k (ids es) ≡ false → uid_of k es ≡ none
unfolding uid_of
uid_of_absent k [] h = refl
uid_of_absent k (e ∷ es) h = ground (arith, uid_of_absent k es)

abbrev pub or_else : Option ℕ → Option ℕ → Option ℕ
or_else none o = o
or_else (some u) o = some u

-- On distinct server IDs the reverse table agrees with the first entry.
pub get-sid_map_of :
    (es : List UidEntry) (m : Dict ℕ) (k : String)
    → Distinct (ids es)
    → get (sid_map_of m es) k ≡ or_else (uid_of k es) (get m k)
unfolding sid_map_of uid_of
get-sid_map_of [] m k d = refl
get-sid_map_of (e ∷ es) m k d = ground (
  arith,
  get-sid_map_of es (put m e.server_id e.uid) k d.1,
  get-put m e.server_id k e.uid,
  eq_iff e.server_id k,
  uid_of_absent e.server_id es d.0,
)

-- The defence loop does not lower the counter, unless it wraps.
pub raise_next-le : (es : List UidEntry) (n : ℕ) → Below (2 ^ 32 - 1) es → n ≤ raise_next n es
unfolding raise_next
raise_next-le [] n b = omega arith
raise_next-le (e ∷ es) n b =
    ground (arith, raise_next-le es (if leb n e.uid then u32 (e.uid + 1) else n) b.1)

-- It ends above every UID of the table.
pub raise_next-Below :
    (es : List UidEntry) (n : ℕ) → Below (2 ^ 32 - 1) es → Below (raise_next n es) es
unfolding raise_next
raise_next-Below [] n b = tt
raise_next-Below (e ∷ es) n b =
    let next : ℕ = if leb n e.uid then u32 (e.uid + 1) else n in
    (ground (arith, raise_next-le es next b.1), raise_next-Below es next b.1)

pub find_uid-uid_of :
    (k : String) (es : List UidEntry) (u : ℕ) → uid_of k es ≡ some u → find_uid k es ≡ u
unfolding find_uid uid_of
find_uid-uid_of k [] u h = cc
find_uid-uid_of k (e ∷ es) u h = ground (arith, find_uid-uid_of k es u)

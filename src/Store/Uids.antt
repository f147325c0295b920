-- ===== src/Store/Uids.antt =====
-- The allocation of IMAP UIDs: `assignUIDs` (state.go) and the lookups of the UID table.
pub mod Table
pub mod Sorting
pub mod Allocation
pub mod Tagging
pub mod Assignment
pub mod Stability
use eas_bridge.Prelude.{
  ℕ, ◌+◌, String, Bool, true, false, Option, none, some, List, [], ◌∷◌, ◌++◌, map, leb, ◌==◌,
  str_eq, if◌then◌else◌,
}
use eas_bridge.Dict.{Dict, empty, get, put, get_or}
use eas_bridge.Eas.{EmailItem}
use eas_bridge.Store.{DiskState, UidEntry, FolderMeta, no_meta, u32}

-- The two defaults, then the defence against a `next_uid` that is older than the table.
unfoldable pub init_meta : ℕ → FolderMeta → FolderMeta
init_meta now meta = record {
  next_uid = if meta.next_uid == 0 then 1 else meta.next_uid;
  uid_validity = if meta.uid_validity == 0 then u32 now else meta.uid_validity;
}

unfoldable pub raise_next : ℕ → List UidEntry → ℕ
raise_next next [] = next
raise_next next (e ∷ es) = raise_next (if leb next e.uid then u32 (e.uid + 1) else next) es

-- The reverse table `sidMap`: a later entry overwrites an earlier one.
unfoldable pub sid_map_of : Dict ℕ → List UidEntry → Dict ℕ
sid_map_of m [] = m
sid_map_of m (e ∷ es) = sid_map_of (put m e.server_id e.uid) es

pub record Alloc : Type 0 where
  pub next_uid : ℕ
  pub sid_map : Dict ℕ
  pub uids : List UidEntry

-- One round of the loop that gives new mail its UID.
unfoldable pub allocate_item : EmailItem → Alloc → Alloc
allocate_item it a = elim (get a.sid_map it.server_id) [
  | some u ↦ a
  | none ↦ record {
    next_uid = u32 (a.next_uid + 1);
    sid_map = put a.sid_map it.server_id a.next_uid;
    uids = a.uids ++ record { server_id = it.server_id; uid = a.next_uid } ∷ [];
  }
]

unfoldable pub allocate : List EmailItem → Alloc → Alloc
allocate [] a = a
allocate (it ∷ its) a = allocate its (allocate_item it a)

-- `withUID`
pub record Tagged : Type 0 where
  pub item : EmailItem
  pub uid : ℕ

unfoldable pub tag : Dict ℕ → List EmailItem → List Tagged
tag m [] = []
tag m (it ∷ its) = record { item = it; uid = get_or 0 m it.server_id } ∷ tag m its

-- `sort.Slice(tagged, …uid < …uid)`
unfoldable pub insert_tagged : Tagged → List Tagged → List Tagged
insert_tagged t [] = t ∷ []
insert_tagged t (s ∷ ss) =
    let rest = insert_tagged t ss in if leb t.uid s.uid then t ∷ s ∷ ss else s ∷ rest

unfoldable pub sort_tagged : List Tagged → List Tagged
sort_tagged [] = []
sort_tagged (t ∷ ts) = insert_tagged t (sort_tagged ts)

unfoldable pub entry_of : Tagged → UidEntry
entry_of t = record { server_id = t.item.server_id; uid = t.uid }

unfoldable pub start_alloc : FolderMeta → List UidEntry → Alloc
unfolding raise_next sid_map_of
start_alloc meta old = record {
  next_uid = raise_next meta.next_uid old;
  sid_map = sid_map_of empty old;
  uids = old;
}

unfoldable pub folder_alloc : ℕ → String → List EmailItem → DiskState → Alloc
unfolding init_meta start_alloc allocate_item allocate
folder_alloc now f items s =
    allocate items
      (start_alloc (init_meta now (get_or no_meta s.folder_meta f)) (get_or [] s.uids f))

unfoldable pub assign_uids : ℕ → String → List EmailItem → DiskState → List EmailItem × DiskState
unfolding folder_alloc tag insert_tagged sort_tagged entry_of
assign_uids now f items s =
    let meta = init_meta now (get_or no_meta s.folder_meta f) in
    let done = folder_alloc now f items s in
    let tagged = sort_tagged (tag done.sid_map items) in
    let s' : DiskState = record s {
      folder_meta = put s.folder_meta f (record meta { next_uid = done.next_uid });
      uids = put s.uids f (map entry_of tagged);
    } in
    (map (λ t. t.item) tagged, s')

-- The first entry with the server ID; 0 if there is none.
unfoldable pub find_uid : String → List UidEntry → ℕ
find_uid sid [] = 0
find_uid sid (e ∷ es) = if str_eq e.server_id sid then e.uid else find_uid sid es

unfoldable pub uid_for_server_id : String → String → DiskState → ℕ
unfolding find_uid
uid_for_server_id f sid s = find_uid sid (get_or [] s.uids f)

unfoldable pub uid_validity : String → DiskState → ℕ
uid_validity f s = (get_or no_meta s.folder_meta f).uid_validity

-- The first entry with the UID.
unfoldable pub find_sid : ℕ → List UidEntry → Option String
find_sid u [] = none
find_sid u (e ∷ es) = if e.uid == u then some e.server_id else find_sid u es

unfoldable pub find_item : String → List EmailItem → Option EmailItem
find_item sid [] = none
find_item sid (it ∷ its) = if str_eq it.server_id sid then some it else find_item sid its

-- The loop stops at the first entry with the UID, whether its item is there or not.
unfoldable pub find_item_by_uid : String → ℕ → DiskState → Option EmailItem
unfolding find_sid find_item
find_item_by_uid f u s = elim (find_sid u (get_or [] s.uids f)) [
  | none ↦ none
  | some sid ↦ find_item sid (get_or [] s.items f)
]

-- The empty text stands for "not found".
unfoldable pub server_id_for_uid : String → ℕ → DiskState → String
unfolding find_sid
server_id_for_uid f u s = elim (find_sid u (get_or [] s.uids f)) [ none ↦ "" | some sid ↦ sid ]

-- ===== src/Persist/Marks.antt =====
-- What the marks and the removals of mail do to the mail that IMAP looks up.
use eas_bridge.Prelude.{
  String, ◌≡◌, refl, sym, ◌∙◌, ap, Bool, true, false, ◌&&◌, Option, none, some, List, [], ◌∷◌,
  arith, str_eq, eq_iff, if◌then◌else◌, contains,
}
use eas_bridge.Dict.{
  Dict, empty, get, put, remove, get_or, get-put, get-remove, get-empty, get_or-put_self,
}
use eas_bridge.Eas.{EmailItem}
use eas_bridge.Store.{DiskState}
use eas_bridge.Store.Uids.{find_item}
use eas_bridge.Persist.Disk.{Host, save_folder, holds, shard_of}
use eas_bridge.Persist.Names.{shard_file_name}
use eas_bridge.Persist.Crash.{state-write}
use eas_bridge.Persist.Operations.{
  change_first, change_item, mark_read, deleted_marks, mark_deleted, set_deleted, is_deleted,
  keep_items, remove_marks, without_items, remove_items,
}

-- A write does not change the memory, whether it succeeds or not.
pub save_folder-state : (f : String) (h : Host) → ((save_folder f h).1).state ≡ h.state
unfolding save_folder
save_folder-state f h =
    state-write
      (λ d. record d { shards = put d.shards (shard_file_name f) (holds (shard_of f h.state)) }) h

find_item-keep :
    (ids : List String) (id : String) (its : List EmailItem)
    → find_item id (keep_items ids its) ≡ (if contains id ids then none else find_item id its)
unfolding find_item keep_items
find_item-keep ids id [] = ground arith
find_item-keep ids id (it ∷ its) = ground (arith, find_item-keep ids id its, eq_iff it.server_id id)

get-remove_marks :
    (ids : List String) (m : Dict Bool) (id : String)
    → get (remove_marks ids m) id ≡ (if contains id ids then none else get m id)
unfolding remove_marks
get-remove_marks [] m id = refl
get-remove_marks (j ∷ ids) m id =
    ground (arith, get-remove_marks ids (remove m j) id, get-remove m j id, eq_iff j id)

abbrev pub mail : String → DiskState → List EmailItem
mail f s = get_or [] s.items f

removing_marks :
    (d : Dict (Dict Bool)) (f : String) (ids : List String) (id : String)
    (found : Option (Dict Bool))
    → get d f ≡ found
    → (let after : Dict (Dict Bool) = elim found [
      | none ↦ d
      | some m ↦ put d f (remove_marks ids m)
    ] in
        get_or false (get_or empty after f) id
        ≡ (if contains id ids then false else get_or false (get_or empty d f) id))
removing_marks d f ids id none e = ground (arith, e, get-empty {V = Bool} id)
removing_marks d f ids id (some m) e =
    ground (arith, e, get-put d f f (remove_marks ids m), get-remove_marks ids m id, eq_iff f f)

without_items-find :
    (f : String) (ids : List String) (s : DiskState) (id : String)
    → (find_item id (mail f (without_items f ids s))
        ≡ (if contains id ids then none else find_item id (mail f s)))
      × (is_deleted f id (without_items f ids s)
          ≡ (if contains id ids then false else is_deleted f id s))
unfolding without_items is_deleted deleted_marks
without_items-find f ids s id = (
  ap (find_item id) (get_or-put_self [] s.items f (keep_items ids (mail f s)))
      ∙ find_item-keep ids id (mail f s),
  removing_marks s.deleted f ids id (get s.deleted f) refl,
)

-- A removal takes the named mail of the folder out of the lookups, with its \Deleted marks, and leaves
-- all other mail of the folder as it was, whether the file of the folder can be written or not.
pub find_item-remove_items :
    (f : String) (ids : List String) (h : Host) (id : String)
    → (find_item id (mail f ((remove_items f ids h).1).state)
        ≡ (if contains id ids then none else find_item id (mail f h.state)))
      × (is_deleted f id ((remove_items f ids h).1).state
          ≡ (if contains id ids then false else is_deleted f id h.state))
unfolding remove_items
find_item-remove_items f ids h id =
    rw (save_folder-state f (record h { state = without_items f ids h.state }))
      (without_items-find f ids h.state id)

setting_mark :
    (d : Dict (Dict Bool)) (f id : String) (m : Dict Bool) (deleted : Bool) (g k : String)
    → m ≡ get_or empty d f
    → get_or false (get_or empty (put d f (if deleted then put m id true else remove m id)) g) k
      ≡ (if str_eq f g && str_eq id k then deleted else get_or false (get_or empty d g) k)
setting_mark d f id m true g k e =
    ground (arith, e, get-put d f g (put m id true), get-put m id k true, eq_iff f g, eq_iff id k)
setting_mark d f id m false g k e =
    ground (arith, e, get-put d f g (remove m id), get-remove m id k, eq_iff f g, eq_iff id k)

-- A \Deleted mark is read back as it was set, and no other mark of any folder changes, whether the file
-- of the folder can be written or not.
pub is_deleted-set_deleted :
    (f id : String) (deleted : Bool) (h : Host) (g k : String)
    → is_deleted g k ((set_deleted f id deleted h).1).state
      ≡ (if str_eq f g && str_eq id k then deleted else is_deleted g k h.state)
unfolding set_deleted mark_deleted is_deleted deleted_marks
is_deleted-set_deleted f id deleted h g k =
    ap (λ s. get_or false (get_or empty s.deleted g) k)
      (save_folder-state f (record h { state = mark_deleted f id deleted h.state }))
    ∙ setting_mark h.state.deleted f id (get_or empty h.state.deleted f) deleted g k refl

find_item-change_first :
    (g : EmailItem → EmailItem) (id k : String) (its : List EmailItem)
    → ((it : EmailItem) → (g it).server_id ≡ it.server_id)
    → find_item k (change_first g id its) ≡ (
        if str_eq id k
        then elim (find_item k its) [ none ↦ none | some it ↦ some (g it) ]
        else find_item k its)
unfolding find_item change_first
find_item-change_first g id k [] same = ground arith
find_item-change_first g id k (it ∷ its) same = ground (
  arith,
  find_item-change_first g id k its same,
  eq_iff it.server_id id,
  eq_iff it.server_id k,
  eq_iff id k,
  same it,
)

change_found :
    (g : EmailItem → EmailItem) (f id : String) (s : DiskState) (found : Option (List EmailItem))
    → get s.items f ≡ found
    → (let after : DiskState = elim found [
      | none ↦ s
      | some items ↦ record s { items = put s.items f (change_first g id items) }
    ] in
        mail f after ≡ change_first g id (mail f s))
unfolding change_first
change_found g f id s none e = ground (arith, e)
change_found g f id s (some items) e =
    get_or-put_self [] s.items f (change_first g id items)
    ∙ ap (λ o. change_first g id (elim o as (λ x. List EmailItem) [ none ↦ [] | some v ↦ v ]))
        (sym e)

-- What a change of one message does to the lookups of its folder, on both fates of the write.
pub find_item-change_item :
    (g : EmailItem → EmailItem) (f id k : String) (h : Host)
    → ((it : EmailItem) → (g it).server_id ≡ it.server_id)
    → find_item k
        (mail f ((save_folder f (record h { state = change_item g f id h.state })).1).state)
      ≡ (if str_eq id k
          then elim (find_item k (mail f h.state)) [ none ↦ none | some it ↦ some (g it) ]
          else find_item k (mail f h.state))
unfolding change_item
find_item-change_item g f id k h same =
    ap (λ s. find_item k (mail f s))
      (save_folder-state f (record h { state = change_item g f id h.state }))
    ∙ ap (find_item k) (change_found g f id h.state (get h.state.items f) refl)
    ∙ find_item-change_first g id k (mail f h.state) same

change_item-marks :
    (g : EmailItem → EmailItem) (f id : String) (s : DiskState)
    → (change_item g f id s).deleted ≡ s.deleted
unfolding change_item
change_item-marks g f id s =
    elim (get s.items f)
      as (λ found.
        (elim found as (λ x. DiskState) [
          | none ↦ s
          | some items ↦ record s { items = put s.items f (change_first g id items) }
        ]).deleted
        ≡ s.deleted) [ none ↦ refl | some items ↦ refl ]

pub is_deleted-change_item :
    (g : EmailItem → EmailItem) (f id k : String) (h : Host)
    → is_deleted f k ((save_folder f (record h { state = change_item g f id h.state })).1).state
      ≡ is_deleted f k h.state
unfolding is_deleted deleted_marks
is_deleted-change_item g f id k h =
    ap (λ s. get_or false (get_or empty s.deleted f) k)
      (save_folder-state f (record h { state = change_item g f id h.state }))
    ∙ ap (λ d. get_or false (get_or empty d f) k) (change_item-marks g f id h.state)

pub mail-set_deleted :
    (f id : String) (deleted : Bool) (h : Host)
    → mail f ((set_deleted f id deleted h).1).state ≡ mail f h.state
unfolding set_deleted mark_deleted
mail-set_deleted f id deleted h =
    ap (mail f) (save_folder-state f (record h { state = mark_deleted f id deleted h.state }))

-- A read mark reaches the mail with its ID, and no other mail of the folder that can be looked up
-- changes, whether the file of the folder can be written or not.
pub find_item-mark_read :
    (f id k : String) (h : Host)
    → find_item k (mail f ((mark_read f id h).1).state) ≡ (
        if str_eq id k
        then elim (find_item k (mail f h.state)) [
          | none ↦ none
          | some it ↦ some (record it { read = true })
        ]
        else find_item k (mail f h.state))
unfolding mark_read
find_item-mark_read f id k h =
    find_item-change_item (λ it. record it { read = true }) f id k h (λ it. refl)

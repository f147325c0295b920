-- ===== src/Folders/Synced.antt =====
-- What syncFolders leaves in the state.
use eas_bridge.Prelude.{
  String, ◌≡◌, refl, ap, ◌∙◌, true, false, Option, none, some, List, [], ◌∷◌, map, arith, contains,
  str_eq, eq_iff, str_lt, if◌then◌else◌, Bool-cases, inl, inr, ◌⊎◌,
}
use text.Mathlib.TextPositions.{compare_refl}
use eas_bridge.Dict.{Dict, empty, get, put, remove, lookup, without}
use eas_bridge.Eas.{Folder}
use eas_bridge.Persist.Disk.{Host, mutate, save_main, main_of, holds}
use eas_bridge.Store.{DiskState}
use eas_bridge.Persist.Crash.{state-write}
use eas_bridge.Folders.Names.{by_id_of}
use eas_bridge.Folders.Update.{
  FolderChanges, drop_folders, changed_folders, insert_folder, sort_folders, no_changes,
  sync_folders, last_folder, get-changed_folders,
}

-- The first folder of a list with an ID.
unfoldable pub folder_with : String → List Folder → Option Folder
folder_with id [] = none
folder_with id (f ∷ fs) = if str_eq f.server_id id then some f else folder_with id fs

abbrev values : List (String × Folder) → List Folder
values es = map (λ e. e.1) es

-- Each folder stands under its own ID.
abbrev Keyed : List (String × Folder) → Type 0
Keyed [] = Unit
Keyed ((k, f) ∷ es) = (k ≡ f.server_id) × Keyed es

found-Keyed :
    (id : String) (es : List (String × Folder))
    → Keyed es
    → folder_with id (values es) ≡ lookup es id
unfolding folder_with lookup
found-Keyed id [] h = refl
found-Keyed id ((k, f) ∷ es) (here, rest) = rw (here, found-Keyed id es rest) refl

without-Keyed : (id : String) (es : List (String × Folder)) → Keyed es → Keyed (without es id)
unfolding without
without-Keyed id [] h = tt
without-Keyed id ((k, f) ∷ es) (here, rest) = elim (Bool-cases (str_eq k id)) [
  | inl p ↦ rw (p, without) (without-Keyed id es rest)
  | inr p ↦ rw (p, without) (here, without-Keyed id es rest)
]

by_id_of-Keyed :
    (fs : List Folder) (m : Dict Folder) → Keyed m.entries → Keyed (by_id_of m fs).entries
unfolding by_id_of put
by_id_of-Keyed [] m h = h
by_id_of-Keyed (f ∷ fs) m h =
    by_id_of-Keyed fs (put m f.server_id f) (refl, without-Keyed f.server_id m.entries h)

drop_folders-Keyed :
    (ids : List String) (m : Dict Folder) → Keyed m.entries → Keyed (drop_folders m ids).entries
unfolding drop_folders remove
drop_folders-Keyed [] m h = h
drop_folders-Keyed (id ∷ ids) m h =
    drop_folders-Keyed ids (remove m id) (without-Keyed id m.entries h)

changed_folders-Keyed :
    (changes : FolderChanges) (folders : List Folder)
    → Keyed (changed_folders changes folders).entries
unfolding changed_folders empty
changed_folders-Keyed changes folders = drop_folders-Keyed changes.deleted _ (
    by_id_of-Keyed changes.updated _
      (by_id_of-Keyed changes.added _ (by_id_of-Keyed folders empty tt)))

not_before_itself : (s t : String) → str_lt s t ≡ true → str_eq s t ≡ false
not_before_itself s t h = elim (Bool-cases (str_eq s t)) [
  | inl e ↦ let same : s ≡ t = (eq_iff s t).0 e in absurd (cc (rw (same, compare_refl t) at h))
  | inr e ↦ e
]

with-insert_folder :
    (id : String) (f : Folder) (fs : List Folder)
    → folder_with id (insert_folder f fs) ≡ folder_with id (f ∷ fs)
unfolding folder_with insert_folder
with-insert_folder id f [] = refl
with-insert_folder id f (g ∷ gs) = elim (Bool-cases (str_lt g.server_id f.server_id)) [
  | inl p ↦
      let other = not_before_itself g.server_id f.server_id p in
      rw (p, insert_folder)
        (ground (
          arith,
          other,
          with-insert_folder id f gs,
          eq_iff g.server_id f.server_id,
          eq_iff g.server_id id,
          eq_iff f.server_id id,
        ))
  | inr p ↦ rw (p, insert_folder) refl
]

with-sort_folders :
    (id : String) (fs : List Folder) → folder_with id (sort_folders fs) ≡ folder_with id fs
unfolding folder_with sort_folders
with-sort_folders id [] = refl
with-sort_folders id (f ∷ fs) =
    with-insert_folder id f (sort_folders fs)
    ∙ ap (λ o. if str_eq f.server_id id then some f else o) (with-sort_folders id fs)

state-mutate : (fn : DiskState → DiskState) (h : Host) → (mutate fn h).1.state ≡ fn h.state
unfolding mutate save_main
state-mutate fn h =
    let h₁ : Host = record h { state = fn h.state } in
    state-write (λ d. record d { main = holds (main_of h₁.state) }) h₁

module _ {E W : Type 0} (folder_sync : W → (E ⊎ FolderChanges) × W) where
  -- After a FolderSync that answers with changes a deleted folder is gone from the folders of the state, and any
  -- other is as the last update has it, or else the last addition, or else as it was, whether the state
  -- can be written or not.
  pub sync_folders_lem :
      (h : Host) (w : W) (changes : FolderChanges) (id : String)
      → (folder_sync w).0 ≡ inr changes
      → no_changes changes ≡ false
      → folder_with id (sync_folders folder_sync h w).0.1.state.folders ≡ (
          if contains id changes.deleted
          then none
          else last_folder id changes.updated
              (last_folder id changes.added (last_folder id h.state.folders none)))
  unfolding sync_folders get
  sync_folders_lem h w changes id answer some_change =
      let found = changed_folders changes h.state.folders in
      rw (answer, some_change, sync_folders)
        (ap (λ s. folder_with id s.folders)
            (state-mutate
              (λ s. record s {
                folders = sort_folders (values (changed_folders changes s.folders).entries);
              })
              h)
          ∙ with-sort_folders id (values found.entries)
          ∙ found-Keyed id found.entries (changed_folders-Keyed changes h.state.folders)
          ∙ get-changed_folders changes h.state.folders id)

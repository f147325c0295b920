-- ===== src/Folders/Update.antt =====
-- syncFolders (sync.go): the folder list after a FolderSync. The client is a parameter.
use eas_bridge.Prelude.{
  String, ◌≡◌, refl, ap, ◌∙◌, Bool, ◌&&◌, Option, none, some, List, [], ◌∷◌, map, arith, contains,
  is_nil, str_eq, str_lt, if◌then◌else◌, inl, inr, ◌⊎◌,
}
use eas_bridge.Dict.{Dict, empty, get, put, remove, get-put, get-remove}
use eas_bridge.Eas.{Folder}
use eas_bridge.Persist.Disk.{Host, Error, mutate}
use eas_bridge.Folders.Names.{by_id_of}

-- What FolderSync answers.
pub record FolderChanges : Type 0 where
  pub added : List Folder
  pub updated : List Folder
  pub deleted : List String

unfoldable pub drop_folders : Dict Folder → List String → Dict Folder
drop_folders m [] = m
drop_folders m (id ∷ ids) = drop_folders (remove m id) ids

-- byID after its four loops
unfoldable pub changed_folders : FolderChanges → List Folder → Dict Folder
unfolding by_id_of drop_folders
changed_folders changes folders =
    drop_folders (by_id_of (by_id_of (by_id_of empty folders) changes.added) changes.updated)
      changes.deleted

-- `sort.Slice` by the server ID; the IDs differ.
unfoldable pub insert_folder : Folder → List Folder → List Folder
insert_folder f [] = f ∷ []
insert_folder f (g ∷ gs) =
    let rest = insert_folder f gs in if str_lt g.server_id f.server_id then g ∷ rest else f ∷ g ∷ gs

unfoldable pub sort_folders : List Folder → List Folder
unfolding insert_folder
sort_folders [] = []
sort_folders (f ∷ fs) = insert_folder f (sort_folders fs)

unfoldable pub no_changes : FolderChanges → Bool
no_changes changes = is_nil changes.added && is_nil changes.updated && is_nil changes.deleted

module _ {E W : Type 0} (folder_sync : W → (E ⊎ FolderChanges) × W) where
  -- syncFolders: the error of the client, or that of the write
  unfoldable pub sync_folders : Host → W → ((E ⊎ Error) × Host) × W
  unfolding changed_folders sort_folders no_changes mutate
  sync_folders h w =
      let r = folder_sync w in
      elim (r.0) [
        | inl e ↦ ((inl e, h), r.1)
        | inr changes ↦
            let saved =
              mutate
                (λ s. record s {
                  folders =
                      sort_folders (map (λ e. e.1) (changed_folders changes s.folders).entries);
                })
                h in
            if no_changes changes then ((inr none, h), r.1) else ((inr saved.0, saved.1), r.1)
      ]

-- The last folder of the list with an ID, or else what was found before.
unfoldable pub last_folder : String → List Folder → Option Folder → Option Folder
last_folder id [] o = o
last_folder id (f ∷ fs) o = last_folder id fs (if str_eq f.server_id id then some f else o)

get-by_id_of :
    (id : String) (fs : List Folder) (m : Dict Folder)
    → get (by_id_of m fs) id ≡ last_folder id fs (get m id)
unfolding by_id_of last_folder
get-by_id_of id [] m = refl
get-by_id_of id (f ∷ fs) m =
    get-by_id_of id fs (put m f.server_id f)
    ∙ ap (λ o. last_folder id fs o) (get-put m f.server_id id f)

get-drop_folders :
    (id : String) (ids : List String) (m : Dict Folder)
    → get (drop_folders m ids) id ≡ (if contains id ids then none else get m id)
unfolding drop_folders
get-drop_folders id [] m = refl
get-drop_folders id (x ∷ ids) m =
    ground (arith, get-drop_folders id ids (remove m x), get-remove m x id)

-- A deleted folder is gone; any other is as the last update has it, or else the last addition, or else as it
-- was.
pub get-changed_folders :
    (changes : FolderChanges) (folders : List Folder) (id : String)
    → get (changed_folders changes folders) id ≡ (
        if contains id changes.deleted
        then none
        else last_folder id changes.updated
            (last_folder id changes.added (last_folder id folders none)))
unfolding changed_folders get empty
get-changed_folders changes folders id =
    get-drop_folders id changes.deleted _
    ∙ ap (λ o. if contains id changes.deleted then none else o)
        (get-by_id_of id changes.updated _
          ∙ ap (λ o. last_folder id changes.updated o)
              (get-by_id_of id changes.added _
                ∙ ap (λ o. last_folder id changes.added o) (get-by_id_of id folders empty)))

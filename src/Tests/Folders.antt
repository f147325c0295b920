-- ===== src/Tests/Folders.antt =====
-- An answer of FolderSync on a small list of folders.
use eas_bridge.Prelude.{
  ℕ, suc, Bool, false, inr, ◌⊎◌, String, ◌≡◌, refl, none, some, List, [], ◌∷◌, contains,
  if◌then◌else◌,
}
use eas_bridge.Dict.{Dict, get}
use eas_bridge.Dict
use eas_bridge.Eas.{Folder}
use eas_bridge.Folders.Update.{
  FolderChanges, changed_folders, last_folder, no_changes, sync_folders,
}
use eas_bridge.Folders.Synced.{folder_with, sync_folders_lem}
use eas_bridge.Persist.Disk.{Host}
use eas_bridge.Tests.Sync.{calendar_host}

abbrev folder : String → String → Folder
folder id name = record { server_id = id; parent_id = "0"; display_name = name; kind = 12 }

-- A folder is renamed, one is new, and one is deleted.
abbrev renamed : FolderChanges
renamed = record {
  added = folder "3" "New" ∷ [];
  updated = folder "1" "Renamed" ∷ [];
  deleted = "2" ∷ [];
}

abbrev two_folders : List Folder
two_folders = folder "1" "Old" ∷ folder "2" "Gone" ∷ []

renamed_found : get (changed_folders renamed two_folders) "1" ≡ some (folder "1" "Renamed")
unfolding changed_folders get Dict.empty Dict.put Dict.remove
renamed_found = refl

-- A host of the two folders whose next write fails.
abbrev folder_host : Host
folder_host = record calendar_host {
  state = record (calendar_host.state) { folders = two_folders };
  fates = false ∷ [];
}

abbrev answers : ℕ → (Bool ⊎ FolderChanges) × ℕ
answers n = (inr renamed, suc n)

sync_folders_lem_example :
    folder_with "2" (sync_folders {E = Bool} {W = ℕ} answers folder_host 0).0.1.state.folders ≡ (
      if contains "2" ("2" ∷ [])
      then none
      else last_folder "2"
          (folder "1" "Renamed" ∷ [])
          (last_folder "2" (folder "3" "New" ∷ []) (last_folder "2" two_folders none)))
unfolding no_changes
sync_folders_lem_example =
    sync_folders_lem {E = Bool} {W = ℕ} answers folder_host 0 renamed "2" refl refl

-- ===== src/Folders/Names.antt =====
-- imapFolderNames (folders.go), findFolder (sync.go) and LIST (imapd.go). The case mapping, the hash
-- that cache.go prints and the pattern match of go-imap are parameters. The recursion to the parent
-- runs on fuel.
use Prim.Native.Char.{char}
use Prim.Native.String.{◌++◌, slice, ◌∷◌ as cons}
use text.Mathlib.Text.{starts_with}
use eas_bridge.Prelude.{
  ℕ, zero, suc, String, Bool, true, false, not, ◌&&◌, ◌||◌, Option, none, some, List, [], ◌∷◌, any,
  contains, is_empty, is_nil, length, ltb, str_lt, str_eq, ◌==◌, sort_strings, if◌then◌else◌,
}
use mathlib.Core.List.{◌++◌ as append}
use eas_bridge.Dict.{Dict, empty, get, put, get_or}
use eas_bridge.Eas.{Folder, folder_type_sent_items, folder_type_drafts, folder_type_deleted_items}
use eas_bridge.Sync.Reads.{is_mail_folder_type, system_imap_folder_name}
use eas_bridge.Folders.Component.{clean_mailbox_component}

-- The loop that fills byID.
unfoldable pub by_id_of : Dict Folder → List Folder → Dict Folder
by_id_of m [] = m
by_id_of m (f ∷ fs) = by_id_of (put m f.server_id f) fs

unfoldable pub is_system : Dict Folder → String → Bool
unfolding system_imap_folder_name
is_system by_id id = elim (get by_id id) [
  | none ↦ false
  | some f ↦ not (is_empty (system_imap_folder_name f.kind))
]

unfoldable pub segment_of : Folder → String
unfolding system_imap_folder_name clean_mailbox_component
segment_of f =
    let system = system_imap_folder_name f.kind in
    if is_empty system then clean_mailbox_component f.display_name else system

-- The loop over the folders: their segments, and the server IDs by parent and segment.
pub record Segments : Type 0 where
  pub segments : Dict String
  pub duplicates : Dict (List String)

module _ (to_lower : String → String) (path_component : String → String → String) where
  unfoldable pub segment_key : Folder → String
  unfolding segment_of
  segment_key f = to_lower (f.parent_id ++ cons (char 0 tt) (segment_of f))

  unfoldable pub segments_of : Segments → List Folder → Segments
  unfolding segment_key is_mail_folder_type
  segments_of acc [] = acc
  segments_of acc (f ∷ fs) =
      let key = segment_key f in
      segments_of
        (if not (is_mail_folder_type f.kind) then acc else record {
          segments = put acc.segments f.server_id (segment_of f);
          duplicates =
              put acc.duplicates key (append (get_or [] acc.duplicates key) (f.server_id ∷ []));
        })
        fs

  -- `segments[id] += …`
  unfoldable pub add_suffix : String → Dict String → Dict String
  add_suffix id segments =
      put segments id
        (get_or "" segments id ++ " [" ++ slice (path_component "folder-name" id) 0 8 ++ "]")

  -- The loop over the IDs of one key, sorted; `is_first` is `i == 0`.
  unfoldable pub add_suffixes : Dict Folder → Bool → Bool → List String → Dict String → Dict String
  unfolding is_system add_suffix
  add_suffixes by_id has_system is_first [] segments = segments
  add_suffixes by_id has_system is_first (id ∷ ids) segments =
      let keep = (has_system && is_system by_id id) || (not has_system && is_first) in
      add_suffixes by_id has_system false ids (if keep then segments else add_suffix id segments)

  -- The loop over duplicateSegments.
  unfoldable pub set_apart : Dict Folder → List (String × List String) → Dict String → Dict String
  unfolding add_suffixes sort_strings
  set_apart by_id [] segments = segments
  set_apart by_id ((key, ids) ∷ rest) segments =
      let sorted = sort_strings ids in
      set_apart by_id rest (
        if ltb (length ids) 2
        then segments
        else add_suffixes by_id (any (is_system by_id) sorted) true sorted segments)

-- resolve, with `names` and `visiting`; `none` where the fuel is out
unfoldable pub resolve :
    Dict Folder
    → Dict String
    → ℕ
    → List String
    → Dict String
    → String
    → Option (String × Dict String)
unfolding is_mail_folder_type system_imap_folder_name
resolve by_id segments zero visiting names id = none
resolve by_id segments (suc fuel) visiting names id =
    let name = get_or "" names id in
    let segment = get_or "" segments id in
    let ended : Option (String × Dict String) = some (segment, put names id segment) in
    if not (is_empty name) then some (name, names) else elim (get by_id id) [
      | none ↦ some ("", names)
      | some folder ↦
          if not (is_mail_folder_type folder.kind)
          then some ("", names)
          else if not (is_empty (system_imap_folder_name folder.kind))
          then ended
          else if contains id visiting
          then ended
          else elim (resolve by_id segments fuel (id ∷ visiting) names folder.parent_id) [
            | none ↦ none
            | some (parent, names') ↦
                let full = if is_empty parent then segment else parent ++ "/" ++ segment in
                some (full, put names' id full)
          ]
    ]

-- The loop over byID at the end.
unfoldable pub resolve_each :
    Dict Folder → Dict String → ℕ → List (String × Folder) → Dict String → Option (Dict String)
unfolding resolve
resolve_each by_id segments fuel [] names = some names
resolve_each by_id segments fuel ((id, folder) ∷ rest) names =
    if not (is_mail_folder_type folder.kind)
    then resolve_each by_id segments fuel rest names
    else elim (resolve by_id segments fuel [] names id) [
      | none ↦ none
      | some (name, names') ↦ resolve_each by_id segments fuel rest names'
    ]

module _ (to_lower : String → String) (path_component : String → String → String) where
  -- imapFolderNames; its recursion visits no folder twice.
  unfoldable pub imap_folder_names : List Folder → Option (Dict String)
  unfolding by_id_of segments_of set_apart resolve_each
  imap_folder_names folders =
      let by_id = by_id_of empty folders in
      let found =
        segments_of to_lower path_component (record { segments = empty; duplicates = empty })
          folders in
      let segments =
        set_apart to_lower path_component by_id found.duplicates.entries found.segments in
      resolve_each by_id segments (suc (length by_id.entries)) by_id.entries empty

unfoldable pub find_by_id : String → List Folder → Option Folder
find_by_id id [] = none
find_by_id id (f ∷ fs) = if str_eq f.server_id id then some f else find_by_id id fs

unfoldable pub find_by_name :
    (String → String → Bool) → Dict String → String → List Folder → Option Folder
find_by_name equal_fold names name [] = none
find_by_name equal_fold names name (f ∷ fs) =
    if equal_fold (get_or "" names f.server_id) name
    then some f
    else find_by_name equal_fold names name fs

-- findFolder, with the names that imapFolderNames gives
unfoldable pub find_folder :
    (String → String → Bool) → Dict String → String → List Folder → Option Folder
unfolding find_by_id find_by_name
find_folder equal_fold names name folders = elim (find_by_id name folders) [
  | some f ↦ some f
  | none ↦ find_by_name equal_fold names name folders
]

-- folderSpecialUse
unfoldable pub folder_special_use : ℕ → String
folder_special_use kind =
    if kind == folder_type_sent_items
    then "\\Sent"
    else if kind == folder_type_drafts
    then "\\Drafts"
    else if kind == folder_type_deleted_items
    then "\\Trash"
    else ""

-- A line of the response to LIST.
pub record ListData : Type 0 where
  pub mailbox : String
  pub has_children : Bool
  pub special_use : String

-- Those folders that have a name, with it.
unfoldable pub named_folders : Dict String → List Folder → List (String × Folder)
named_folders names [] = []
named_folders names (f ∷ fs) =
    let rest = named_folders names fs in
    let name = get_or "" names f.server_id in if is_empty name then rest else (name, f) ∷ rest

module _ (to_lower : String → String) (match_list : String → String → String → Bool) where
  -- `sort.Slice(listed, …)`
  unfoldable pub insert_named : String × Folder → List (String × Folder) → List (String × Folder)
  insert_named e [] = e ∷ []
  insert_named e (d ∷ ds) =
      let rest = insert_named e ds in
      if str_lt (to_lower (d.0)) (to_lower (e.0)) then d ∷ rest else e ∷ d ∷ ds

  unfoldable pub sort_named : List (String × Folder) → List (String × Folder)
  unfolding insert_named
  sort_named [] = []
  sort_named (e ∷ es) = insert_named e (sort_named es)

  unfoldable pub has_children_in : List (String × Folder) → String → Bool
  has_children_in listed name = any (λ e. starts_with (e.0) (name ++ "/")) listed

  unfoldable pub list_lines :
      String → List String → List (String × Folder) → List (String × Folder) → List ListData
  unfolding has_children_in folder_special_use
  list_lines ref patterns listed [] = []
  list_lines ref patterns listed ((name, f) ∷ rest) =
      let lines = list_lines ref patterns listed rest in
      if is_nil patterns || any (match_list name ref) patterns
      then record {
        mailbox = name;
        has_children = has_children_in listed name;
        special_use = folder_special_use f.kind;
      }
        ∷ lines
      else lines

  -- List, with the names that imapFolderNames gives
  unfoldable pub list_mailboxes : String → List String → Dict String → List Folder → List ListData
  unfolding named_folders sort_named list_lines
  list_mailboxes ref patterns names folders =
      let listed = sort_named (named_folders names folders) in list_lines ref patterns listed listed

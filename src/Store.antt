-- ===== src/Store.antt =====
-- The process's only copy of the synchronised state (state.go): the struct and its parts. A map of
-- the source is a `Dict`, a folder ID or a server ID a text.
pub mod Uids
use eas_bridge.Prelude.{ℕ, ◌%◌, ◌^◌, String, Bool, false, List, [], if◌then◌else◌}
use eas_bridge.Dict.{Dict, empty}
use eas_bridge.Eas.{Folder, EmailItem, EventItem}

pub record UidEntry : Type 0 where
  pub server_id : String
  pub uid : ℕ

pub record FolderMeta : Type 0 where
  pub next_uid : ℕ
  pub uid_validity : ℕ

pub record CalendarEventAlias : Type 0 where
  pub canonical_id : String
  pub uid : String
  pub replay : Bool

pub record DiskState : Type 0 where
  pub device_id : String
  pub policy_key_val : String
  pub sync_keys : Dict String
  pub folders : List Folder
  pub items : Dict (List EmailItem)
  pub uids : Dict (List UidEntry)
  pub folder_meta : Dict FolderMeta
  pub events : Dict EventItem
  pub event_aliases : Dict CalendarEventAlias
  pub deleted : Dict (Dict Bool)

-- The zero value of `folderMeta`, which a read of a missing key gives.
abbrev pub no_meta : FolderMeta
no_meta = record { next_uid = 0; uid_validity = 0 }

-- The zero value of `calendarEventAlias`.
abbrev pub no_alias : CalendarEventAlias
no_alias = record { canonical_id = ""; uid = ""; replay = false }

-- A `uint32` wraps.
abbrev pub u32 : ℕ → ℕ
u32 n = n % 2 ^ 32

unfoldable pub empty_state : DiskState
unfolding empty
empty_state = record {
  device_id = "";
  policy_key_val = "";
  sync_keys = empty;
  folders = [];
  items = empty;
  uids = empty;
  folder_meta = empty;
  events = empty;
  event_aliases = empty;
  deleted = empty;
}

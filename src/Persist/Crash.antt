-- ===== src/Persist/Crash.antt =====
-- The two writes of `mutateFolder`, either of which may fail: the UIDs and the counter that a restart
-- reads.
use eas_bridge.Prelude.{
  ℕ, ◌≤◌, String, ◌≡◌, refl, Bool-cases, inl, inr, none, some, List, [], ◌++◌, arith, Distinct,
}
use eas_bridge.Dict.{get, put, get_or, get-put_self}
use eas_bridge.Eas.{EmailItem}
use eas_bridge.Store.{DiskState, UidEntry, no_meta}
use eas_bridge.Store.Uids.Table.{IsOrdered, Below, Below-mono}
use eas_bridge.Store.Uids.Assignment.{HasRoom, table, next_of, assign-IsOrdered, assign-grows, s'}
use eas_bridge.Store.Uids.Allocation.{server_ids}
use eas_bridge.Persist.Operations.{add_moved, add_moved_items}
use eas_bridge.Persist.Names.{shard_file_name}
use eas_bridge.Persist.Disk.{
  StateMain, FolderShard, File, absent, unreadable, corrupt, holds, Disk, Host, Error, next_fate,
  write, and_then, save_main, main_of, save_folder, shard_of, mutate_folder,
}

-- The UIDs that a restart reads from the file of the folder, and the counter it reads from state.json.
unfoldable pub stored_uids : File FolderShard → List UidEntry
stored_uids absent = []
stored_uids unreadable = []
stored_uids corrupt = []
stored_uids (holds sh) = sh.uids

unfoldable pub disk_uids : String → Disk → List UidEntry
unfolding stored_uids
disk_uids f d = elim (get d.shards (shard_file_name f)) [ none ↦ [] | some file ↦ stored_uids file ]

unfoldable pub stored_next : String → File StateMain → ℕ
stored_next f absent = 0
stored_next f unreadable = 0
stored_next f corrupt = 0
stored_next f (holds m) = (get_or no_meta m.folder_meta f).next_uid

unfoldable pub NoReuse : String → Disk → Type 0
unfolding disk_uids stored_next
NoReuse f d = Below (stored_next f d.main) (disk_uids f d)

-- The folder with what was moved in, as `addMovedItems` hands it to `assignUIDs`.
unfoldable pub all_items : String → List EmailItem → DiskState → List EmailItem
all_items f items s = get_or [] s.items f ++ items

unfoldable pub with_items : String → List EmailItem → DiskState → DiskState
unfolding all_items
with_items f items s = record s { items = put s.items f (all_items f items s) }

-- A write succeeds or fails.
pub write-ind :
    (P : Error × Host → Type 0) (change : Disk → Disk) (h : Host)
    → P (none, record h { disk = change h.disk; fates = (next_fate h.fates).1 })
    → P (some "write failed", record h { fates = (next_fate h.fates).1 })
    → P (write change h)
unfolding write
write-ind P change h wrote failed = elim (Bool-cases (next_fate h.fates).0) [
  | inl e ↦ rw e wrote
  | inr e ↦ rw e failed
]

-- A write leaves the memory as it is.
pub state-write : (change : Disk → Disk) (h : Host) → ((write change h).1).state ≡ h.state
state-write change h = write-ind (λ r. (r.1).state ≡ h.state) change h refl refl

module _ (f : String) (h : Host) (fn : DiskState → DiskState) where
  wrote_both :
      (d : Disk)
      → Below (next_of f (fn h.state)) (table f (fn h.state))
      → NoReuse f (record d {
        main = holds (main_of (fn h.state));
        shards = put d.shards (shard_file_name f) (holds (shard_of f (fn h.state)));
      })
  unfolding NoReuse main_of shard_of stored_next disk_uids stored_uids
  wrote_both d below =
      rw (get-put_self d.shards (shard_file_name f) (holds (shard_of f (fn h.state))), disk_uids)
        below

  wrote_main :
      (d : Disk)
      → NoReuse f d
      → stored_next f d.main ≤ next_of f (fn h.state)
      → NoReuse f (record d { main = holds (main_of (fn h.state)) })
  unfolding NoReuse main_of stored_next disk_uids
  wrote_main d safe grows =
      Below-mono (disk_uids f d) (stored_next f d.main) (next_of f (fn h.state)) grows safe

  -- Main file written, shard written; main file only; nothing.
  pub mutate_folder-NoReuse :
      NoReuse f h.disk
      → stored_next f h.disk.main ≤ next_of f (fn h.state)
      → Below (next_of f (fn h.state)) (table f (fn h.state))
      → NoReuse f ((mutate_folder f fn h).1).disk
  unfolding mutate_folder and_then save_main save_folder
  mutate_folder-NoReuse safe grows below =
      let h₁ = record h { state = fn h.state } in
      let main : Disk → Disk = λ d. record d { main = holds (main_of (fn h.state)) } in
      let shard : Disk → Disk = λ d. record d {
        shards = put d.shards (shard_file_name f) (holds (shard_of f (fn h.state)));
      } in
      let h₂ = record h₁ { disk = main h.disk; fates = (next_fate h.fates).1 } in
      write-ind
        (λ r.
          NoReuse f
            ((elim (r.0) as (λ x. Error × Host) [
              | some e ↦ (some e, r.1)
              | none ↦ save_folder f (r.1)
            ]).1
              ).disk)
        main h₁
        (write-ind (λ r. NoReuse f (r.1).disk) shard h₂ (wrote_both h.disk below)
          (wrote_main h.disk safe grows))
        safe

-- Mail that MoveItems moved into a folder gets its UIDs under `mutateFolder`. Take a state whose UID
-- table is in order, whose counter is not behind the one on disk, where the `uint32` counter has room
-- for the mail, and where the folder with the new mail names no message twice. Whichever of the two writes fails, every UID in the file of the folder stays
-- below the counter in the main file.
pub add_moved_items-NoReuse :
    (now : ℕ) (f : String) (items : List EmailItem) (h : Host)
    → IsOrdered (table f h.state)
    → HasRoom now f (all_items f items h.state) (with_items f items h.state)
    → Distinct (server_ids (all_items f items h.state))
    → stored_next f h.disk.main ≤ next_of f h.state
    → NoReuse f h.disk
    → NoReuse f ((add_moved_items now f items h).1).disk
unfolding add_moved_items add_moved all_items with_items s'
add_moved_items-NoReuse now f items h ordered room d near safe =
    let s = with_items f items h.state in
    let all = all_items f items h.state in
    let grows : next_of f h.state ≤ next_of f (add_moved now f items h.state) =
      assign-grows now f all s ordered room in
    mutate_folder-NoReuse f h (add_moved now f items) safe (omega (arith, grows))
      ((assign-IsOrdered now f all s ordered room d).1)

-- ===== src/Tests/Uids.antt =====
-- A folder with two messages, a batch with a third, and the marks and removals of mail.
use eas_bridge.Prelude.{
  ◌≤◌, String, ◌≡◌, ◌≢◌, refl, true, false, List, [], ◌∷◌, arith, contains, Distinct, eq_iff,
}
use mathlib.Core.List.{Perm}
use eas_bridge.Dict.{get}
use eas_bridge.Eas.{EmailItem, no_email}
use eas_bridge.Store.{DiskState}
use eas_bridge.Store.Uids.{
  assign_uids, raise_next, init_meta, find_uid, uid_for_server_id, server_id_for_uid,
}
use eas_bridge.Store.Uids.Allocation.{server_ids}
use eas_bridge.Store.Uids.Table.{IsOrdered, Below, ids}
use eas_bridge.Store.Uids.Assignment.{HasRoom, table, next_of, assign-IsOrdered}
use eas_bridge.Store.Uids.Stability.{assign-keeps, assign_fresh, assign-perm, server_id-uid}
use eas_bridge.Persist.Disk.{Host, absent}
use eas_bridge.Persist.Operations.{add_moved_items}
use eas_bridge.Persist.Crash.{
  NoReuse, stored_next, disk_uids, stored_uids, all_items, with_items, add_moved_items-NoReuse,
}

abbrev pub item : String → EmailItem
item id = record no_email { server_id = id }

abbrev pub two : List EmailItem
two = item "a" ∷ item "b" ∷ []

abbrev batch : List EmailItem
batch = item "c" ∷ item "b" ∷ item "a" ∷ []

abbrev pub inbox : DiskState
inbox = record {
  device_id = "";
  policy_key_val = "";
  sync_keys = record { entries = [] };
  folders = [];
  items = record { entries = ("inbox", two) ∷ [] };
  uids = record {
    entries =
        ("inbox", record { server_id = "a"; uid = 1 } ∷ record { server_id = "b"; uid = 2 } ∷ [])
        ∷ [];
  };
  folder_meta = record { entries = ("inbox", record { next_uid = 3; uid_validity = 77 }) ∷ [] };
  events = record { entries = [] };
  event_aliases = record { entries = [] };
  deleted = record { entries = ("inbox", record { entries = ("a", true) ∷ [] }) ∷ [] };
}

abbrev pub host : Host
host = record {
  state = inbox;
  disk = record {
    main = absent;
    shards = record { entries = [] };
    snapshot = absent;
    event_log = absent;
  };
  fates = true ∷ false ∷ [];
}

inbox-IsOrdered : IsOrdered (table "inbox" inbox)
unfolding get
inbox-IsOrdered = record {
  ascending = (omega arith, (omega arith, tt));
  distinct = (refl, (refl, tt));
}

inbox-HasRoom : HasRoom 9 "inbox" batch inbox
unfolding get raise_next init_meta
inbox-HasRoom = record { stored = (omega arith, (omega arith, tt)); counter = omega arith }

batch-Distinct : Distinct (server_ids batch)
unfolding server_ids
batch-Distinct = (refl, (refl, (refl, tt)))

known_a : uid_for_server_id "inbox" "a" inbox ≢ 0
unfolding get uid_for_server_id find_uid
known_a = λ e. omega (arith, e)

new_c : uid_for_server_id "inbox" "c" inbox ≡ 0
unfolding get uid_for_server_id find_uid
new_c = refl

in_batch : (contains "a" (server_ids batch) ≡ true) × (contains "c" (server_ids batch) ≡ true)
unfolding server_ids
in_batch = (refl, refl)

assign-keeps_example :
    uid_for_server_id "inbox" "a" (assign_uids 9 "inbox" batch inbox).1
    ≡ uid_for_server_id "inbox" "a" inbox
assign-keeps_example =
    assign-keeps 9 "inbox" batch inbox inbox-IsOrdered inbox-HasRoom "a" in_batch.0 known_a

assign_fresh_example :
    (next_of "inbox" inbox ≤ uid_for_server_id "inbox" "c" (assign_uids 9 "inbox" batch inbox).1)
    × Below
        (uid_for_server_id "inbox" "c" (assign_uids 9 "inbox" batch inbox).1)
        (table "inbox" inbox)
assign_fresh_example =
    assign_fresh 9 "inbox" batch inbox inbox-IsOrdered inbox-HasRoom "c" in_batch.1 new_c

assign-IsOrdered_example :
    IsOrdered (table "inbox" (assign_uids 9 "inbox" batch inbox).1)
    × Below
        (next_of "inbox" (assign_uids 9 "inbox" batch inbox).1)
        (table "inbox" (assign_uids 9 "inbox" batch inbox).1)
assign-IsOrdered_example =
    assign-IsOrdered 9 "inbox" batch inbox inbox-IsOrdered inbox-HasRoom batch-Distinct

assign-perm_example :
    Perm (assign_uids 9 "inbox" batch inbox).0 batch
    × (ids (table "inbox" (assign_uids 9 "inbox" batch inbox).1)
        ≡ server_ids (assign_uids 9 "inbox" batch inbox).0)
assign-perm_example = assign-perm 9 "inbox" batch inbox

inbox_ne_sent : ◌≢◌ {A = String} "inbox" "sent"
inbox_ne_sent e = ground (arith, (eq_iff "inbox" "sent").1 e)

server_id-uid_example : server_id_for_uid "inbox" (uid_for_server_id "inbox" "a" inbox) inbox ≡ "a"
server_id-uid_example = server_id-uid "inbox" "a" inbox inbox-IsOrdered known_a

abbrev moved : List EmailItem
moved = item "d" ∷ []

moved-HasRoom : HasRoom 9 "inbox" (all_items "inbox" moved inbox) (with_items "inbox" moved inbox)
unfolding get raise_next init_meta all_items with_items
moved-HasRoom = record { stored = (omega arith, (omega arith, tt)); counter = omega arith }

moved-Distinct : Distinct (server_ids (all_items "inbox" moved inbox))
unfolding get server_ids all_items
moved-Distinct = (refl, (refl, (refl, tt)))

safe_start : NoReuse "inbox" host.disk
unfolding NoReuse disk_uids stored_uids stored_next get
safe_start = tt

not_behind : stored_next "inbox" host.disk.main ≤ next_of "inbox" host.state
unfolding stored_next get
not_behind = omega arith

-- The main file is written, the file of the folder is not.
add_moved_items-NoReuse_example : NoReuse "inbox" ((add_moved_items 9 "inbox" moved host).1).disk
add_moved_items-NoReuse_example =
    add_moved_items-NoReuse 9 "inbox" moved host inbox-IsOrdered moved-HasRoom moved-Distinct
      not_behind safe_start

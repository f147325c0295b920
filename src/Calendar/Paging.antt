-- ===== src/Calendar/Paging.antt =====
-- A page and the invariant of the cache, and the edits that it is made of.
use eas_bridge.Prelude.{String, Bool, true, false, ◌||◌, List, [], ◌∷◌, if◌then◌else◌}
use eas_bridge.Eas.{EventItem}
use eas_bridge.Calendar.Index.{new_index, new_index_lem}
use eas_bridge.Calendar.Cache.{Cache, drop_alias, add_event, change_event, delete_event}
use eas_bridge.Calendar.WellFormed.{IsWellFormed, unaliasing-IsWellFormed}
use eas_bridge.Calendar.Operations.{add_event-IsWellFormed, change_event-IsWellFormed}
use eas_bridge.Calendar.Promotion.{delete_event-IsWellFormed}
use eas_bridge.Calendar.Edits.{
  Edits, done, unaliasing, add_event-Edits, change_event-Edits, delete_event-Edits,
}
use eas_bridge.Calendar.Page.{
  CalendarSyncResult, drop_aliases, prunable, prune_replay_aliases, add_each, change_each,
  delete_each, page_is_duplicate_replay, apply_page,
}

drop_aliases-IsWellFormed :
    (ids : List String) (c : Cache) → IsWellFormed c → IsWellFormed (drop_aliases ids c)
unfolding drop_aliases
drop_aliases-IsWellFormed [] c w = w
drop_aliases-IsWellFormed (id ∷ ids) c w =
    drop_aliases-IsWellFormed ids (drop_alias id c) (unaliasing-IsWellFormed c w id)

add_each-IsWellFormed :
    (evs : List EventItem) (dr : Bool) (s : Bool × Cache)
    → IsWellFormed (s.1)
    → IsWellFormed ((add_each evs dr s).1)
unfolding add_each
add_each-IsWellFormed [] dr s w = w
add_each-IsWellFormed (ev ∷ evs) dr (b, c) w =
    let r = add_event ev dr c in
    add_each-IsWellFormed evs dr (b || r.0, r.1) (add_event-IsWellFormed ev dr c w)

change_each-IsWellFormed :
    (evs : List EventItem) (s : Bool × Cache)
    → IsWellFormed (s.1)
    → IsWellFormed ((change_each evs s).1)
unfolding change_each
change_each-IsWellFormed [] s w = w
change_each-IsWellFormed (ev ∷ evs) (b, c) w =
    let r = change_event ev c in
    change_each-IsWellFormed evs (b || r.0, r.1) (change_event-IsWellFormed ev c w)

delete_each-IsWellFormed :
    (ids : List String) (s : Bool × Cache)
    → IsWellFormed (s.1)
    → IsWellFormed ((delete_each ids s).1)
unfolding delete_each
delete_each-IsWellFormed [] s w = w
delete_each-IsWellFormed (id ∷ ids) (b, c) w =
    let r = delete_event id c in
    delete_each-IsWellFormed ids (b || r.0, r.1) (delete_event-IsWellFormed id c w)

-- Building the index anew keeps the invariant.
indexing-IsWellFormed :
    (c : Cache) → IsWellFormed c → IsWellFormed (record c { index = new_index c.events })
indexing-IsWellFormed c w = record {
  named = w.named;
  disjoint = w.disjoint;
  targets = w.targets;
  indexed = λ q k e h. new_index_lem c.events q k e w.unique h;
  single = w.single;
  unique = w.unique;
}

pruned-IsWellFormed :
    (b : Bool) (evs : List EventItem) (c : Cache)
    → IsWellFormed c
    → IsWellFormed (if b then prune_replay_aliases evs c else c)
unfolding prune_replay_aliases
pruned-IsWellFormed true evs c w = drop_aliases-IsWellFormed (prunable evs c) c w
pruned-IsWellFormed false evs c w = w

-- A cache that is well formed is well formed after any page of server changes.
pub apply_page-IsWellFormed :
    (res : CalendarSyncResult) (c : Cache) → IsWellFormed c → IsWellFormed ((apply_page res c).1)
unfolding apply_page
apply_page-IsWellFormed res c w =
    let indexed = record c { index = new_index c.events } in
    let replayed = page_is_duplicate_replay res c.events c.aliases indexed.index in
    let pruned = if replayed then prune_replay_aliases res.added indexed else indexed in
    let added = add_each res.added replayed (false, pruned) in
    let p = pruned-IsWellFormed replayed res.added indexed (indexing-IsWellFormed c w) in
    delete_each-IsWellFormed res.deleted (change_each res.changed added) (
      change_each-IsWellFormed res.changed added
        (add_each-IsWellFormed res.added replayed (false, pruned) p))

drop_aliases-Edits :
    {b : Cache} (ids : List String) (c : Cache) → Edits b c → Edits b (drop_aliases ids c)
unfolding drop_aliases
drop_aliases-Edits [] c r = r
drop_aliases-Edits (id ∷ ids) c r = drop_aliases-Edits ids (drop_alias id c) (unaliasing id r)

pruned-Edits :
    {b : Cache} (t : Bool) (evs : List EventItem) (c : Cache)
    → Edits b c
    → Edits b (if t then prune_replay_aliases evs c else c)
unfolding prune_replay_aliases
pruned-Edits true evs c r = drop_aliases-Edits (prunable evs c) c r
pruned-Edits false evs c r = r

add_each-Edits :
    {b : Cache} (evs : List EventItem) (dr : Bool) (s : Bool × Cache)
    → Edits b (s.1)
    → Edits b ((add_each evs dr s).1)
unfolding add_each
add_each-Edits [] dr s r = r
add_each-Edits (ev ∷ evs) dr (t, c) r =
    let a = add_event ev dr c in add_each-Edits evs dr (t || a.0, a.1) (add_event-Edits ev dr c r)

change_each-Edits :
    {b : Cache} (evs : List EventItem) (s : Bool × Cache)
    → Edits b (s.1)
    → Edits b ((change_each evs s).1)
unfolding change_each
change_each-Edits [] s r = r
change_each-Edits (ev ∷ evs) (t, c) r =
    let a = change_event ev c in change_each-Edits evs (t || a.0, a.1) (change_event-Edits ev c r)

delete_each-Edits :
    {b : Cache} (ids : List String) (s : Bool × Cache)
    → Edits b (s.1)
    → Edits b ((delete_each ids s).1)
unfolding delete_each
delete_each-Edits [] s r = r
delete_each-Edits (id ∷ ids) (t, c) r =
    let a = delete_event id c in delete_each-Edits ids (t || a.0, a.1) (delete_event-Edits id c r)

-- The edits of a page start at the cache with its index built anew.
pub apply_page-Edits :
    (res : CalendarSyncResult) (c : Cache)
    → Edits (record c { index = new_index c.events }) ((apply_page res c).1)
unfolding apply_page
apply_page-Edits res c =
    let indexed = record c { index = new_index c.events } in
    let replayed = page_is_duplicate_replay res c.events c.aliases indexed.index in
    let pruned = if replayed then prune_replay_aliases res.added indexed else indexed in
    let added = add_each res.added replayed (false, pruned) in
    delete_each-Edits res.deleted (change_each res.changed added) (
      change_each-Edits res.changed added (
        add_each-Edits res.added replayed (false, pruned)
          (pruned-Edits replayed res.added indexed done)))

-- ===== src/Imap/Moved.antt =====
-- What a move in the state does to the mail of its two folders.
use eas_bridge.Prelude.{
  ℕ, String, ◌≡◌, ◌≢◌, sym, ap, ◌∙◌, subst, none, some, List, [], ◌++◌, contains, if◌then◌else◌,
  Option-cases, inl, inr,
}
use mathlib.Core.List.{Perm}
use eas_bridge.Dict.{Dict, put, get_or, get-put_ne, get_or-put_self}
use eas_bridge.Eas.{EmailItem}
use eas_bridge.Store.{DiskState}
use eas_bridge.Store.Uids.{find_item, assign_uids}
use eas_bridge.Store.Uids.Stability.{assign-perm}
use eas_bridge.Persist.Disk.{Host, and_then}
use eas_bridge.Persist.Crash.{with_items, all_items}
use eas_bridge.Persist.Operations.{
  remove_items, without_items, keep_items, add_moved, add_moved_items,
}
use eas_bridge.Persist.Memory.{state-mutate_folder}
use eas_bridge.Persist.Marks.{mail, find_item-remove_items, save_folder-state}
use eas_bridge.Imap.Moves.{Moved, move_local}

get_or-put_ne :
    {A : Type 0} (z : A) (d : Dict A) (k j : String) (v : A)
    → k ≢ j
    → get_or z (put d k v) j ≡ get_or z d j
get_or-put_ne {A = A} z d k j v n =
    ap (λ o. elim o as (λ x. A) [ none ↦ z | some v ↦ v ]) (get-put_ne d k j v n)

put_twice_ne :
    {A : Type 0} (z : A) (d : Dict A) (k j : String) (v w : A)
    → k ≢ j
    → get_or z (put (put d k v) k w) j ≡ get_or z d j
put_twice_ne z d k j v w n = get_or-put_ne z (put d k v) k j w n ∙ get_or-put_ne z d k j v n

mail-add_moved :
    (now : ℕ) (dst src : String) (items : List EmailItem) (s : DiskState)
    → dst ≢ src
    → mail src (add_moved now dst items s) ≡ mail src s
unfolding add_moved assign_uids
mail-add_moved now dst src items s n = put_twice_ne [] s.items dst src _ _ n

own-add_moved :
    (now : ℕ) (dst : String) (items : List EmailItem) (s : DiskState)
    → Perm (mail dst (add_moved now dst items s)) (mail dst s ++ items)
unfolding add_moved with_items all_items
own-add_moved now dst items s =
    subst (λ l. Perm l (mail dst s ++ items)) (sym (get_or-put_self [] _ dst _))
      ((assign-perm now dst (all_items dst items s) (with_items dst items s)).0)

mail-remove_items :
    (src dst : String) (ids : List String) (h : Host)
    → src ≢ dst
    → mail dst ((remove_items src ids h).1).state ≡ mail dst h.state
unfolding remove_items without_items
mail-remove_items src dst ids h n =
    ap (mail dst) (save_folder-state src (record h { state = without_items src ids h.state }))
    ∙ get_or-put_ne [] h.state.items src dst (keep_items ids (mail src h.state)) n

-- The messages that a move takes are gone from the source folder, and the others are as they were,
-- whichever writes fail.
pub move_local_lem :
    (now : ℕ) (src dst : String) (m : Moved) (h : Host) (id : String)
    → dst ≢ src
    → find_item id (mail src ((move_local now src dst m h).1).state)
      ≡ (if contains id m.ids then none else find_item id (mail src h.state))
unfolding move_local and_then add_moved_items
move_local_lem now src dst m h id n =
    let h₁ = (remove_items src m.ids h).1 in
    elim (Option-cases (remove_items src m.ids h).0) [
      | inr (e, p) ↦ rw (p, move_local, and_then) ((find_item-remove_items src m.ids h id).0)
      | inl p ↦
          rw (p, move_local, and_then)
            (ap (λ s. find_item id (mail src s))
                (state-mutate_folder dst (add_moved now dst m.items) h₁)
              ∙ ap (find_item id) (mail-add_moved now dst src m.items h₁.state n)
              ∙ (find_item-remove_items src m.ids h id).0)
    ]

-- Where no write of a move fails, the target folder holds its own messages and the moved ones under their
-- new IDs, in some order.
pub move_local-target :
    (now : ℕ) (src dst : String) (m : Moved) (h : Host)
    → src ≢ dst
    → (move_local now src dst m h).0 ≡ none
    → Perm (mail dst ((move_local now src dst m h).1).state) (mail dst h.state ++ m.items)
unfolding move_local and_then add_moved_items
move_local-target now src dst m h n ok =
    let h₁ = (remove_items src m.ids h).1 in
    elim (Option-cases (remove_items src m.ids h).0) [
      | inr (e, p) ↦ absurd (cc (rw (p, move_local, and_then) at ok))
      | inl p ↦
          rw (p, move_local, and_then)
            (subst (λ s. Perm (mail dst s) (mail dst h.state ++ m.items))
              (sym (state-mutate_folder dst (add_moved now dst m.items) h₁))
              (subst (λ l. Perm (mail dst (add_moved now dst m.items h₁.state)) (l ++ m.items))
                (mail-remove_items src dst m.ids h n) (own-add_moved now dst m.items h₁.state)))
    ]

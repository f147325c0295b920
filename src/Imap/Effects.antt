-- ===== src/Imap/Effects.antt =====
-- What a STORE leaves in the state, and what it reports, over all the messages that it names.
use eas_bridge.Prelude.{
  ℕ, String, ◌≡◌, Bool, ◌&&◌, none, List, [], ◌∷◌, map, arith, str_eq, contains, Option-cases, inl,
  inr,
}
use eas_bridge.Eas.{EmailItem}
use eas_bridge.Persist.Disk.{Host}
use eas_bridge.Imap.Session.{MboxSnapshot, NumSet, named_items}
use eas_bridge.Imap.Flags.{
  StoreOp, sets, apply_flags, Stored, apply_items, start_flags, with_mutation, apply_flag_mutations,
}
use eas_bridge.Imap.Stored.{
  Effect, same-Effect, cast-Effect, compose-Effect, apply_flags-Effect, gather,
}

abbrev pub named_ids : List (ℕ × EmailItem) → List String
named_ids l = map (λ e. (e.1).server_id) l

module _ (f : String) (op : StoreOp) (flags : List String) (snap : MboxSnapshot) (k : String) where
  abbrev pub AllEffect : List (ℕ × EmailItem) → Host → Host → Type 0
  AllEffect l h h' =
      let here = contains k (named_ids l) in
      Effect f (sets op) (contains "\\Deleted" flags && here) (contains "\\Seen" flags && here)
        (contains "\\Flagged" flags && here) k h.state h'.state

  none_named :
      (a b c : Bool) (h : Host)
      → Effect f
          (sets op)
          (a && contains k [])
          (b && contains k [])
          (c && contains k [])
          k
          h.state
          h.state
  none_named a b c h =
      cast-Effect f (sets op) k h.state h.state (ground arith) (ground arith) (ground arith)
        (same-Effect f (sets op) k h.state)

  apply_items-Effect :
      (l : List (ℕ × EmailItem)) (acc : Stored)
      → (apply_items f op flags snap l acc).0 ≡ none
      → AllEffect l acc.host (apply_items f op flags snap l acc).1.host
  unfolding apply_items start_flags with_mutation
  apply_items-Effect [] acc ok =
      none_named (contains "\\Deleted" flags) (contains "\\Seen" flags) (contains "\\Flagged" flags)
        acc.host
  apply_items-Effect ((seq, it) ∷ l) acc ok =
      let st = start_flags snap it acc in
      let r = apply_flags f op it.server_id flags st in
      elim (Option-cases (r.0)) [
        | inr (e, p) ↦ absurd (cc (rw (p, apply_items) at ok))
        | inl p ↦
            rw (p, apply_items)
              (cast-Effect f (sets op) k acc.host.state _
                (gather (contains "\\Deleted" flags) (str_eq it.server_id k)
                  (contains k (named_ids l)))
                (gather (contains "\\Seen" flags) (str_eq it.server_id k)
                  (contains k (named_ids l)))
                (gather (contains "\\Flagged" flags) (str_eq it.server_id k)
                  (contains k (named_ids l)))
                (compose-Effect f (sets op) _ _ _ _ _ _ k acc.host.state _ _
                  (apply_flags-Effect f op k it.server_id flags st p)
                  (apply_items-Effect l (with_mutation snap seq it (r.1) acc)
                    (rw (p, apply_items) at ok))))
      ]

  -- After a STORE whose writes succeed, for each ID of the folder: where the command names the message, the
  -- marks that it lists are set or cleared; the other marks, and every other field of the message found
  -- under the ID, are as before.
  pub apply_flag_mutations-Effect :
      (set : NumSet) (h : Host)
      → (apply_flag_mutations f set op flags snap h).0 ≡ none
      → AllEffect (named_items set snap) h (apply_flag_mutations f set op flags snap h).1.host
  unfolding apply_flag_mutations
  apply_flag_mutations-Effect set h ok =
      apply_items-Effect (named_items set snap) (record { changes = []; mutated = []; host = h }) ok

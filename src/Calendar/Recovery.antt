-- ===== src/Calendar/Recovery.antt =====
-- The replay of the batch that is written for the pending changes, at one server ID.
use eas_bridge.Prelude.{
  String, ◌≡◌, refl, ◌∙◌, ◌&&◌, Option, none, some, List, [], ◌∷◌, arith, eq_iff, contains,
  if◌then◌else◌, sort_strings, contains-sort_strings, Option-cases, inl, inr,
}
use eas_bridge.Dict.{Dict, get, remove, keys, has, get-put, get-remove, contains-keys}
use eas_bridge.Eas.{EventItem}
use eas_bridge.Store.{CalendarEventAlias}
use eas_bridge.Calendar.Changes.{CalendarMutations}
use eas_bridge.Calendar.Log.{
  Maps, pick_events, pick_aliases, batch_of, replay_deletes, replay_delete_aliases, replay_upsert,
  replay_upserts, replay_alias, replay_aliases, replay_batch,
}

-- Every event is stored under its own server ID.
abbrev pub Named : Dict EventItem → Type 0
Named d = (k : String) (e : EventItem) → get d k ≡ some e → e.server_id ≡ k

abbrev pub or_old {ℓ} : {A : Type ℓ} → Option A → Option A → Option A
or_old none o = o
or_old (some a) o = some a

pick_events-none :
    (d : Dict EventItem) (id : String) (ids : List String)
    → get d id ≡ none
    → pick_events d (id ∷ ids) ≡ pick_events d ids
unfolding pick_events
pick_events-none d id ids h = ground arith

pick_events-some :
    (d : Dict EventItem) (id : String) (ids : List String) (e : EventItem)
    → get d id ≡ some e
    → pick_events d (id ∷ ids) ≡ e ∷ pick_events d ids
unfolding pick_events
pick_events-some d id ids e h = ground arith

pick_aliases-none :
    (d : Dict CalendarEventAlias) (id : String) (ids : List String)
    → get d id ≡ none
    → pick_aliases d (id ∷ ids) ≡ pick_aliases d ids
unfolding pick_aliases
pick_aliases-none d id ids h = ground arith

pick_aliases-some :
    (d : Dict CalendarEventAlias) (id : String) (ids : List String) (a : CalendarEventAlias)
    → get d id ≡ some a
    → pick_aliases d (id ∷ ids) ≡ record { server_id = id; alias = a } ∷ pick_aliases d ids
unfolding pick_aliases
pick_aliases-some d id ids a h = ground arith

module _ (k : String) where
  replay_deletes-get :
      (ids : List String) (m : Maps)
      → (get (replay_deletes ids m).events k ≡ (if contains k ids then none else get m.events k))
        × (get (replay_deletes ids m).aliases k ≡ get m.aliases k)
  unfolding replay_deletes
  replay_deletes-get [] m = (refl, refl)
  replay_deletes-get (id ∷ ids) m =
      let next : Maps = record m { events = remove m.events id } in
      let ih = replay_deletes-get ids next in ground (arith, ih, get-remove m.events id k)

  replay_delete_aliases-get :
      (ids : List String) (m : Maps)
      → (get (replay_delete_aliases ids m).events k ≡ get m.events k)
        × (get (replay_delete_aliases ids m).aliases k
            ≡ (if contains k ids then none else get m.aliases k))
  unfolding replay_delete_aliases
  replay_delete_aliases-get [] m = (refl, refl)
  replay_delete_aliases-get (id ∷ ids) m =
      let next : Maps = record m { aliases = remove m.aliases id } in
      let ih = replay_delete_aliases-get ids next in ground (arith, ih, get-remove m.aliases id k)

  replay_upserts-get :
      (d : Dict EventItem) (ids : List String) (m : Maps)
      → Named d
      → (get (replay_upserts (pick_events d ids) m).events k
          ≡ (if contains k ids then or_old (get d k) (get m.events k) else get m.events k))
        × (get (replay_upserts (pick_events d ids) m).aliases k
            ≡ (if contains k ids && has d k then none else get m.aliases k))
  unfolding replay_upserts replay_upsert
  replay_upserts-get d [] m n = (unfold pick_events in refl, unfold pick_events in refl)
  replay_upserts-get d (id ∷ ids) m n = elim (Option-cases (get d id)) [
    | inl e ↦
        rw (pick_events-none d id ids e) (ground (arith, replay_upserts-get d ids m n, eq_iff id k))
    | inr (ev, e) ↦ rw (pick_events-some d id ids ev e) (
        let next = replay_upsert ev m in
        ground (
          arith,
          replay_upserts-get d ids next n,
          eq_iff id k,
          n id ev e,
          get-put m.events ev.server_id k ev,
          get-remove m.aliases ev.server_id k,
        ))
  ]

  replay_aliases-get :
      (d : Dict CalendarEventAlias) (ids : List String) (m : Maps)
      → (get (replay_aliases (pick_aliases d ids) m).aliases k
          ≡ (if contains k ids then or_old (get d k) (get m.aliases k) else get m.aliases k))
        × (get (replay_aliases (pick_aliases d ids) m).events k
            ≡ (if contains k ids && has d k then none else get m.events k))
  unfolding replay_aliases replay_alias
  replay_aliases-get d [] m = (unfold pick_aliases in refl, unfold pick_aliases in refl)
  replay_aliases-get d (id ∷ ids) m = elim (Option-cases (get d id)) [
    | inl e ↦
        rw (pick_aliases-none d id ids e) (ground (arith, replay_aliases-get d ids m, eq_iff id k))
    | inr (a, e) ↦ rw (pick_aliases-some d id ids a e) (
        let next = replay_alias (record { server_id = id; alias = a }) m in
        ground (
          arith,
          replay_aliases-get d ids next,
          eq_iff id k,
          get-put m.aliases id k a,
          get-remove m.events id k,
        ))
  ]

  sorted_keys {ℓ} : {V : Type ℓ} (d : Dict V) → contains k (sort_strings (keys d)) ≡ has d k
  sorted_keys d = contains-sort_strings k (keys d) ∙ contains-keys d k

  -- The whole batch, at one server ID.
  pub replay_batch-get :
      (c : CalendarMutations) (m : Maps)
      → Named c.upserts
      → (get (replay_batch (batch_of c) m).events k ≡ (
          if has c.alias_upserts k
          then none
          else or_old (get c.upserts k) (if has c.deletes k then none else get m.events k)))
        × (get (replay_batch (batch_of c) m).aliases k
            ≡ or_old (get c.alias_upserts k) (
                if has c.upserts k
                then none
                else if has c.alias_deletes k
                then none
                else get m.aliases k))
  unfolding replay_batch batch_of
  replay_batch-get c m n =
      let m₁ = replay_deletes (sort_strings (keys c.deletes)) m in
      let m₂ = replay_delete_aliases (sort_strings (keys c.alias_deletes)) m₁ in
      let m₃ = replay_upserts (pick_events c.upserts (sort_strings (keys c.upserts))) m₂ in
      ground (
        arith,
        replay_deletes-get (sort_strings (keys c.deletes)) m,
        replay_delete_aliases-get (sort_strings (keys c.alias_deletes)) m₁,
        replay_upserts-get c.upserts (sort_strings (keys c.upserts)) m₂ n,
        replay_aliases-get c.alias_upserts (sort_strings (keys c.alias_upserts)) m₃,
        sorted_keys c.deletes,
        sorted_keys c.alias_deletes,
        sorted_keys c.upserts,
        sorted_keys c.alias_upserts,
      )

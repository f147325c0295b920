-- ===== src/Imap/Confirmed.antt =====
-- Which messages an answer of MoveItems takes, in EXPUNGE and in COPY.
use eas_bridge.Prelude.{
  String, ◌≡◌, refl, ap, ◌∙◌, subst, Bool, true, false, ◌&&◌, ◌||◌, Option, none, some, List, [],
  ◌∷◌, map, arith, contains, is_nil, str_eq, eq_iff, ◌==◌, Bool-cases, Option-cases, inl, inr,
}
use eas_bridge.Dict.{Dict, empty, get, put, get-put, get-empty}
use eas_bridge.Eas.{EmailItem}
use eas_bridge.Eas.Uploads.{MoveItemResult}
use eas_bridge.Imap.Session.{MboxSnapshot}
use eas_bridge.Imap.Moves.{move_items_status_ok, dst_id_of, Victim, moved_victims, moved_ids}

-- The answer of the server says that the message was moved.
unfoldable pub is_confirmed : String → List MoveItemResult → Bool
is_confirmed id [] = false
is_confirmed id (r ∷ rs) =
    (r.status == move_items_status_ok && str_eq r.src_server_id id) || is_confirmed id rs

unfoldable pub confirms : Option (List MoveItemResult) → String → Bool
unfolding is_confirmed
confirms none id = false
confirms (some rs) id = is_confirmed id rs

abbrev pub is_there : {A : Type 0} → Option A → Bool
is_there none = false
is_there (some a) = true

there-dst_id_of :
    (id : String) (rs : List MoveItemResult) (m : Dict String)
    → is_there (get (dst_id_of m rs) id) ≡ (is_there (get m id) || is_confirmed id rs)
unfolding dst_id_of is_confirmed
there-dst_id_of id [] m = ground arith
there-dst_id_of id (r ∷ rs) m = elim (Bool-cases (r.status == move_items_status_ok)) [
  | inl p ↦
      rw (p, dst_id_of)
        (ground (
          arith,
          there-dst_id_of id rs (put m r.src_server_id r.dst_server_id),
          get-put m r.src_server_id id r.dst_server_id,
        ))
  | inr p ↦ rw (p, dst_id_of) (there-dst_id_of id rs m)
]

abbrev pub victim_ids : List Victim → List String
victim_ids vs = map (λ v. v.server_id) vs

skipped :
    (x id : String) (c : Bool) (dst : Dict String)
    → get dst x ≡ none
    → (c && is_there (get dst id)) ≡ ((str_eq x id || c) && is_there (get dst id))
skipped x id c dst p = elim (Bool-cases (str_eq x id)) [
  | inl e ↦
      let gone : get dst id ≡ none = subst (λ y. get dst y ≡ none) ((eq_iff x id).0 e) p in
      rw gone (ground arith)
  | inr e ↦ rw e refl
]

kept :
    (x id : String) (c : Bool) (dst : Dict String) (d : String)
    → get dst x ≡ some d
    → (str_eq x id || (c && is_there (get dst id))) ≡ ((str_eq x id || c) && is_there (get dst id))
kept x id c dst d p = elim (Bool-cases (str_eq x id)) [
  | inl e ↦
      let here : get dst id ≡ some d = subst (λ y. get dst y ≡ some d) ((eq_iff x id).0 e) p in
      rw (here, e) refl
  | inr e ↦ rw e refl
]

pub ids-moved_victims :
    (id : String) (dst : Dict String) (snap : MboxSnapshot) (vs : List Victim)
    → contains id (moved_victims dst snap vs).ids
      ≡ (contains id (victim_ids vs) && is_there (get dst id))
unfolding moved_victims
ids-moved_victims id dst snap [] = refl
ids-moved_victims id dst snap (v ∷ vs) =
    let rest = ids-moved_victims id dst snap vs in
    elim (Option-cases (get dst v.server_id)) [
      | inl p ↦
          rw (p, moved_victims) (rest ∙ skipped v.server_id id (contains id (victim_ids vs)) dst p)
      | inr (d, p) ↦
          rw (p, moved_victims)
            (ap (λ b. str_eq v.server_id id || b) rest
              ∙ kept v.server_id id (contains id (victim_ids vs)) dst d p)
    ]

pub ids-moved_ids :
    (id : String) (dst : Dict String) (items : Dict EmailItem) (ids : List String)
    → contains id (moved_ids dst items ids).ids ≡ (contains id ids && is_there (get dst id))
unfolding moved_ids
ids-moved_ids id dst items [] = refl
ids-moved_ids id dst items (x ∷ xs) =
    let rest = ids-moved_ids id dst items xs in
    elim (Option-cases (get dst x)) [
      | inl p ↦ rw (p, moved_ids) (rest ∙ skipped x id (contains id xs) dst p)
      | inr (d, p) ↦
          rw (p, moved_ids) (ap (λ b. str_eq x id || b) rest ∙ kept x id (contains id xs) dst d p)
    ]

-- The answer in the map of new IDs.
pub there-confirmed :
    (id : String) (rs : List MoveItemResult)
    → is_there (get (dst_id_of empty rs) id) ≡ is_confirmed id rs
there-confirmed id rs =
    there-dst_id_of id rs empty ∙ ap (λ o. is_there o || is_confirmed id rs) (get-empty id)

pub none_listed : (id : String) (ids : List String) → is_nil ids ≡ true → contains id ids ≡ false
none_listed id [] h = refl
none_listed id (x ∷ ids) h = cc

pub no_victims :
    (id : String) (vs : List Victim) → is_nil vs ≡ true → contains id (victim_ids vs) ≡ false
no_victims id [] h = refl
no_victims id (v ∷ vs) h = cc

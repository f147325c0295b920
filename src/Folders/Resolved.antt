-- ===== src/Folders/Resolved.antt =====
-- The recursion of imapFolderNames: it ends, and it names every folder of mail.
use eas_bridge.Prelude.{
  ℕ, ◌≤◌, ◌<◌, zero, suc, String, ◌≡◌, refl, ap, Bool, true, false, not, Option, none, some, List,
  [], ◌∷◌, map, arith, eq_iff, contains, is_empty, length, if◌then◌else◌, Bool-cases, Option-cases,
  inl, inr,
}
use eas_bridge.Dict.{Dict, empty, get, get_or, keys, contains-keys}
use eas_bridge.Eas.{Folder}
use eas_bridge.Sync.Reads.{is_mail_folder_type, system_imap_folder_name}
use eas_bridge.Folders.Names.{
  resolve, resolve_each, imap_folder_names, by_id_of, segments_of, set_apart,
}

-- How many of the keys are not being visited.
fresh : List String → List String → ℕ
fresh visiting [] = 0
fresh visiting (k ∷ ks) = if contains k visiting then fresh visiting ks else suc (fresh visiting ks)

fresh-le : (v ks : List String) → fresh v ks ≤ length ks
unfolding fresh
fresh-le v [] = omega arith
fresh-le v (k ∷ ks) = ground (arith, fresh-le v ks)

fresh_more : (id : String) (v ks : List String) → fresh (id ∷ v) ks ≤ fresh v ks
unfolding fresh
fresh_more id v [] = omega arith
fresh_more id v (k ∷ ks) = ground (arith, fresh_more id v ks)

-- Visiting one more key leaves fewer.
fresh_less :
    (id : String) (v ks : List String)
    → contains id ks ≡ true
    → contains id v ≡ false
    → fresh (id ∷ v) ks < fresh v ks
unfolding fresh
fresh_less id v [] here new = cc
fresh_less id v (k ∷ ks) here new =
    ground (arith, fresh_less id v ks, fresh_more id v ks, eq_iff k id, eq_iff id k)

abbrev is_done : Option (String × Dict String) → Bool
is_done none = false
is_done (some r) = true

module _ (by_id : Dict Folder) (segments : Dict String) where
  resolve_done :
      (fuel : ℕ) (visiting : List String) (names : Dict String) (id : String)
      → fresh visiting (keys by_id) < fuel
      → is_done (resolve by_id segments fuel visiting names id) ≡ true
  unfolding resolve
  resolve_done zero visiting names id room = absurd (omega arith)
  resolve_done (suc fuel) visiting names id room =
      elim (Bool-cases (not (is_empty (get_or "" names id)))) [
        | inl p ↦ rw (p, resolve) refl
        | inr p ↦ elim (Option-cases (get by_id id)) [
          | inl q ↦ rw (p, q, resolve) refl
          | inr (folder, q) ↦ elim (Bool-cases (not (is_mail_folder_type folder.kind))) [
            | inl r ↦ rw (p, q, r, resolve) refl
            | inr r ↦ elim (Bool-cases (not (is_empty (system_imap_folder_name folder.kind)))) [
              | inl s ↦ rw (p, q, r, s, resolve) refl
              | inr s ↦ elim (Bool-cases (contains id visiting)) [
                | inl t ↦ rw (p, q, r, s, t, resolve) refl
                | inr t ↦
                    let known : contains id (keys by_id) ≡ true =
                      ground (arith, contains-keys by_id id, q) in
                    let less = fresh_less id visiting (keys by_id) known t in
                    let ih =
                      resolve_done fuel (id ∷ visiting) names folder.parent_id
                        (omega (arith, less, room)) in
                    elim (Option-cases
                      (resolve by_id segments fuel (id ∷ visiting) names folder.parent_id)) [
                        | inl u ↦ absurd (cc (rw u at ih))
                        | inr (x, u) ↦ rw (p, q, r, s, t, u, resolve) refl
                      ]
              ]
            ]
          ]
        ]
      ]

  each_done :
      (fuel : ℕ) (entries : List (String × Folder)) (names : Dict String)
      → fresh [] (keys by_id) < fuel
      → elim (resolve_each by_id segments fuel entries names) as (λ x. Bool) [
        | none ↦ false
        | some n ↦ true
      ]
        ≡ true
  unfolding resolve_each
  each_done fuel [] names room = refl
  each_done fuel ((id, folder) ∷ rest) names room =
      elim (Bool-cases (not (is_mail_folder_type folder.kind))) [
        | inl p ↦ rw (p, resolve_each) (each_done fuel rest names room)
        | inr p ↦
            let one = resolve_done fuel [] names id room in
            elim (Option-cases (resolve by_id segments fuel [] names id)) [
              | inl q ↦ absurd (cc (rw q at one))
              | inr ((name, names'), q) ↦ rw (p, q, resolve_each) (each_done fuel rest names' room)
            ]
      ]

length-keys : {A : Type 0} (l : List (String × A)) → length (map (λ e. e.0) l) ≡ length l
length-keys [] = refl
length-keys (e ∷ l) = ap suc (length-keys l)

some_of :
    {A : Type 0} (o : Option A)
    → elim o as (λ x. Bool) [ none ↦ false | some a ↦ true ] ≡ true
    → (a : A) × (o ≡ some a)
some_of none h = cc
some_of (some a) h = (a, refl)

-- The naming of the folders ends for every list of folders, parents in a circle included.
pub imap_folder_names_terminates :
    (to_lower : String → String) (path_component : String → String → String) (folders : List Folder)
    → (names : Dict String) × (imap_folder_names to_lower path_component folders ≡ some names)
unfolding imap_folder_names
imap_folder_names_terminates to_lower path_component folders =
    let by_id = by_id_of empty folders in
    let found =
      segments_of to_lower path_component (record { segments = empty; duplicates = empty })
        folders in
    let segments =
      set_apart to_lower path_component by_id found.duplicates.entries found.segments in
    some_of (imap_folder_names to_lower path_component folders) (
      each_done by_id segments (suc (length by_id.entries)) by_id.entries empty
        (omega (arith, fresh-le [] (keys by_id), length-keys by_id.entries)))

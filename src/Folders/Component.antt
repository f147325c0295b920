-- ===== src/Folders/Component.antt =====
-- cleanMailboxComponent (folders.go): a display name as one level of a mailbox name.
use Prim.Native.Char.{Char, code, char}
use Prim.Native.String.{[], ◌∷◌}
use eas_bridge.Prelude.{
  String, ◌≡◌, refl, Bool, true, false, not, ◌&&◌, ◌||◌, leb, ◌==◌, if◌then◌else◌, arith, is_empty,
  Bool-cases, inl, inr,
}

-- unicode.IsSpace
unfoldable pub is_space : Char → Bool
is_space c =
    let n = code c in
    (leb 9 n && leb n 13)
    || n == 32
    || n == 133
    || n == 160
    || n == 5760
    || (leb 8192 n && leb n 8202)
    || n == 8232
    || n == 8233
    || n == 8239
    || n == 8287
    || n == 12288

-- unicode.IsControl
unfoldable pub is_control : Char → Bool
is_control c = let n = code c in leb n 31 || (leb 127 n && leb n 159)

-- strings.TrimSpace, at the left end and at the right
unfoldable pub trim_left : String → String
trim_left [] = ""
trim_left (c ∷ cs) = let rest = trim_left cs in if is_space c then rest else c ∷ cs

unfoldable pub trim_right : String → String
trim_right [] = ""
trim_right (c ∷ cs) =
    let rest = trim_right cs in if is_empty rest && is_space c then "" else c ∷ rest

unfoldable pub trim_space : String → String
unfolding trim_left trim_right
trim_space s = trim_right (trim_left s)

-- '/', and the character that is written in its place
unfoldable pub is_slash : Char → Bool
is_slash c = code c == 47

unfoldable pub division_slash : Char
division_slash = char 8725 tt

-- strings.Map with the function of the source
unfoldable pub map_name : String → String
unfolding is_slash is_control division_slash
map_name [] = ""
map_name (c ∷ cs) =
    let rest = map_name cs in
    if is_slash c then division_slash ∷ rest else if is_control c then rest else c ∷ rest

unfoldable pub clean_mailbox_component : String → String
unfolding trim_space map_name
clean_mailbox_component name =
    let clean = map_name (trim_space name) in if is_empty clean then "Folder" else clean

-- No separator and no control character.
abbrev pub is_component : String → Bool
is_component [] = true
is_component (c ∷ cs) = not (is_slash c) && not (is_control c) && is_component cs

slash_free : (is_slash division_slash ≡ false) × (is_control division_slash ≡ false)
unfolding is_slash is_control division_slash
slash_free = (refl, refl)

map_name_clean : (s : String) → is_component (map_name s) ≡ true
unfolding map_name
map_name_clean [] = refl
map_name_clean (c ∷ cs) = elim (Bool-cases (is_slash c)) [
  | inl p ↦ rw (p, map_name) (ground (arith, map_name_clean cs, slash_free.0, slash_free.1))
  | inr p ↦ elim (Bool-cases (is_control c)) [
    | inl q ↦ rw (p, q, map_name) (map_name_clean cs)
    | inr q ↦ rw (p, q, map_name) (ground (arith, map_name_clean cs, p, q))
  ]
]

-- The level that a display name becomes is not empty, and holds no separator and no control character.
pub clean_mailbox_component_lem :
    (name : String)
    → (is_empty (clean_mailbox_component name) ≡ false)
      × (is_component (clean_mailbox_component name) ≡ true)
unfolding clean_mailbox_component
clean_mailbox_component_lem name =
    let clean = map_name (trim_space name) in
    let free = map_name_clean (trim_space name) in
    elim (Bool-cases (is_empty clean)) [
      | inl p ↦ rw (p, clean_mailbox_component) (refl, refl)
      | inr p ↦ rw (p, clean_mailbox_component) (p, free)
    ]

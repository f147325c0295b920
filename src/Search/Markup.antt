-- ===== src/Search/Markup.antt =====
-- stripHTMLTags (search.go): the text of a page without its tags, for the search in bodies.
use Prim.Native.Char.{Char, char, code}
use Prim.Native.String.append
use Prim.Native.String.{[], ◌∷◌, ◌++◌}
use eas_bridge.Prelude.{
  String, ◌≡◌, refl, sym, ap, ◌∙◌, Bool, true, false, not, ◌&&◌, ◌==◌, if◌then◌else◌, arith,
}

-- '<' and '>'
unfoldable pub opens : Char → Bool
opens c = code c == 60

unfoldable pub closes : Char → Bool
closes c = code c == 62

-- The loop, with its variable inTag.
unfoldable pub strip_from : Bool → String → String
unfolding opens closes
strip_from in_tag [] = ""
strip_from in_tag (c ∷ cs) =
    let text = strip_from in_tag cs in
    let inside = strip_from true cs in
    let outside = strip_from false cs in
    if opens c then inside else if closes c then outside else if in_tag then text else c ∷ text

unfoldable pub strip_html_tags : String → String
unfolding strip_from
strip_html_tags s = strip_from false s

-- No angle bracket in the text.
abbrev pub is_plain : String → Bool
is_plain [] = true
is_plain (c ∷ cs) = not (opens c) && not (closes c) && is_plain cs

strip_from-plain : (in_tag : Bool) (s : String) → is_plain (strip_from in_tag s) ≡ true
unfolding strip_from
strip_from-plain in_tag [] = refl
strip_from-plain in_tag (c ∷ cs) =
    ground (arith, strip_from-plain in_tag cs, strip_from-plain true cs, strip_from-plain false cs)

plain-strip_from : (s : String) → is_plain s ≡ true → strip_from false s ≡ s
unfolding strip_from
plain-strip_from [] h = refl
plain-strip_from (c ∷ cs) h = ground (arith, plain-strip_from cs)

strip_from-inside :
    (tag rest : String)
    → is_plain tag ≡ true
    → strip_from true (tag ++ ">" ++ rest) ≡ strip_from false rest
unfolding strip_from
strip_from-inside [] rest h =
    ap (strip_from true) (append.nil (">" ++ rest) ∙ append.cons (char 62 tt) [] rest)
    ∙ ap (strip_from false) (append.nil rest)
strip_from-inside (c ∷ tag) rest h =
    ap (strip_from true) (append.cons c tag (">" ++ rest))
    ∙ ground (arith, h, strip_from-inside tag rest)

push_branches :
    (a b t : Bool) (c : Char) (x y z r : String) {x' y' z' : String}
    → x' ≡ x ++ r
    → y' ≡ y ++ r
    → z' ≡ z ++ r
    → (if a then x' else if b then y' else if t then z' else c ∷ z')
      ≡ (if a then x else if b then y else if t then z else c ∷ z) ++ r
push_branches true b t c x y z r p q w = p
push_branches false true t c x y z r p q w = q
push_branches false false true c x y z r p q w = w
push_branches false false false c x y z r p q w = ap (λ u. c ∷ u) w ∙ sym (append.cons c z r)

-- A tag goes wherever it stands, and the reading goes on outside of it.
strip_from-tag :
    (in_tag : Bool) (before tag rest : String)
    → is_plain tag ≡ true
    → strip_from in_tag (before ++ "<" ++ tag ++ ">" ++ rest)
      ≡ strip_from in_tag before ++ strip_from false rest
unfolding strip_from
strip_from-tag in_tag [] tag rest h =
    let after = tag ++ ">" ++ rest in
    ap (strip_from in_tag) (append.nil ("<" ++ after) ∙ append.cons (char 60 tt) [] after)
    ∙ ap (strip_from true) (append.nil after)
    ∙ strip_from-inside tag rest h
    ∙ sym (append.nil (strip_from false rest))
strip_from-tag in_tag (c ∷ before) tag rest h =
    ap (strip_from in_tag) (append.cons c before ("<" ++ tag ++ ">" ++ rest))
    ∙ push_branches (opens c) (closes c) in_tag c (strip_from true before) (strip_from false before)
        (strip_from in_tag before) (strip_from false rest) (strip_from-tag true before tag rest h)
        (strip_from-tag false before tag rest h) (strip_from-tag in_tag before tag rest h)

-- The stripped text has no angle bracket; a text without one stays as it is; and a tag with none inside is
-- taken out wherever it stands, the text before it and the text after it being stripped on their own.
pub strip_html_tags_lem :
    (s plain tag rest : String)
    → is_plain plain ≡ true
    → is_plain tag ≡ true
    → (is_plain (strip_html_tags s) ≡ true)
      × (strip_html_tags plain ≡ plain)
      × (strip_html_tags (s ++ "<" ++ tag ++ ">" ++ rest)
          ≡ strip_html_tags s ++ strip_html_tags rest)
unfolding strip_html_tags
strip_html_tags_lem s plain tag rest p h =
    (strip_from-plain false s, plain-strip_from plain p, strip_from-tag false s tag rest h)

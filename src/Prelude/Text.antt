-- ===== src/Prelude/Text.antt =====
-- The order of texts, and the sort of server IDs (`sort.Strings`).
use Prim.Native.String.{String, compare}
use mathlib.Core.Path.{◌≡◌, refl, ap, ◌∙◌}
use mathlib.Core.Bool.{Bool, false, ◌||◌}
use mathlib.Core.List.{List, [], ◌∷◌}
use native.Mathlib.Omega.{arith}
use text.Mathlib.Text.{◌==◌ as str_eq, is_lt}
use text.Mathlib.TextEquality.{eq_iff}
use eas_bridge.Prelude.Tests.{if◌then◌else◌}
use eas_bridge.Prelude.Lists.{contains, Distinct}

abbrev pub str_lt : String → String → Bool
str_lt s t = is_lt (compare s t)

insert_string : String → List String → List String
insert_string s [] = s ∷ []
insert_string s (t ∷ ts) =
    let rest = insert_string s ts in if str_lt t s then t ∷ rest else s ∷ t ∷ ts

unfoldable pub sort_strings : List String → List String
unfolding insert_string
sort_strings [] = []
sort_strings (s ∷ ss) = insert_string s (sort_strings ss)

contains-insert :
    (k s : String) (ts : List String)
    → contains k (insert_string s ts) ≡ (str_eq s k || contains k ts)
unfolding insert_string
contains-insert k s [] = refl
contains-insert k s (t ∷ ts) = ground (arith, contains-insert k s ts)

pub contains-sort : (k : String) (ts : List String) → contains k (sort_strings ts) ≡ contains k ts
unfolding sort_strings
contains-sort k [] = refl
contains-sort k (s ∷ ss) =
    contains-insert k s (sort_strings ss) ∙ ap (λ b. str_eq s k || b) (contains-sort k ss)

insert-Distinct :
    (s : String) (ts : List String)
    → contains s ts ≡ false
    → Distinct ts
    → Distinct (insert_string s ts)
unfolding insert_string
insert-Distinct s [] c d = (c, tt)
insert-Distinct s (t ∷ ts) c d =
    ground (arith, insert-Distinct s ts, contains-insert t s ts, eq_iff s t, eq_iff t s)

pub sort-Distinct : (ss : List String) → Distinct ss → Distinct (sort_strings ss)
unfolding sort_strings
sort-Distinct [] d = tt
sort-Distinct (s ∷ ss) d =
    insert-Distinct s (sort_strings ss) (contains-sort s ss ∙ d.0) (sort-Distinct ss d.1)

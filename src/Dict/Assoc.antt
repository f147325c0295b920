-- ===== src/Dict/Assoc.antt =====
-- Association lists with text keys.
use eas_bridge.Prelude.{
  String, ◌≡◌, Option, none, some, List, [], ◌∷◌, arith, str_eq, eq_iff, if◌then◌else◌,
}

module _ {ℓ} {V : Type ℓ} where
  unfoldable pub without : List (String × V) → String → List (String × V)
  without [] key = []
  without (entry ∷ entries) key =
      let kept = without entries key in if str_eq entry.0 key then kept else entry ∷ kept

  unfoldable pub lookup : List (String × V) → String → Option V
  lookup [] key = none
  lookup (entry ∷ entries) key = if str_eq entry.0 key then some entry.1 else lookup entries key

  pub lookup-without :
      (entries : List (String × V)) (gone key : String)
      → lookup (without entries gone) key ≡ (if str_eq gone key then none else lookup entries key)
  unfolding without lookup
  lookup-without [] gone key = ground arith
  lookup-without (entry ∷ entries) gone key = ground (
    arith,
    eq_iff gone key,
    eq_iff entry.0 key,
    eq_iff entry.0 gone,
    lookup-without entries gone key,
  )

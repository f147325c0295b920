-- ===== src/Digest/Header.antt =====
-- parseDigestAuthorization (digest.go). The loops over the index are one walk over the text, with the
-- place in the grammar as its state.
use Prim.Native.Char.{Char, code}
use Prim.Native.String.{[], ◌∷◌, ◌++◌}
use text.Mathlib.Text.{starts_with}
use eas_bridge.Prelude.{ℕ, zero, suc, String, ◌||◌, Option, none, some, ◌==◌, if◌then◌else◌}
use eas_bridge.Dict.{Dict, empty, put}
use eas_bridge.Folders.Component.{trim_space}

-- Where the index stands: between parameters, in a key, after '=', in quotes, after a backslash in
-- quotes, or in a value without quotes. The texts are what was read of the key and of the value.
pub data Place : Type 0 where
  between : Place
  in_key : String → Place
  at_value : String → Place
  in_quotes : String → String → Place
  escaped : String → String → Place
  in_value : String → String → Place

unfoldable pub single : Char → String
single c = c ∷ ""

module _ (to_lower : String → String) where
  -- `kv[key] = val`
  unfoldable pub with_param : String → String → Dict String → Dict String
  unfolding trim_space
  with_param key val kv = put kv (to_lower (trim_space key)) val

  -- One character: the next place and the parameters, or `none` for a malformed header.
  unfoldable pub read_param : Char → Place → Dict String → Option (Place × Dict String)
  unfolding single with_param
  read_param c between kv =
      if code c == 32 || code c == 44
      then some (between, kv)
      else if code c == 61
      then some (at_value "", kv)
      else some (in_key (single c), kv)
  read_param c (in_key k) kv =
      if code c == 61
      then some (at_value k, kv)
      else if code c == 44
      then none
      else some (in_key (k ++ single c), kv)
  read_param c (at_value k) kv =
      if code c == 34
      then some (in_quotes k "", kv)
      else if code c == 44
      then some (between, with_param k "" kv)
      else some (in_value k (single c), kv)
  read_param c (in_quotes k v) kv =
      if code c == 34
      then some (between, with_param k v kv)
      else if code c == 92
      then some (escaped k v, kv)
      else some (in_quotes k (v ++ single c), kv)
  read_param c (escaped k v) kv = some (in_quotes k (v ++ single c), kv)
  read_param c (in_value k v) kv =
      if code c == 44
      then some (between, with_param k (trim_space v) kv)
      else some (in_value k (v ++ single c), kv)

  -- The end of the header: a key without '=' and an open quote are malformed.
  unfoldable pub end_params : Place → Dict String → Option (Dict String)
  unfolding with_param
  end_params between kv = some kv
  end_params (in_key k) kv = none
  end_params (at_value k) kv = some (with_param k "" kv)
  end_params (in_quotes k v) kv = none
  end_params (escaped k v) kv = none
  end_params (in_value k v) kv = some (with_param k (trim_space v) kv)

  unfoldable pub read_params : String → Place → Dict String → Option (Dict String)
  unfolding read_param end_params
  read_params [] place kv = end_params place kv
  read_params (c ∷ cs) place kv = elim (read_param c place kv) [
    | none ↦ none
    | some (next, kv') ↦ read_params cs next kv'
  ]

  -- `header[len(prefix):]`, for the seven characters of "Digest "
  unfoldable pub drop_chars : ℕ → String → String
  drop_chars zero s = s
  drop_chars (suc n) [] = ""
  drop_chars (suc n) (c ∷ cs) = drop_chars n cs

  -- parseDigestAuthorization
  unfoldable pub parse_digest_authorization : String → Option (Dict String)
  unfolding read_params drop_chars
  parse_digest_authorization header =
      if starts_with header "Digest " then read_params (drop_chars 7 header) between empty else none

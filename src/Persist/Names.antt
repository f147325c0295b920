-- ===== src/Persist/Names.antt =====
-- shardFileName (state.go): the file of a folder, with '_' for every character that is not safe.
use Prim.Native.Char.{Char, code, char}
use Prim.Native.String.{[], ◌∷◌, ◌++◌}
use eas_bridge.Prelude.{ℕ, String, Bool, ◌&&◌, ◌||◌, leb, ◌==◌, if◌then◌else◌}

abbrev between : ℕ → ℕ → ℕ → Bool
between low high n = leb low n && leb n high

safe_char : Char → Bool
safe_char c =
    let n = code c in
    between 97 122 n || between 65 90 n || between 48 57 n || n == 45 || n == 95 || n == 46

underscore : Char
underscore = char 95 tt

safe_name : String → String
unfolding safe_char underscore
safe_name [] = ""
safe_name (c ∷ cs) = (if safe_char c then c else underscore) ∷ safe_name cs

unfoldable pub shard_file_name : String → String
unfolding safe_name
shard_file_name folder_id = safe_name folder_id ++ ".json"

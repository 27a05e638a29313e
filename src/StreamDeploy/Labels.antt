-- ===== src/StreamDeploy/Labels.antt =====
-- controllers/codebaseimagestream/chain/put_cd_stage_deploy.go: the labels that name a stage, those that
-- match `^[-A-Za-z0-9_.]+/[-A-Za-z0-9_.]+$`.
pub mod Names
use Prim.Native.Char.{Char, code}
use Prim.Native.String.{◌++◌}
use edp_codebase_operator.Prelude.{
  ℕ, String, Bool, true, false, not, ◌&&◌, ◌||◌, Option, none, some, ltb, eqb, ◌==◌, if◌then◌else◌,
}

abbrev between : ℕ → ℕ → ℕ → Bool
between low high c = not (ltb c low) && not (ltb high c)

-- A character of the class `[-A-Za-z0-9_.]`.
unfoldable pub is_env_char : ℕ → Bool
is_env_char c =
    between b'a' b'z' c
    || between b'A' b'Z' c
    || between b'0' b'9' c
    || eqb c b'-'
    || eqb c b'_'
    || eqb c b'.'

unfoldable pub all_env_chars : String → Bool
all_env_chars String.[] = true
all_env_chars (String.◌∷◌ c s) = is_env_char (code c) && all_env_chars s

unfoldable pub is_env_name : String → Bool
is_env_name s = not (s == "") && all_env_chars s

abbrev pub prepend_first : Char → Option (String × String) → Option (String × String)
prepend_first c none = none
prepend_first c (some (p, s)) = some (String.◌∷◌ c p, s)

-- The text before the first slash, and the text behind it.
unfoldable pub split_slash : String → Option (String × String)
split_slash String.[] = none
split_slash (String.◌∷◌ c s) =
    let rest = split_slash s in if eqb (code c) b'/' then some ("", s) else prepend_first c rest

abbrev pub both_names : Option (String × String) → Option (String × String)
both_names none = none
both_names (some (p, s)) = if is_env_name p && is_env_name s then some (p, s) else none

-- The pipeline and the stage of a label that matches: the two parts of `strings.Split(envLabel, "/")`.
unfoldable pub env_of : String → Option (String × String)
env_of label = both_names (split_slash label)

-- `strings.ReplaceAll(envLabel, "/", "-")`
unfoldable pub replace_slashes : String → String
replace_slashes String.[] = ""
replace_slashes (String.◌∷◌ c s) =
    let rest = replace_slashes s in if eqb (code c) b'/' then "-" ++ rest else String.◌∷◌ c rest

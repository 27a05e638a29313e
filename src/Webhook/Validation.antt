-- ===== src/Webhook/Validation.antt =====
-- pkg/webhook/validation.go, and `TrimGitFromURL` of pkg/util/url.go.
pub mod Urls
use Prim.Native.Char.{Char, code}
use Prim.Native.String.{◌++◌}
use edp_codebase_operator.Prelude.{
  ℕ, suc, zero, String, List, [], ◌∷◌, Bool, true, false, not, ◌&&◌, ◌||◌, Option, none, some, any,
  ltb, eqb, length, lookup, ◌+◌, ◌==◌, if◌then◌else◌,
}
use edp_codebase_operator.Effects.{new}
use edp_codebase_operator.Api.Codebase.{Codebase, versioning_typ_default}
use edp_codebase_operator.DeploymentUsage.{or_empty}
use edp_codebase_operator.Webhook.{Denial, deny_if, or_next}

-- Simple case folding of a code point, as far as it concerns the letters of ASCII: besides the capitals,
-- the Kelvin sign folds to `k` and the long s folds to `s`.
unfoldable pub fold_case : ℕ → ℕ
fold_case c =
    if ltb 64 c && ltb c 91
    then c + 32
    else if eqb c 0x212A
    then 0x6B
    else if eqb c 0x17F
    then 0x73
    else c

-- `strings.EqualFold`, exact where one of the texts is ASCII, as every allowed setting is.
unfoldable pub equal_fold : String → String → Bool
equal_fold String.[] String.[] = true
equal_fold (String.◌∷◌ c s) (String.◌∷◌ d t) =
    eqb (fold_case (code c)) (fold_case (code d)) && equal_fold s t
equal_fold _ _ = false

unfoldable pub contain_settings : List String → String → Bool
contain_settings slice value = any slice (λ element. equal_fold element value)

abbrev pub allowed_strategies : List String
allowed_strategies = "clone" ∷ "create" ∷ "import" ∷ []

abbrev pub allowed_languages : List String
allowed_languages =
    "c" ∷ "container" ∷ "cpp" ∷ "csharp" ∷ "dotnet" ∷ "go" ∷ "groovy-pipeline" ∷ "hcl" ∷ "helm"
    ∷ "java" ∷ "javascript" ∷ "other" ∷ "python" ∷ "rego" ∷ "terraform" ∷ []

-- `strings.Contains` of a text of two characters
unfoldable pub contains_pair : String → String → Bool
contains_pair String.[] pair = false
contains_pair (String.◌∷◌ c String.[]) pair = false
contains_pair (String.◌∷◌ c (String.◌∷◌ d s)) pair =
    String.◌∷◌ c (String.◌∷◌ d String.[]) == pair || contains_pair (String.◌∷◌ d s) pair

-- `strings.CutSuffix`: what is left of the text, where it has the suffix.
abbrev pub prepend_to : Char → Option String → Option String
prepend_to c none = none
prepend_to c (some r) = some (String.◌∷◌ c r)

unfoldable pub cut_suffix : (suffix s : String) → Option String
cut_suffix suffix String.[] = if String.[] == suffix then some "" else none
cut_suffix suffix (String.◌∷◌ c s) =
    let rest = cut_suffix suffix s in
    if String.◌∷◌ c s == suffix then some "" else prepend_to c rest

-- The loop of `TrimGitFromURL`; a text of `n` characters has fewer than `suc n` suffixes to cut.
unfoldable pub trim_git : (fuel : ℕ) → String → Option String
trim_git zero url = none
trim_git (suc fuel) url = elim (cut_suffix ".git" url) [
  | none ↦ some url
  | some r ↦ trim_git fuel r
]

abbrev pub is_some : Option String → Bool
is_some none = false
is_some (some t) = true

-- `validateCodBaseName`
unfoldable pub validate_codebase_name : String → Option Denial
validate_codebase_name name =
    deny_if (contains_pair name "--") "codebase name shouldn't contain '--' symbol"

-- `IsCodebaseValid`
unfoldable pub is_codebase_valid : Codebase → Option Denial
is_codebase_valid c =
    or_next
      (deny_if (not (contain_settings allowed_strategies c.spec.strategy))
        ("provided unsupported repository strategy: " ++ c.spec.strategy))
      (or_next
        (deny_if (not (contain_settings allowed_languages c.spec.lang))
          ("provided unsupported language: " ++ c.spec.lang))
        (or_next
          (deny_if
            (not (c.spec.versioning.type_ == versioning_typ_default)
              && or_empty c.spec.versioning.start_from == "")
            "versioning start from is required when versioning type is not default")
          (deny_if (is_some (cut_suffix " " c.spec.git_url_path))
            "gitUrlPath should not end with space")))

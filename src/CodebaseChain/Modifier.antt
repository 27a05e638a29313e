-- ===== src/CodebaseChain/Modifier.antt =====
-- pkg/objectmodifier/codebase_modifier.go, and `AddGitToURL` of pkg/util/url.go: the suffixes `.git` of a
-- codebase.
pub mod Settled
use Prim.Native.String.{◌++◌}
use text.Mathlib.Text.{starts_with}
use edp_codebase_operator.Prelude.{
  ℕ, String, Bool, true, false, not, ◌||◌, Option, none, some, eqb, ◌+◌, ◌==◌, if◌then◌else◌,
}
use edp_codebase_operator.Effects.{
  Result, ok, err, new, and_then, Exec, pure, lift, gets, modify, wrapping, branch, continue, ◌>>=◌,
  ◌>>◌,
}
use edp_codebase_operator.Api.Codebase.{Codebase}
use edp_codebase_operator.Webhook.Validation.{cut_suffix, is_some}
use edp_codebase_operator.Webhook.Codebases.{trim_git_from_url}
use edp_codebase_operator.CodebaseChain.{World, State, act, set_codebase, patch_codebase}

abbrev pub has_git_suffix : String → Bool
has_git_suffix url = is_some (cut_suffix ".git" url)

-- `strings.Count(url, ".git")`; two occurrences never overlap.
unfoldable pub count_git : String → ℕ
count_git String.[] = 0
count_git (String.◌∷◌ c s) = (if starts_with (String.◌∷◌ c s) ".git" then 1 else 0) + count_git s

-- `AddGitToURL`
unfoldable pub add_git_to_url : String → String
add_git_to_url url = if has_git_suffix url then url else url ++ ".git"

abbrev pub set_git_url_path : String → Codebase → Codebase
set_git_url_path path c = record c { spec = record (c.spec) { git_url_path = path } }

abbrev pub set_repository : String → Codebase → Codebase
set_repository url c = record c { spec = record (c.spec) { repository = some url } }

-- What a modifier makes of the codebase, and whether it says that it has changed it.
-- `trimCodebaseGitSuffix`
unfoldable pub trim_codebase_git_suffix : Codebase → Bool × Codebase
trim_codebase_git_suffix c =
    if has_git_suffix c.spec.git_url_path
    then (true, set_git_url_path (trim_git_from_url c.spec.git_url_path) c)
    else (false, c)

-- `addCodebaseGitSuffix` at the URL of the repository
unfoldable pub with_git_suffix : String → Bool × String
with_git_suffix url =
    if has_git_suffix url
    then if eqb (count_git url) 1
      then (false, url)
      else (true, add_git_to_url (trim_git_from_url url))
    else (true, add_git_to_url url)

-- Without a repository the source dereferences nil; the panic is taken as an error.
abbrev pub add_suffix_at : Codebase → Option String → Result (Bool × Codebase)
add_suffix_at c none = err (new "invalid memory address or nil pointer dereference")
add_suffix_at c (some url) =
    if url == ""
    then ok (false, c)
    else let (changed, url') = with_git_suffix url in ok (changed, set_repository url' c)

unfoldable pub add_codebase_git_suffix : Codebase → Result (Bool × Codebase)
add_codebase_git_suffix c =
    if c.spec.strategy == "clone" then add_suffix_at c c.spec.repository else ok (false, c)

-- The loop of `Apply` over the two modifiers.
unfoldable pub apply_modifiers : Codebase → Result (Bool × Codebase)
apply_modifiers c =
    let (trimmed, c') = trim_codebase_git_suffix c in
    and_then (add_codebase_git_suffix c') λ added. ok (trimmed || added.0, added.1)

module _ (w : World) where
  -- `CodebaseModifier.Apply`
  unfoldable pub apply : Exec State Bool
  apply = do
    c ← gets (λ s. s.codebase)
    modified ← lift (apply_modifiers c)
    modify (set_codebase (λ _. modified.1))
    branch (modified.0)
        (wrapping "failed to patch codebase" (act w (patch_codebase (modified.1))) >> pure true)
        (pure false)

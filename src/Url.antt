-- ===== src/Url.antt =====
-- pkg/util/url.go: the git URL of a project, and the suffix `.git`. `decimal` stands for the verb `%d`
-- of `fmt.Sprintf` at a port.
use Prim.Native.String.{◌++◌, len, slice}
use text.Mathlib.Text.{starts_with}
use edp_codebase_operator.Prelude.{ℕ, String, lookup, text_or_empty, ◌==◌, if◌then◌else◌}
use edp_codebase_operator.Api.Codebase.{GitServer, Secret, CodebaseSpec}

-- `GetHTTPSUrl`
unfoldable pub get_https_url : GitServer → String → String
get_https_url g repo = "https://" ++ g.spec.git_host ++ "/" ++ repo ++ ".git"

-- `GetSSHUrl`
unfoldable pub get_ssh_url : (decimal : ℕ → String) → GitServer → String → String
get_ssh_url decimal g repo =
    if g.spec.git_provider == "gerrit"
    then "ssh://" ++ g.spec.git_host ++ ":" ++ decimal g.spec.ssh_port ++ "/" ++ repo
    else "git@" ++ g.spec.git_host ++ ":" ++ repo ++ ".git"

-- `GetProjectGitUrl`
unfoldable pub get_project_git_url : (decimal : ℕ → String) → GitServer → Secret → String → String
get_project_git_url decimal g secret repo =
    if text_or_empty (lookup "id_rsa" secret.contents) == ""
    then get_https_url g repo
    else get_ssh_url decimal g repo

-- `CodebaseSpec.GetProjectID`, by `strings.TrimPrefix`
unfoldable pub get_project_id : CodebaseSpec → String
get_project_id spec =
    if starts_with spec.git_url_path "/"
    then slice spec.git_url_path 1 (len spec.git_url_path)
    else spec.git_url_path

-- ===== src/CodebaseChain/Repository.antt =====
-- chain/common.go and checkout_branch.go, pkg/codebase/creds.go, GetWorkDir of pkg/util/helper.go and the
-- clone URLs of pkg/util/url.go: the repository in the work directory.
use Prim.Native.String.{◌++◌}
use edp_codebase_operator.Prelude.{
  String, true, false, not, ◌||◌, Option, none, some, get_or_empty, ◌==◌, if◌then◌else◌,
}
use edp_codebase_operator.Effects.{
  Result, ok, err, new, wrap, is_not_found, or_wrap, and_then, Exec, pure, fail, lift, gets,
  wrapping, branch, ◌>>=◌, ◌>>◌,
}
use edp_codebase_operator.Api.Codebase.{
  Codebase, CodebaseSpec, GitServer, Secret, CloneRepositoryCredentials,
}
use edp_codebase_operator.Url.{get_project_git_url, get_project_id}
use edp_codebase_operator.BranchController.Parts.{to_lower}
use edp_codebase_operator.CodebaseChain.{
  World, State, Handler, act, clone, checkout, checkout_remote_branch,
}

pub record GitRepositoryContext : Type 0 where
  pub git_server : GitServer
  pub git_server_secret : Secret
  pub token : String
  pub repo_git_url : String
  pub work_dir : String

-- `GetCloneRepositoryCredentialSecret`
abbrev secret_or : (fallback : String) → Option CloneRepositoryCredentials → String
secret_or fallback none = fallback
secret_or fallback (some r) = if r.secret_name == "" then fallback else r.secret_name

unfoldable pub get_clone_repository_credential_secret : Codebase → String
get_clone_repository_credential_secret c =
    secret_or ("repository-codebase-" ++ c.name ++ "-temp") c.spec.clone_repository_credentials

-- `BuildTemplateRepoUrl`
unfoldable pub build_template_repo_url : CodebaseSpec → String
unfolding to_lower
build_template_repo_url spec = to_lower (
    "https://github.com/epmd-edp" ++ "/" ++ spec.lang ++ "-" ++ spec.build_tool ++ "-"
    ++ spec.framework ++ ".git")

-- `tryGetRepoUrl`
abbrev pub try_get_repo_url : Option String → Result String
try_get_repo_url none = err (new "repository cannot be nil for specified strategy")
try_get_repo_url (some url) = ok url

-- `GetRepoUrlForClone`
unfoldable pub get_repo_url_for_clone : Codebase → Result String
get_repo_url_for_clone c =
    if c.spec.strategy == "clone"
    then try_get_repo_url c.spec.repository
    else ok (build_template_repo_url c.spec)

-- The user name and the password of `GetRepositoryCredentialsIfExists`; both are empty where the secret
-- does not exist.
abbrev credentials_of : (secret_name : String) → Secret → Result (String × String)
credentials_of secret_name s =
    if get_or_empty "username" s.contents == ""
    then err (new ("username key is not defined in secret " ++ secret_name))
    else if get_or_empty "password" s.contents == ""
    then err (new ("password key is not defined in secret " ++ secret_name))
    else ok (get_or_empty "username" s.contents, get_or_empty "password" s.contents)

abbrev credentials_or_none : (secret_name : String) → Result Secret → Result (String × String)
credentials_or_none secret_name (ok s) = credentials_of secret_name s
credentials_or_none secret_name (err e) =
    if is_not_found e
    then ok ("", "")
    else err (wrap "failed to get secret with clone repository credentials" e)

module _ (w : World) where
  -- `GetWorkDir`
  unfoldable pub get_work_dir : Codebase → String
  get_work_dir c =
      w.working_dir ++ "/codebase-operator/edp/" ++ c.namespace ++ "/" ++ c.name ++ "/templates/"
      ++ c.name

  unfoldable pub get_repository_credentials_if_exists : Codebase → Result (String × String)
  get_repository_credentials_if_exists c =
      let name = get_clone_repository_credential_secret c in
      credentials_or_none name (w.get_secret c.namespace name)

  -- `GetGitRepositoryContext`
  unfoldable pub get_git_repository_context : Codebase → Result GitRepositoryContext
  get_git_repository_context c =
      and_then (or_wrap "failed to get GitServer" (w.get_git_server c.namespace c.spec.git_server))
        λ g.
          and_then
            (or_wrap "failed to get GitServer secret"
              (w.get_secret c.namespace g.spec.name_ssh_key_secret))
            λ secret. ok (record {
              git_server = g;
              git_server_secret = secret;
              token = get_or_empty "token" secret.contents;
              repo_git_url = get_project_git_url w.decimal g secret (get_project_id c.spec);
              work_dir = get_work_dir c;
            })

  unfoldable pub checkout_clone : (branch_name work_dir : String) → Codebase → Handler
  checkout_clone branch_name work_dir c = do
    credentials ←
        wrapping "failed to get repository credentials for checkout (clone strategy)"
          (lift (get_repository_credentials_if_exists c))
    wrapping ("failed to checkout to default branch " ++ branch_name ++ " (clone strategy)")
        (act w (checkout (credentials.0) (credentials.1) work_dir branch_name true))

  -- The switch of `CheckoutBranch` on the strategy.
  unfoldable pub checkout_by_strategy :
      (branch_name : String) → GitRepositoryContext → Codebase → Handler
  checkout_by_strategy branch_name ctx c =
      branch (c.spec.strategy == "create")
        (wrapping ("failed to checkout to default branch " ++ branch_name ++ " (create strategy)") (
          act w (
            checkout (get_or_empty "username" ctx.git_server_secret.contents) ctx.token ctx.work_dir
              branch_name false)))
        (branch (c.spec.strategy == "clone") (checkout_clone branch_name ctx.work_dir c) (
          branch (c.spec.strategy == "import")
            (wrapping
              ("failed to checkout to default branch " ++ branch_name ++ " (import strategy)")
              (act w (checkout_remote_branch ctx.work_dir branch_name)))
            (fail (new ("failed to checkout, unsupported strategy: '" ++ c.spec.strategy ++ "'")))))

  -- `CheckoutBranch`
  unfoldable pub checkout_branch :
      (branch_name : String) → GitRepositoryContext → Codebase → Handler
  checkout_branch branch_name ctx c = do
    before ← gets (λ s. s.done)
    current ←
        wrapping "failed to get current branch name" (lift (w.current_branch before ctx.work_dir))
    branch (current == branch_name) (pure tt) (checkout_by_strategy branch_name ctx c)

  unfoldable pub clone_missing : GitRepositoryContext → Handler
  clone_missing ctx = do
    before ← gets (λ s. s.done)
    branch (not (w.path_exists before ctx.work_dir) || w.is_directory_empty before ctx.work_dir)
        (wrapping "failed to clone git repository" (
          act w (
            clone (get_or_empty "username" ctx.git_server_secret.contents) ctx.token
              ctx.repo_git_url ctx.work_dir)))
        (pure tt)

  -- `PrepareGitRepository`
  unfoldable pub prepare_git_repository : Codebase → Exec State GitRepositoryContext
  prepare_git_repository c = do
    ctx ← lift (get_git_repository_context c)
    clone_missing ctx
    wrapping ("failed to checkout default branch " ++ c.spec.default_branch)
        (checkout_branch c.spec.default_branch ctx c)
    pure ctx

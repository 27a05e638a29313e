-- ===== src/CodebaseChain/Project/Provision.antt =====
-- chain/put_project.go: the history that is pushed is made in the work directory.
use Prim.Native.String.{◌++◌}
use edp_codebase_operator.Prelude.{String, true, false, not, ◌&&◌, ◌||◌, ◌==◌}
use edp_codebase_operator.Effects.{pure, lift, gets, wrapping, branch, ◌>>=◌, ◌>>◌}
use edp_codebase_operator.Api.Codebase.{Codebase}
use edp_codebase_operator.CodebaseChain.{
  World, Handler, act, create_directory, remove_directory, clone, init, commit, remove_branch,
  create_child_branch,
}
use edp_codebase_operator.CodebaseChain.Status.{failing_codebase}
use edp_codebase_operator.CodebaseChain.Repository.{
  GitRepositoryContext, get_repo_url_for_clone, get_repository_credentials_if_exists,
  checkout_branch,
}

-- `filepath.Join(directory, ".git")`, of a directory without a slash at its end
abbrev pub git_folder : String → String
git_folder directory = directory ++ "/.git"

module _ (w : World) where
  -- `emptyProjectProvisioning`
  unfoldable pub empty_project_provisioning : GitRepositoryContext → Handler
  empty_project_provisioning ctx = do
    wrapping "failed to remove stale .git folder"
        (act w (remove_directory (git_folder ctx.work_dir)))
    wrapping "failed to create empty git repository" (act w (init ctx.work_dir))
    wrapping "failed to create Initial commit" (act w (commit ctx.work_dir "Initial commit" true))

  -- `tryToCloneRepo`
  unfoldable pub try_to_clone_repo : (url user password : String) → GitRepositoryContext → Handler
  try_to_clone_repo url user password ctx = do
    before ← gets (λ s. s.done)
    branch (w.path_exists before (git_folder ctx.work_dir)) (pure tt)
        (wrapping "failed to clone repository" (act w (clone user password url ctx.work_dir)))

  -- `squashCommits`
  unfoldable pub squash_commits : (work_dir strategy : String) → Handler
  squash_commits work_dir strategy = branch (not (strategy == "create")) (pure tt) do
    wrapping "failed to remove .git folder" (act w (remove_directory (git_folder work_dir)))
    wrapping "failed to create git repository" (act w (init work_dir))
    wrapping "failed to commit all default content" (act w (commit work_dir "Initial commit" false))

  -- `notEmptyProjectProvisioning`
  unfoldable pub not_empty_project_provisioning : GitRepositoryContext → Codebase → Handler
  not_empty_project_provisioning ctx c = do
    url ← wrapping "failed to build repo url" (lift (get_repo_url_for_clone c))
    credentials ←
        wrapping "failed to get repository credentials for project provisioning"
          (lift (get_repository_credentials_if_exists w c))
    wrapping "failed to clone template project"
        (try_to_clone_repo url (credentials.0) (credentials.1) ctx)
    wrapping "failed to squash commits in a template repo"
        (squash_commits ctx.work_dir c.spec.strategy)

  -- `initialProjectProvisioning`
  unfoldable pub initial_project_provisioning : GitRepositoryContext → Codebase → Handler
  initial_project_provisioning ctx c = do
    wrapping ("failed to create dir \"" ++ ctx.work_dir ++ "\"")
        (failing_codebase w "repository_provisioning" (act w (create_directory ctx.work_dir)))
    branch c.spec.empty_project (empty_project_provisioning ctx)
        (not_empty_project_provisioning ctx c)

  -- `replaceDefaultBranch`
  unfoldable pub replace_default_branch : (directory default_branch new_branch : String) → Handler
  replace_default_branch directory default_branch new_branch = do
    wrapping ("failed to remove default branch " ++ default_branch)
        (act w (remove_branch directory default_branch))
    wrapping "failed to create child branch"
        (act w (create_child_branch directory new_branch default_branch))

  unfoldable pub copy_branch : GitRepositoryContext → Codebase → Handler
  copy_branch ctx c = do
    wrapping ("failed to checkout branch to copy " ++ c.spec.branch_to_copy_in_default_branch)
        (checkout_branch w c.spec.branch_to_copy_in_default_branch ctx c)
    wrapping
        ("failed to replace default branch " ++ c.spec.default_branch ++ " with "
          ++ c.spec.branch_to_copy_in_default_branch)
        (replace_default_branch ctx.work_dir c.spec.default_branch
          c.spec.branch_to_copy_in_default_branch)

  unfoldable pub checkout_default : GitRepositoryContext → Codebase → Handler
  checkout_default ctx c = do
    wrapping ("failed to checkout default branch " ++ c.spec.default_branch)
        (checkout_branch w c.spec.default_branch ctx c)
    branch
        ((c.spec.strategy == "create" || c.spec.empty_project)
          && not (c.spec.default_branch == "master"))
        (wrapping "failed to remove init branch master"
          (act w (remove_branch ctx.work_dir "master")))
        (pure tt)

  -- `PutProject.checkoutBranch`
  unfoldable pub checkout_for_push : GitRepositoryContext → Codebase → Handler
  checkout_for_push ctx c =
      branch
        (not (c.spec.branch_to_copy_in_default_branch == "")
          && not (c.spec.default_branch == c.spec.branch_to_copy_in_default_branch))
        (copy_branch ctx c) (checkout_default ctx c)

-- ===== src/CodebaseChain/Configs.antt =====
-- chain/put_deploy_configs.go and put_gitlab_ci_config.go: files that are added to the project.
use Prim.Native.String.{◌++◌}
use edp_codebase_operator.Prelude.{String, Bool, false, not, ◌||◌, ◌==◌}
use edp_codebase_operator.Effects.{pure, lift, gets, wrapping, branch, ◌>>=◌, ◌>>◌}
use edp_codebase_operator.CodebaseChain.{
  World, State, Handler, act, create_directory, copy_file, prepare_templates,
  inject_gitlab_ci_config, commit, push,
}
use edp_codebase_operator.CodebaseChain.Status.{failing_codebase, update_git_status_with_patch}
use edp_codebase_operator.CodebaseChain.Repository.{
  GitRepositoryContext, get_work_dir, prepare_git_repository,
}

abbrev pub deployment_templates : String
deployment_templates = "setup_deployment_templates"

abbrev pub repository_provisioning : String
repository_provisioning = "repository_provisioning"

abbrev pub templates_pushed : String
templates_pushed = "templates_pushed"

abbrev pub gitlab_ci_pushed : String
gitlab_ci_pushed = "gitlab_ci_pushed"

module _ (w : World) where
  -- `addCommitHooks`
  unfoldable pub add_commit_hooks : (work_dir : String) → Handler
  add_commit_hooks work_dir = do
    wrapping ("failed to create folder " ++ work_dir ++ "/.git/hooks")
        (act w (create_directory (work_dir ++ "/.git/hooks")))
    assets ← wrapping "failed to get assets dir" (lift w.assets_dir)
    wrapping "failed to copy file commit-msg"
        (act w (copy_file (assets ++ "/configs/commit-msg") (work_dir ++ "/.git/hooks/commit-msg")))

  unfoldable pub add_gerrit_hooks : GitRepositoryContext → Handler
  add_gerrit_hooks ctx =
      branch (ctx.git_server.spec.git_provider == "gerrit")
        (wrapping "failed to add commit hooks" (add_commit_hooks ctx.work_dir)) (pure tt)

  -- `Commit` and `Push` of all branches
  unfoldable pub commit_and_push : (work_dir message : String) → Handler
  commit_and_push work_dir message = do
    wrapping "failed to commit changes" (act w (commit work_dir message false))
    wrapping "failed to push changes" (act w (push work_dir false))

  unfoldable pub push_configs : Handler
  push_configs = do
    c ← gets (λ s. s.codebase)
    ctx ←
        wrapping "failed to prepare git repository"
          (failing_codebase w deployment_templates (prepare_git_repository w c))
    add_gerrit_hooks ctx
    wrapping "failed to prepare template" (act w (prepare_templates c ctx.work_dir))
    commit_and_push ctx.work_dir ("Add deployment templates for " ++ c.name)
    update_git_status_with_patch w deployment_templates templates_pushed

  -- `tryToPushConfigs`
  unfoldable pub try_to_push_configs : Handler
  try_to_push_configs = do
    c ← gets (λ s. s.codebase)
    branch (c.status.git == templates_pushed) (pure tt) push_configs

  -- `PutDeployConfigs.ServeRequest`
  unfoldable pub put_deploy_configs : Handler
  put_deploy_configs = do
    c ← gets (λ s. s.codebase)
    branch (c.spec.disable_put_deploy_templates || not (c.spec.type_ == "application")) (pure tt) (
        wrapping ("failed to push deploy configs for " ++ c.name ++ " codebase")
          (failing_codebase w deployment_templates try_to_push_configs))

  -- `tryToPushGitLabCIConfig`
  unfoldable pub try_to_push_gitlab_ci_config : Handler
  try_to_push_gitlab_ci_config = do
    c ← gets (λ s. s.codebase)
    ctx ←
        wrapping "failed to prepare git repository"
          (failing_codebase w repository_provisioning (prepare_git_repository w c))
    wrapping "failed to inject GitLab CI config" (act w (inject_gitlab_ci_config c ctx.work_dir))
    commit_and_push ctx.work_dir "Add GitLab CI configuration"

  unfoldable pub push_gitlab_ci_config : Handler
  push_gitlab_ci_config = do
    c ← gets (λ s. s.codebase)
    wrapping ("failed to push GitLab CI config for " ++ c.name ++ " codebase")
        (failing_codebase w repository_provisioning try_to_push_gitlab_ci_config)
    update_git_status_with_patch w repository_provisioning gitlab_ci_pushed

  -- `gitlabCIAlreadyExists`
  unfoldable pub gitlab_ci_already_exists : State → Bool
  gitlab_ci_already_exists s = w.path_exists s.done (get_work_dir w s.codebase ++ "/.gitlab-ci.yml")

  -- `PutGitLabCIConfig.ServeRequest`
  unfoldable pub put_gitlab_ci_config : Handler
  put_gitlab_ci_config = do
    c ← gets (λ s. s.codebase)
    exists ← gets (gitlab_ci_already_exists)
    branch
        (not (c.spec.ci_tool == "gitlab")
          || c.status.git == gitlab_ci_pushed
          || c.status.git == templates_pushed
          || exists)
        (pure tt) push_gitlab_ci_config

-- ===== src/CodebaseChain/Controller/Protocol.antt =====
-- controllers/codebase: the chain as an implementation of the state machine of the git status.
use edp_codebase_operator.Prelude.{String, [], ◌∷◌, ◌≡◌, arith, refl}
use edp_codebase_operator.Api.Codebase.{Codebase, GitServer, Secret}
use edp_codebase_operator.CodebaseChain.{World, State}
use edp_codebase_operator.CodebaseChain.Status.{codebase_failed_fields}
use edp_codebase_operator.CodebaseChain.Repository.{GitRepositoryContext}
use edp_codebase_operator.CodebaseChain.Project.{put_project}
use edp_codebase_operator.CodebaseChain.Configs.{
  push_configs, try_to_push_configs, put_deploy_configs, try_to_push_gitlab_ci_config,
  push_gitlab_ci_config, put_gitlab_ci_config, add_gerrit_hooks, add_commit_hooks, commit_and_push,
}
use edp_codebase_operator.CodebaseChain.WebHooks.{
  put_git_web_repo_url, put_web_hook, put_tekton_web_hook, put_web_hook_at, create_missing_web_hook,
  get_web_hook_secret, get_token_secret, store_secret_string, has_web_hook,
}
use edp_codebase_operator.CodebaseChain.Cleaning.{clean_data, put_default_codebase_branch}
use edp_codebase_operator.CodebaseChain.Controller.{make_chain}
use edp_codebase_operator.CodebaseChain.Controller.Available.{
  default_branch-git, clean-git, prepare-git,
}
use edp_codebase_operator.CodebaseChain.Controller.Ledger.{
  ledger, enter_all, enter_action, may_add_gitlab_ci, may_add_templates, ledger-append,
  prepare-ledger, hooks-ledger, commit-ledger, secret-ledger, has_web_hook-ledger,
  default_branch-ledger, clean-ledger,
}
use edp_codebase_operator.CodebaseChain.Controller.Steps.{
  Sound, IsSound, serve-IsSound, success-IsSound, patch-Sound, url-IsSound,
}
use edp_codebase_operator.CodebaseChain.Controller.Provisioned.{project-IsSound}

module _ (w : World) (first : String) where
  secret-codebase :
      (namespace name : String) (s : State)
      → (get_web_hook_secret w namespace name s).1.codebase ≡ s.codebase
  unfolding get_web_hook_secret get_token_secret store_secret_string
  secret-codebase namespace name s = grind arith

  has_web_hook-codebase :
      (secret : Secret) (c : Codebase) (s : State)
      → (has_web_hook w secret c s).1.codebase ≡ s.codebase
  unfolding has_web_hook
  has_web_hook-codebase secret c s = grind arith

  create_web_hook-IsSound :
      (g : GitServer) (secret : Secret) (c : Codebase)
      → IsSound w first (create_missing_web_hook w g secret c)
  unfolding create_missing_web_hook codebase_failed_fields
  create_web_hook-IsSound g secret c s (a, b) =
      (grind (arith, success-IsSound), λ t h. grind (arith, success-IsSound))

  web_hook_at-IsSound : (g : GitServer) (c : Codebase) → IsSound w first (put_web_hook_at w g c)
  unfolding put_web_hook_at codebase_failed_fields
  web_hook_at-IsSound g c s (a, b) = (
    grind (
      arith, secret-codebase, secret-ledger, has_web_hook-codebase, has_web_hook-ledger,
      create_web_hook-IsSound,
    ),
    λ t h. grind (
      arith, secret-codebase, secret-ledger, has_web_hook-codebase, has_web_hook-ledger,
      create_web_hook-IsSound,
    ),
  )

  web_hook-IsSound : IsSound w first (put_web_hook w)
  unfolding put_web_hook put_tekton_web_hook codebase_failed_fields
  web_hook-IsSound s (a, b) =
      (grind (arith, web_hook_at-IsSound), λ t h. grind (arith, web_hook_at-IsSound))

  hooks-git :
      (ctx : GitRepositoryContext) (s : State) → (add_gerrit_hooks w ctx s).1.codebase ≡ s.codebase
  unfolding add_gerrit_hooks add_commit_hooks
  hooks-git ctx s = grind arith

  commit-git :
      (work_dir message : String) (s : State)
      → (commit_and_push w work_dir message s).1.codebase ≡ s.codebase
  unfolding commit_and_push
  commit-git work_dir message s = grind arith

  try_gitlab-ledger :
      (s : State) → ledger w first (try_to_push_gitlab_ci_config w s).1.done ≡ ledger w first s.done
  unfolding try_to_push_gitlab_ci_config enter_action
  try_gitlab-ledger s = grind (arith, prepare-ledger, commit-ledger, ledger-append)

  try_gitlab-git :
      (s : State) → (try_to_push_gitlab_ci_config w s).1.codebase.status.git ≡ s.codebase.status.git
  unfolding try_to_push_gitlab_ci_config codebase_failed_fields
  try_gitlab-git s = grind (arith, prepare-git, commit-git)

  gitlab-IsSound : IsSound w first (put_gitlab_ci_config w)
  unfolding put_gitlab_ci_config push_gitlab_ci_config codebase_failed_fields
  gitlab-IsSound s (a, b) = (
    grind (arith, try_gitlab-ledger, try_gitlab-git, patch-Sound, may_add_gitlab_ci),
    λ t h. grind (arith, try_gitlab-ledger, try_gitlab-git, patch-Sound, may_add_gitlab_ci),
  )

  push_configs-IsSound : IsSound w first (push_configs w)
  unfolding push_configs codebase_failed_fields enter_action
  push_configs-IsSound s (a, b) = (
    grind (
      arith, prepare-ledger, prepare-git, hooks-ledger, hooks-git, ledger-append, commit-ledger,
      commit-git, patch-Sound, may_add_templates,
    ),
    λ t h. grind (
      arith, prepare-ledger, prepare-git, hooks-ledger, hooks-git, ledger-append, commit-ledger,
      commit-git, patch-Sound, may_add_templates,
    ),
  )

  configs-IsSound : IsSound w first (put_deploy_configs w)
  unfolding put_deploy_configs try_to_push_configs codebase_failed_fields
  configs-IsSound s (a, b) =
      (grind (arith, push_configs-IsSound), λ t h. grind (arith, push_configs-IsSound))

  default_branch-IsSound : IsSound w first (put_default_codebase_branch w)
  default_branch-IsSound s (a, b) = (
    grind (arith, default_branch-ledger),
    λ t h. grind (arith, default_branch-ledger, default_branch-git),
  )

  clean-IsSound : IsSound w first (clean_data w)
  clean-IsSound s (a, b) =
      (grind (arith, clean-ledger), λ t h. grind (arith, clean-ledger, clean-git))

-- Over a run of the chain, every git status that the API server stores could follow the one stored
-- before: the intent to push only while the history is not in git, that it is pushed only after the
-- intent, and the files only in their order. Where the chain succeeds, the one in memory is stored.
pub chain-Sound :
    (w : World) (c : Codebase)
    → Sound w c.status.git (make_chain w (record { codebase = c; done = [] }))
unfolding make_chain ledger enter_all
chain-Sound w c =
    let first = c.status.git in
    serve-IsSound w first
      (put_git_web_repo_url w
        ∷ put_project w
        ∷ put_web_hook w
        ∷ put_gitlab_ci_config w
        ∷ put_deploy_configs w
        ∷ put_default_codebase_branch w
        ∷ clean_data w
        ∷ [])
      (
        url-IsSound w first,
        (
          project-IsSound w first,
          (
            web_hook-IsSound w first,
            (
              gitlab-IsSound w first,
              (
                configs-IsSound w first,
                (default_branch-IsSound w first, (clean-IsSound w first, tt)),
              ),
            ),
          ),
        ),
      )
      (record { codebase = c; done = [] }) (refl, refl)

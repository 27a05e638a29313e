-- ===== src/CodebaseChain/Controller/Failed.antt =====
-- controllers/codebase: what a failed chain leaves in the status of a codebase.
use mathlib.Core.List.{append_assoc}
use edp_codebase_operator.Prelude.{ℕ, String, false, [], ◌∷◌, ◌++◌, ◌≡◌, refl, arith, ◌+◌, ◌*◌}
use edp_codebase_operator.Effects.{Error, ok, err, for_each}
use edp_codebase_operator.Api.Codebase.{Codebase, GitServer, Secret}
use edp_codebase_operator.BranchController.{get_timeout, second}
use edp_codebase_operator.CodebaseChain.{World, State, update_codebase_status, remove_directory}
use edp_codebase_operator.CodebaseChain.Status.{
  set_codebase_success_fields, codebase_intermediate_fields, codebase_failed_fields,
  update_git_status_with_patch,
}
use edp_codebase_operator.CodebaseChain.Repository.{
  GitRepositoryContext, checkout_branch, checkout_by_strategy, checkout_clone, clone_missing,
  prepare_git_repository, get_work_dir,
}
use edp_codebase_operator.CodebaseChain.Project.{
  put_project, put_missing_project, adopt_or_provision, adopt_pushed_project, adopt_present,
  provision_and_push, create_project_in_git, push_absent,
}
use edp_codebase_operator.CodebaseChain.Project.Provision.{
  empty_project_provisioning, try_to_clone_repo, squash_commits, not_empty_project_provisioning,
  initial_project_provisioning, replace_default_branch, copy_branch, checkout_default,
  checkout_for_push,
}
use edp_codebase_operator.CodebaseChain.Project.Remote.{
  put_gerrit_project, put_third_party_project, put_remote_project, remote_default_branch_absent,
  push_project, set_third_party_default_branch, set_remote_default_branch,
}
use edp_codebase_operator.CodebaseChain.Configs.{
  add_commit_hooks, add_gerrit_hooks, commit_and_push, push_configs, try_to_push_configs,
  put_deploy_configs, try_to_push_gitlab_ci_config, push_gitlab_ci_config, put_gitlab_ci_config,
}
use edp_codebase_operator.CodebaseChain.WebHooks.{
  put_git_web_repo_url, get_token_secret, store_secret_string, get_web_hook_secret,
  create_missing_web_hook, has_web_hook, put_web_hook_at, put_tekton_web_hook, put_web_hook,
}
use edp_codebase_operator.CodebaseChain.Cleaning.{
  delete_clone_secret, clean, clean_data, put_default_codebase_branch,
}
use edp_codebase_operator.CodebaseChain.Controller.{
  serve_handlers, make_chain, set_codebase_failure_count, remove_directory_if_exists,
  after_codebase_chain, serve_codebase_chain,
}

-- The codebase is not available, and `n` failures have been counted.
abbrev pub IsDown : ℕ → State → Type 0
IsDown n s = (s.codebase.status.available ≡ false) × (s.codebase.status.failure_count ≡ n)

module _ (w : World) (n : ℕ) where
  url-IsDown :
      (s : State) → s.codebase.status.failure_count ≡ n → IsDown n (put_git_web_repo_url w s).1
  unfolding put_git_web_repo_url set_codebase_success_fields codebase_intermediate_fields
      codebase_failed_fields
  url-IsDown s h = (grind arith, grind arith)

  patch-IsDown :
      (action g : String) (s : State)
      → IsDown n s
      → IsDown n (update_git_status_with_patch w action g s).1
  unfolding update_git_status_with_patch codebase_failed_fields
  patch-IsDown action g s (a, h) = (grind arith, grind arith)

module _ (w : World) (ctx : GitRepositoryContext) (c : Codebase) where
  -- These change nothing of the codebase.
  checkout-codebase :
      (name : String) (s : State) → (checkout_branch w name ctx c s).1.codebase ≡ s.codebase
  unfolding checkout_branch checkout_by_strategy checkout_clone
  checkout-codebase name s = grind arith

  for_push-codebase : (s : State) → (checkout_for_push w ctx c s).1.codebase ≡ s.codebase
  unfolding checkout_for_push copy_branch checkout_default replace_default_branch
  for_push-codebase s = grind (arith, checkout-codebase)

  remote-codebase : (s : State) → (put_remote_project w ctx c s).1.codebase ≡ s.codebase
  unfolding put_remote_project put_gerrit_project put_third_party_project
  remote-codebase s = grind arith

  default-codebase : (s : State) → (set_remote_default_branch w ctx c s).1.codebase ≡ s.codebase
  unfolding set_remote_default_branch set_third_party_default_branch
  default-codebase s = grind arith

  absent-codebase : (s : State) → (remote_default_branch_absent w ctx c s).1.codebase ≡ s.codebase
  unfolding remote_default_branch_absent
  absent-codebase s = grind arith

  push-codebase : (s : State) → (push_project w ctx c s).1.codebase ≡ s.codebase
  unfolding push_project
  push-codebase s = grind arith

module _ (w : World) (ctx : GitRepositoryContext) (c : Codebase) (n : ℕ) where
  initial-IsDown : (s : State) → IsDown n s → IsDown n (initial_project_provisioning w ctx c s).1
  unfolding initial_project_provisioning empty_project_provisioning not_empty_project_provisioning
      try_to_clone_repo squash_commits codebase_failed_fields
  initial-IsDown s (a, h) = (grind arith, grind arith)

  create-IsDown : (s : State) → IsDown n s → IsDown n (create_project_in_git w ctx c s).1
  unfolding create_project_in_git push_absent
  create-IsDown s (a, h) = (
    grind (arith, remote-codebase, absent-codebase, push-codebase, default-codebase, patch-IsDown),
    grind (arith, remote-codebase, absent-codebase, push-codebase, default-codebase, patch-IsDown),
  )

  provision-IsDown : (s : State) → IsDown n s → IsDown n (provision_and_push w ctx c s).1
  unfolding provision_and_push codebase_failed_fields
  provision-IsDown s (a, h) = (
    grind (arith, initial-IsDown, for_push-codebase, create-IsDown, patch-IsDown),
    grind (arith, initial-IsDown, for_push-codebase, create-IsDown, patch-IsDown),
  )

  adopt-IsDown : (s : State) → IsDown n s → IsDown n (adopt_pushed_project w ctx c s).1
  unfolding adopt_pushed_project adopt_present
  adopt-IsDown s (a, h) = (
    grind (arith, absent-codebase, default-codebase, patch-IsDown),
    grind (arith, absent-codebase, default-codebase, patch-IsDown),
  )

  adopt_or_provision-IsDown : (s : State) → IsDown n s → IsDown n (adopt_or_provision w ctx c s).1
  unfolding adopt_or_provision codebase_failed_fields
  adopt_or_provision-IsDown s (a, h) =
      (grind (arith, adopt-IsDown, provision-IsDown), grind (arith, adopt-IsDown, provision-IsDown))

module _ (w : World) (n : ℕ) where
  intermediate-IsDown :
      (action : String) (s : State)
      → IsDown n s
      → IsDown n (set_codebase_success_fields w action s).1
  unfolding set_codebase_success_fields codebase_intermediate_fields
  intermediate-IsDown action s (a, h) = (grind arith, grind arith)

  project-IsDown : (s : State) → IsDown n s → IsDown n (put_project w s).1
  unfolding put_project put_missing_project codebase_failed_fields
  project-IsDown s (a, h) = (
    grind (arith, intermediate-IsDown, adopt_or_provision-IsDown),
    grind (arith, intermediate-IsDown, adopt_or_provision-IsDown),
  )

  secret-codebase :
      (namespace name : String) (s : State)
      → (get_web_hook_secret w namespace name s).1.codebase ≡ s.codebase
  unfolding get_web_hook_secret get_token_secret store_secret_string
  secret-codebase namespace name s = grind arith

  has_web_hook-codebase :
      (secret : Secret) (c : Codebase) (s : State)
      → (has_web_hook w secret c s).1.codebase ≡ s.codebase
  unfolding has_web_hook
  has_web_hook-codebase secret c s = grind arith

  create_web_hook-IsDown :
      (g : GitServer) (secret : Secret) (c : Codebase) (s : State)
      → IsDown n s
      → IsDown n (create_missing_web_hook w g secret c s).1
  unfolding create_missing_web_hook codebase_failed_fields
  create_web_hook-IsDown g secret c s (a, h) =
      (grind (arith, intermediate-IsDown), grind (arith, intermediate-IsDown))

  web_hook_at-IsDown :
      (g : GitServer) (c : Codebase) (s : State) → IsDown n s → IsDown n (put_web_hook_at w g c s).1
  unfolding put_web_hook_at codebase_failed_fields
  web_hook_at-IsDown g c s (a, h) = (
    grind (arith, secret-codebase, has_web_hook-codebase, create_web_hook-IsDown),
    grind (arith, secret-codebase, has_web_hook-codebase, create_web_hook-IsDown),
  )

  web_hook-IsDown : (s : State) → IsDown n s → IsDown n (put_web_hook w s).1
  unfolding put_web_hook put_tekton_web_hook codebase_failed_fields
  web_hook-IsDown s (a, h) = (grind (arith, web_hook_at-IsDown), grind (arith, web_hook_at-IsDown))

  prepare-codebase :
      (c : Codebase) (s : State) → (prepare_git_repository w c s).1.codebase ≡ s.codebase
  unfolding prepare_git_repository clone_missing
  prepare-codebase c s = grind (arith, checkout-codebase)

  gitlab-IsDown : (s : State) → IsDown n s → IsDown n (put_gitlab_ci_config w s).1
  unfolding put_gitlab_ci_config push_gitlab_ci_config try_to_push_gitlab_ci_config commit_and_push
      codebase_failed_fields
  gitlab-IsDown s (a, h) =
      (grind (arith, prepare-codebase, patch-IsDown), grind (arith, prepare-codebase, patch-IsDown))

  configs-IsDown : (s : State) → IsDown n s → IsDown n (put_deploy_configs w s).1
  unfolding put_deploy_configs try_to_push_configs push_configs add_gerrit_hooks add_commit_hooks
      commit_and_push codebase_failed_fields
  configs-IsDown s (a, h) =
      (grind (arith, prepare-codebase, patch-IsDown), grind (arith, prepare-codebase, patch-IsDown))

  default_branch-IsDown : (s : State) → IsDown n s → IsDown n (put_default_codebase_branch w s).1
  unfolding put_default_codebase_branch
  default_branch-IsDown s (a, h) = (grind arith, grind arith)

  clean-IsDown : (s : State) → IsDown n s → IsDown n (clean_data w s).1
  unfolding clean_data clean delete_clone_secret codebase_failed_fields
  clean-IsDown s (a, h) = (grind arith, grind arith)

  chain-IsDown : (s : State) → s.codebase.status.failure_count ≡ n → IsDown n (make_chain w s).1
  unfolding make_chain serve_handlers for_each
  chain-IsDown s h = (
    grind (
      arith, url-IsDown, project-IsDown, web_hook-IsDown, gitlab-IsDown, configs-IsDown,
      default_branch-IsDown, clean-IsDown,
    ),
    grind (
      arith, url-IsDown, project-IsDown, web_hook-IsDown, gitlab-IsDown, configs-IsDown,
      default_branch-IsDown, clean-IsDown,
    ),
  )

-- After an error of the chain of a codebase, the API server is asked to store its status, with one more
-- failure than before the run and as not available; then the work directory is removed. The next attempt
-- is after the delay for the failures before.
pub failed_chain_counted :
    (w : World) (hash : String → String) (scale_by_e : ℕ → ℕ → ℕ) (s : State) (e : Error)
    → (make_chain w s).0 ≡ err e
    → let failures = s.codebase.status.failure_count in
      let (r, after) = serve_codebase_chain w hash scale_by_e s in
      (r ≡ ok (get_timeout scale_by_e failures (10 * second)))
      × IsDown (failures + 1) after
      × (after.done
          ≡ (make_chain w s).1.done
            ++ update_codebase_status after.codebase
              ∷ remove_directory (get_work_dir w after.codebase)
              ∷ [])
unfolding serve_codebase_chain set_codebase_failure_count remove_directory_if_exists get_work_dir
failed_chain_counted w hash scale_by_e s e h =
    let (a, k) = chain-IsDown w s.codebase.status.failure_count s refl in
    (
      rw (h, after_codebase_chain, k) refl,
      (rw (h, after_codebase_chain) a, rw (h, after_codebase_chain, k) refl),
      rw (h, after_codebase_chain) (append_assoc (make_chain w s).1.done _ _),
    )

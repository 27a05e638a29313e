-- ===== src/CodebaseChain/Controller/Available.antt =====
-- controllers/codebase: what the chain leaves in the status of a codebase.
use edp_codebase_operator.Prelude.{
  String, [], ◌∷◌, Bool, true, not, ◌||◌, ◌≡◌, refl, eq_iff, arith, contains, any, Bool-cases, inl,
  inr, ◌⊎◌,
}
use edp_codebase_operator.Effects.{ok, branch, for_each}
use edp_codebase_operator.Api.Codebase.{Codebase}
use edp_codebase_operator.CodebaseChain.{World, State}
use edp_codebase_operator.CodebaseChain.Status.{
  set_codebase_success_fields, codebase_intermediate_fields, codebase_failed_fields,
  update_git_status_with_patch,
}
use edp_codebase_operator.CodebaseChain.Repository.{
  checkout_branch, checkout_by_strategy, checkout_clone, clone_missing, prepare_git_repository,
}
use edp_codebase_operator.CodebaseChain.Project.{put_project, skip_put_project, put_missing_project}
use edp_codebase_operator.CodebaseChain.Project.Adopted.{put_missing-git}
use edp_codebase_operator.CodebaseChain.Configs.{
  push_configs, try_to_push_configs, put_deploy_configs, push_gitlab_ci_config,
  put_gitlab_ci_config, templates_pushed, gitlab_ci_pushed,
}
use edp_codebase_operator.CodebaseChain.WebHooks.{
  put_git_web_repo_url, get_token_secret, store_secret_string, get_web_hook_secret,
  create_missing_web_hook, has_web_hook, put_web_hook_at, put_tekton_web_hook, put_web_hook,
}
use edp_codebase_operator.CodebaseChain.Cleaning.{
  delete_clone_secret, clean, clean_data, put_default_codebase_branch,
}
use edp_codebase_operator.CodebaseChain.Controller.{
  serve_handlers, make_chain, finish_status, update_finish_status,
}

-- The statuses with which the history of a codebase is in git.
unfoldable pub is_in_git : String → Bool
is_in_git git = contains ("pushed" ∷ "gitlab_ci_pushed" ∷ "templates_pushed" ∷ []) git

abbrev pub is_pushed : State → Bool
is_pushed s = is_in_git s.codebase.status.git

abbrev pub is_provisioned : Codebase → Bool
is_provisioned c = contains ("clone" ∷ "create" ∷ []) c.spec.strategy

module _ (w : World) where
  url-keeps :
      (s : State)
      → let after = (put_git_web_repo_url w s).1 in after.codebase.spec ≡ s.codebase.spec
  unfolding put_git_web_repo_url set_codebase_success_fields
  url-keeps s = grind arith

  project-pushed :
      (s : State)
      → is_provisioned s.codebase ≡ true
      → (put_project w s).0 ≡ ok tt
      → is_pushed (put_project w s).1 ≡ true
  unfolding put_project skip_put_project is_in_git contains any
  project-pushed s p h = elim (Bool-cases (skip_put_project s.codebase)) [
    | inl e ↦ rw (e, branch) (rw (p, not, ◌||◌) at e)
    | inr e ↦
        let q : (put_missing_project w s).0 ≡ ok tt = rw (e, branch) at h in
        rw (e, branch, put_missing-git w s q) refl
  ]

  pub web_hook-git : (s : State) → (put_web_hook w s).1.codebase.status.git ≡ s.codebase.status.git
  unfolding put_web_hook put_tekton_web_hook put_web_hook_at create_missing_web_hook has_web_hook
      get_web_hook_secret get_token_secret store_secret_string set_codebase_success_fields
      codebase_intermediate_fields codebase_failed_fields
  web_hook-git s = grind arith

  pub prepare-git :
      (c : Codebase) (s : State)
      → (prepare_git_repository w c s).1.codebase.status.git ≡ s.codebase.status.git
  unfolding prepare_git_repository clone_missing checkout_branch checkout_by_strategy checkout_clone
  prepare-git c s = grind arith

  patch-pushed :
      (action g : String) (s : State)
      → (update_git_status_with_patch w action g s).0 ≡ ok tt
      → (update_git_status_with_patch w action g s).1.codebase.status.git ≡ g
  unfolding update_git_status_with_patch
  patch-pushed action g s h = grind (arith, eq_iff s.codebase.status.git g)

  gitlab-git :
      (s : State)
      → (put_gitlab_ci_config w s).0 ≡ ok tt
      → ((put_gitlab_ci_config w s).1.codebase.status.git ≡ s.codebase.status.git)
        ⊎ ((put_gitlab_ci_config w s).1.codebase.status.git ≡ gitlab_ci_pushed)
  unfolding put_gitlab_ci_config push_gitlab_ci_config
  gitlab-git s h = grind (arith, patch-pushed)

  configs-git :
      (s : State)
      → (put_deploy_configs w s).0 ≡ ok tt
      → ((put_deploy_configs w s).1.codebase.status.git ≡ s.codebase.status.git)
        ⊎ ((put_deploy_configs w s).1.codebase.status.git ≡ templates_pushed)
  unfolding put_deploy_configs try_to_push_configs push_configs
  configs-git s h = grind (arith, patch-pushed)

  pub default_branch-git :
      (s : State) → (put_default_codebase_branch w s).1.codebase.status.git ≡ s.codebase.status.git
  unfolding put_default_codebase_branch
  default_branch-git s = grind arith

  pub clean-git : (s : State) → (clean_data w s).1.codebase.status.git ≡ s.codebase.status.git
  unfolding clean_data clean delete_clone_secret codebase_failed_fields
  clean-git s = grind arith

  gitlab-pushed :
      (s : State)
      → is_pushed s ≡ true
      → (put_gitlab_ci_config w s).0 ≡ ok tt
      → is_pushed (put_gitlab_ci_config w s).1 ≡ true
  unfolding is_in_git contains any
  gitlab-pushed s p h = elim (gitlab-git s h) [ inl e ↦ rw e p | inr e ↦ rw e refl ]

  configs-pushed :
      (s : State)
      → is_pushed s ≡ true
      → (put_deploy_configs w s).0 ≡ ok tt
      → is_pushed (put_deploy_configs w s).1 ≡ true
  unfolding is_in_git contains any
  configs-pushed s p h = elim (configs-git s h) [ inl e ↦ rw e p | inr e ↦ rw e refl ]

  -- Where the chain succeeds for a codebase that is cloned or created, its history is in git.
  chain-pushed :
      (s : State)
      → is_provisioned s.codebase ≡ true
      → (make_chain w s).0 ≡ ok tt
      → is_pushed (make_chain w s).1 ≡ true
  unfolding make_chain serve_handlers for_each
  chain-pushed s p h = grind (
    arith, url-keeps, project-pushed, web_hook-git, gitlab-pushed, configs-pushed,
    default_branch-git, clean-git,
  )

  pub available_means_pushed :
      (s : State)
      → is_provisioned s.codebase ≡ true
      → (make_chain w s).0 ≡ ok tt
      → let after = (update_finish_status w (make_chain w s).1).1.codebase in
        (after.status.available ≡ true) × (is_in_git after.status.git ≡ true)
  unfolding update_finish_status finish_status
  available_means_pushed s p h = (refl, chain-pushed s p h)

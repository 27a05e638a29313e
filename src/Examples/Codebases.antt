-- ===== src/Examples/Codebases.antt =====
-- The theorems on the chain of a codebase at one codebase that is created or cloned.
use edp_codebase_operator.Prelude.{
  String, true, false, [], ◌∷◌, some, lookup, contains, any, ◌≡◌, ◌≢◌, refl, ◌*◌, get_or_empty, ℕ,
  ◌++◌,
}
use edp_codebase_operator.Effects.{
  Error, new, api, not_found, sentinel, is, reference_not_found, Result, ok, err, for_each,
  is_not_found,
}
use edp_codebase_operator.Api.Codebase.{Codebase}
use edp_codebase_operator.BranchController.{get_timeout, second}
use edp_codebase_operator.Webhook.Validation.{cut_suffix, trim_git}
use edp_codebase_operator.Webhook.Codebases.{trim_git_from_url}
use edp_codebase_operator.CodebaseChain.{
  World, State, Action, resolve_remote_reference, update_codebase_status, remove_directory,
}
use edp_codebase_operator.CodebaseChain.Status.{
  codebase_intermediate_fields, set_codebase_success_fields, update_git_status_with_patch,
}
use edp_codebase_operator.CodebaseChain.Repository.{
  get_work_dir, get_repo_url_for_clone, get_repository_credentials_if_exists,
  get_git_repository_context, checkout_branch,
}
use edp_codebase_operator.CodebaseChain.Project.{
  skip_put_project, push_absent, create_project_in_git, adopt_pushed_project, provision_and_push,
  adopt_or_provision, put_missing_project, put_project,
}
use edp_codebase_operator.CodebaseChain.Project.Provision.{
  empty_project_provisioning, try_to_clone_repo, squash_commits, not_empty_project_provisioning,
  initial_project_provisioning, checkout_default, checkout_for_push,
}
use edp_codebase_operator.CodebaseChain.Project.Remote.{
  put_gerrit_project, put_remote_project, remote_default_branch_absent, push_project,
  set_remote_default_branch,
}
use edp_codebase_operator.CodebaseChain.Project.Watch.{known}
use edp_codebase_operator.CodebaseChain.Project.Runs.{Runs, runs_guarded}
use edp_codebase_operator.CodebaseChain.Project.Adopted.{
  push_count, project_put_once, interrupted_push_adopted,
}
use edp_codebase_operator.CodebaseChain.Modifier.{
  count_git, add_git_to_url, trim_codebase_git_suffix, with_git_suffix, add_codebase_git_suffix,
  apply_modifiers, apply,
}
use edp_codebase_operator.CodebaseChain.Modifier.Settled.{
  trim-add_git, modifier_settles, modifier_never_settles,
}
use edp_codebase_operator.CodebaseChain.Configs.{
  put_deploy_configs, put_gitlab_ci_config, gitlab_ci_already_exists,
}
use edp_codebase_operator.CodebaseChain.WebHooks.{
  is_web_provider, get_git_web_url, put_git_web_repo_url, put_web_hook,
}
use edp_codebase_operator.CodebaseChain.Cleaning.{
  delete_clone_secret, clean, clean_data, put_default_codebase_branch,
}
use edp_codebase_operator.CodebaseChain.Controller.{
  serve_handlers, make_chain, update_finish_status, serve_codebase_chain,
}
use edp_codebase_operator.CodebaseChain.Controller.Available.{is_in_git, available_means_pushed}
use edp_codebase_operator.CodebaseChain.Controller.Steps.{Sound}
use edp_codebase_operator.CodebaseChain.Controller.Protocol.{chain-Sound}
use edp_codebase_operator.CodebaseChain.Controller.Failed.{IsDown, failed_chain_counted}
use edp_codebase_operator.Examples.{codebase_of}
use edp_codebase_operator.Examples.Chains.{git_server}

abbrev created : Codebase
created = record (codebase_of "app" "/org/app" [] []) {
  spec = record ((codebase_of "app" "/org/app" [] []).spec) { strategy = "create" };
}

abbrev interrupted : Codebase
interrupted = record created { status = record (created.status) { git = "push_in_progress" } }

abbrev cloned : String → Codebase
cloned url = record created {
  spec = record (created.spec) { strategy = "clone"; repository = some url };
}

-- Every action succeeds, but the remote repository does not have the branches it is asked for.
abbrev absent_answer : Action → Result Unit
absent_answer (resolve_remote_reference url reference) =
    err (sentinel reference_not_found "reference not found")
absent_answer _ = ok tt

abbrev world_of : (Action → Result Unit) → World
world_of answers = record {
  now = 7;
  decimal = λ _. "22";
  working_dir = "/home";
  assets_dir = ok "/assets";
  answer = λ _ a. answers a;
  get_git_server = λ _ _. ok git_server;
  get_secret =
      λ _ _. ok (record { contents = ("token", "t") ∷ ("username", "u") ∷ ("password", "p") ∷ [] });
  get_quick_link = λ _ _. ok "https://gerrit";
  get_codebase_branch = λ _ _. err (api not_found "not found");
  path_exists = λ _ _. false;
  is_directory_empty = λ _ _. true;
  current_branch = λ _ _. ok "main";
  new_git_provider = λ _ _. ok tt;
  project_exists = λ _ _ _. ok false;
  gerrit_project_exists = λ _ _. ok false;
  random_string = ok "random";
  is_k8s = true;
  is_envoy = false;
  get_ingress = λ _ _. ok ("host" ∷ []);
  get_http_route = λ _ _. ok ("host" ∷ []);
  get_route = λ _ _. ok ("host" ∷ []);
  create_web_hook = λ _ _ _ _ _ _. ok "1";
}

abbrev fresh_world : World
fresh_world = world_of absent_answer

abbrev pushed_world : World
pushed_world = world_of (λ _. ok tt)

abbrev start : Codebase → State
start c = record { codebase = c; done = [] }

-- Two runs, of which the second finds that a push was in progress.
runs_guarded_example :
    let first = (put_project fresh_world (start created)).1.done in
    (known fresh_world "main"
      (put_project fresh_world (record { codebase = interrupted; done = first })).1.done).guarded
    ≡ true
runs_guarded_example =
    let first = (put_project fresh_world (start created)).1.done in
    runs_guarded fresh_world "main"
      (put_project fresh_world (record { codebase = interrupted; done = first })).1.done
      (Runs.next_run interrupted refl (Runs.next_run created refl Runs.first))

project_put_once_example :
    let after = (put_project fresh_world (start created)).1 in
    put_project fresh_world after ≡ (ok tt, after)
unfolding put_project skip_put_project contains any put_missing_project set_codebase_success_fields
    get_git_repository_context adopt_or_provision adopt_pushed_project provision_and_push
    initial_project_provisioning empty_project_provisioning not_empty_project_provisioning
    get_repo_url_for_clone get_repository_credentials_if_exists lookup get_or_empty
    try_to_clone_repo squash_commits checkout_for_push checkout_default checkout_branch
    create_project_in_git put_remote_project put_gerrit_project remote_default_branch_absent is
    push_absent update_git_status_with_patch push_project set_remote_default_branch
    codebase_intermediate_fields
project_put_once_example = project_put_once fresh_world (start created) refl

interrupted_push_adopted_example :
    push_count (put_project pushed_world (start interrupted)).1.done ≡ push_count []
interrupted_push_adopted_example =
    interrupted_push_adopted pushed_world (λ before url reference. refl) (start interrupted) refl

trim-add_git_example : trim_git_from_url (add_git_to_url "https://h/a") ≡ "https://h/a"
unfolding cut_suffix
trim-add_git_example = trim-add_git "https://h/a" refl

modifier_settles_example :
    let after = (apply fresh_world (start (cloned "https://h/a"))).1 in
    apply fresh_world after ≡ (ok false, after)
unfolding apply apply_modifiers trim_codebase_git_suffix add_codebase_git_suffix with_git_suffix
    add_git_to_url trim_git_from_url trim_git cut_suffix count_git
modifier_settles_example =
    modifier_settles fresh_world (start (cloned "https://h/a")) "https://h/a" refl refl refl

modifier_never_settles_example :
    let s = start (cloned "https://h/a.github.io.git") in
    ((apply fresh_world s).0 ≢ ok false)
    × ((apply fresh_world s).1.codebase.spec.repository ≡ some "https://h/a.github.io.git")
unfolding cut_suffix count_git
modifier_never_settles_example =
    modifier_never_settles fresh_world (start (cloned "https://h/a.github.io.git"))
      "https://h/a.github.io" refl refl refl refl

-- A library that has been pushed, and whose pipelines the operator does not set up.
abbrev kept : Codebase
kept = record created {
  spec = record (created.spec) { ci_tool = "other"; type_ = "library" };
  status = record (created.status) { git = "pushed" };
}

available_means_pushed_example :
    let after =
      (update_finish_status fresh_world (make_chain fresh_world (start kept)).1).1.codebase in
    (after.status.available ≡ true) × (is_in_git after.status.git ≡ true)
unfolding contains any make_chain serve_handlers for_each put_git_web_repo_url get_git_web_url
    is_web_provider set_codebase_success_fields codebase_intermediate_fields put_project
    skip_put_project put_web_hook put_gitlab_ci_config gitlab_ci_already_exists put_deploy_configs
    put_default_codebase_branch is_not_found clean_data clean delete_clone_secret
available_means_pushed_example = available_means_pushed fresh_world (start kept) refl refl

-- A world without the git server of the codebase, which stores what it is asked to.
abbrev serverless_world : World
serverless_world = record fresh_world { get_git_server = λ _ _. err (new "no git server") }

abbrev error_of : Result Unit → Error
error_of (ok done) = new ""
error_of (err e) = e

abbrev scale : ℕ → ℕ → ℕ
scale base n = base * n

failed_chain_counted_example :
    let w = serverless_world in
    let (r, after) = serve_codebase_chain w (λ t. t) scale (start created) in
    (r ≡ ok (get_timeout scale 0 (10 * second)))
    × IsDown 1 after
    × (after.done
        ≡ (make_chain w (start created)).1.done
          ++ update_codebase_status after.codebase
            ∷ remove_directory (get_work_dir w after.codebase)
            ∷ [])
unfolding make_chain serve_handlers for_each put_git_web_repo_url
failed_chain_counted_example =
    failed_chain_counted serverless_world (λ t. t) scale (start created)
      (error_of (make_chain serverless_world (start created)).0) refl

chain-Sound_example : Sound fresh_world "" (make_chain fresh_world (start created))
chain-Sound_example = chain-Sound fresh_world created

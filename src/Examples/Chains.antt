-- ===== src/Examples/Chains.antt =====
-- The theorems on the chain of a branch at one new branch.
use edp_codebase_operator.Prelude.{
  false, [], ◌∷◌, some, Memᴰ, lookup, contains, any, ◌≡◌, ◌≢◌, ◌⊎◌, refl,
}
use edp_codebase_operator.Effects.{ok}
use edp_codebase_operator.Api.Codebase.{Codebase, CodebaseBranch, GitServer, branch_created}
use edp_codebase_operator.ImageStream.{get_codebase_image_stream_by_codebase_base_branch_name}
use edp_codebase_operator.BranchChain.{BranchClient, State}
use edp_codebase_operator.BranchChain.Git.{serve_check_reference, serve_put_branch, put_branch}
use edp_codebase_operator.BranchChain.Versions.{
  serve_new_version, process_new_version, has_new_version,
}
use edp_codebase_operator.BranchChain.Versions.Once.{version_started_once}
use edp_codebase_operator.BranchChain.ImageStreams.{
  serve_image_stream_of_branch, create_codebase_image_stream_if_not_exists,
  get_codebase_image_stream, label_existing,
}
use edp_codebase_operator.BranchChain.Chain.{get_chain}
use edp_codebase_operator.BranchChain.Chain.Failures.{stream_handler_resets_failures}
use edp_codebase_operator.BranchChain.Chain.Answered.{IsCreated, success_means_asked}
use edp_codebase_operator.BranchChain.Chain.Requested.{asks_git, HasCodebase, asked_only_when_new}
use edp_codebase_operator.Examples.{meta_of, codebase_of, branch_of, app_stream}

abbrev pub git_server : GitServer
git_server = record {
  meta = meta_of "gerrit" [] [] 1;
  spec = record {
    git_host = "host";
    git_user = "git";
    git_provider = "gerrit";
    ssh_port = 22;
    name_ssh_key_secret = "key";
    webhook_url = "";
    skip_webhook_ssl_verification = false;
    tekton_disabled = false;
  };
  status = record { error = ""; connected = false; status = "" };
}

abbrev pub app : Codebase
app = record (codebase_of "app" "/org/app" [] []) {
  spec = record ((codebase_of "app" "/org/app" [] []).spec) {
    versioning = record { type_ = "semver"; start_from = some "1.0" };
  };
}

abbrev pub client : BranchClient
client = record {
  now = 7;
  decimal = λ _. "22";
  get_codebase = λ _ _. ok app;
  get_git_server = λ _ _. ok git_server;
  get_secret = λ _ _. ok (record { contents = [] });
  resolve_remote_reference = λ _ _ _ _. ok tt;
  create_remote_branch = λ _ _ _ _ _. ok tt;
  update_status = λ _. ok tt;
  update = λ _. ok tt;
  list_image_streams = λ _ _. ok (app_stream ∷ []);
  get_image_stream = λ _ _. ok app_stream;
  get_config_map = λ _ _. ok [];
  set_controller_reference = λ _ cis. ok cis;
  create_image_stream = λ _. ok tt;
  patch_image_stream = λ _. ok tt;
}

-- A branch that git does not have yet, with its first version.
abbrev pub fresh : CodebaseBranch
fresh = record (branch_of "app" "feature") {
  spec = record ((branch_of "app" "feature").spec) { version = some "1.0" };
  status = record ((branch_of "app" "feature").status) { git = "" };
}

abbrev start : State
start = record { branch = fresh; sent = [] }

success_means_asked_example :
    let after = (get_chain client start).1 in
    (after.branch.status.git ≡ branch_created)
    × ((fresh.status.git ≡ branch_created) ⊎ IsCreated client "feature" after.sent)
unfolding get_chain serve_check_reference serve_put_branch put_branch serve_new_version
    process_new_version has_new_version contains any serve_image_stream_of_branch
    create_codebase_image_stream_if_not_exists get_codebase_image_stream label_existing lookup
    get_codebase_image_stream_by_codebase_base_branch_name
success_means_asked_example = success_means_asked client fresh refl

asked_only_when_new_example : (fresh.status.git ≢ branch_created) × HasCodebase client fresh
unfolding get_chain serve_check_reference serve_put_branch put_branch serve_new_version
    process_new_version has_new_version contains any serve_image_stream_of_branch
    create_codebase_image_stream_if_not_exists get_codebase_image_stream label_existing lookup
    get_codebase_image_stream_by_codebase_base_branch_name asks_git
asked_only_when_new_example = asked_only_when_new client fresh refl

version_started_once_example :
    let after = (process_new_version client app start).1 in
    Memᴰ "1.0" after.branch.status.version_history
    × (process_new_version client app after ≡ (ok tt, after))
unfolding process_new_version has_new_version contains any
version_started_once_example = version_started_once client app "1.0" start refl refl refl

stream_handler_resets_failures_example :
    (serve_image_stream_of_branch client start).1.branch.status.failure_count ≡ 0
stream_handler_resets_failures_example = stream_handler_resets_failures client start

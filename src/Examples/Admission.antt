-- ===== src/Examples/Admission.antt =====
-- The theorems on the webhooks and on the URLs at small resources.
use edp_codebase_operator.Prelude.{
  String, List, [], ◌∷◌, true, false, none, some, Memᴰ, lookup, contains, any, select, get_or_empty,
  ◌≡◌, ◌≢◌, refl, arith, ◌⊎◌, string_key, append_at, values_at,
}
use edp_codebase_operator.Effects.{Error, ok, err, is_not_found}
use edp_codebase_operator.Api.Codebase.{Codebase, CodebaseBranch}
use edp_codebase_operator.PipelineApi.{CdPipeline}
use edp_codebase_operator.DeploymentUsage.{
  UsageClient, AutotestGate, list_active_cd_pipelines, list_active_stages, list_where,
  find_autotest_gates, all_gates, stage_gates,
}
use edp_codebase_operator.DeploymentUsage.Branches.{
  new_branch_usage_index, find, find_branch_usage, add_pipelines, add_streams, add_gates,
}
use edp_codebase_operator.DeploymentUsage.Codebases.{
  find_codebase_usage, list_branch_names, pipeline_refs, match_pipeline, match_streams,
}
use edp_codebase_operator.DeploymentUsage.Codebases.Exact.{Uses, unused-codebase}
use edp_codebase_operator.Webhook.{
  codebase, codebase_branch, AdmissionRequest, split_dashes, has_protected_label, check_on_delete,
  WebhookClient,
}
use edp_codebase_operator.Webhook.Validation.{
  fold_case, equal_fold, contain_settings, contains_pair, cut_suffix, trim_git,
  validate_codebase_name, is_codebase_valid,
}
use edp_codebase_operator.Webhook.Validation.Urls.{trim_git_ends}
use edp_codebase_operator.Webhook.Codebases.{
  trim_git_from_url, deny_duplicate, create_codebase, validate_codebase_create, delete_codebase,
  validate_codebase_delete, list_limit,
}
use edp_codebase_operator.Webhook.Branches.{delete_branch, validate_branch_delete}
use edp_codebase_operator.Webhook.Admission.{
  protections, admitted_codebase_delete_is_unused, admitted_branch_delete_is_unused,
  admitted_codebase_is_new,
}
use edp_codebase_operator.Examples.{codebase_of, branch_of, pipeline_of, dev_stage}

abbrev usage : UsageClient
usage = record {
  list_cd_pipelines = λ _. ok (pipeline_of ("app" ∷ []) ("app-main" ∷ []) ∷ []);
  list_stages = λ _. ok (dev_stage ∷ []);
  list_branches = λ _ _. ok [];
}

abbrev library : Codebase
library =
    codebase_of "lib" "/org/lib.git.git" (("app.edp.epam.com/edit-protection", "update") ∷ []) []

abbrev library_branch : CodebaseBranch
library_branch = branch_of "lib" "main"

abbrev client : WebhookClient
client = record {
  list_codebases = λ _ _. ok (codebase_of "app" "/org/app" [] [] ∷ []);
  list_codebase_branches = λ _ _ _. ok [];
  get_codebase = λ _ _. ok library;
  usage = usage;
}

abbrev request : AdmissionRequest
request = record { name = "lib"; namespace = "ns" }

unused-codebase_example :
    (pipelines : List CdPipeline) × (branch_names : List String) × (gates : List AutotestGate)
    × (list_active_cd_pipelines usage "ns" ≡ ok pipelines)
    × (list_branch_names usage library ≡ ok branch_names)
    × (find_autotest_gates usage "ns" ≡ ok gates)
    × ((p : CdPipeline) → Memᴰ p pipelines → ¬ Uses "lib" branch_names p)
    × ((g : AutotestGate) → Memᴰ g gates → g.autotest_name ≢ "lib")
unfolding find_codebase_usage list_active_cd_pipelines list_active_stages list_where select
    list_branch_names find_autotest_gates all_gates stage_gates pipeline_refs match_pipeline
    match_streams contains any
unused-codebase_example = unused-codebase usage library refl

admitted_codebase_delete_is_unused_example :
    ¬ Memᴰ "delete" (protections (codebase library))
    × (pipelines : List CdPipeline) × (branch_names : List String) × (gates : List AutotestGate)
    × (list_active_cd_pipelines usage "ns" ≡ ok pipelines)
    × (list_branch_names usage library ≡ ok branch_names)
    × (find_autotest_gates usage "ns" ≡ ok gates)
    × ((p : CdPipeline) → Memᴰ p pipelines → ¬ Uses "lib" branch_names p)
    × ((g : AutotestGate) → Memᴰ g gates → g.autotest_name ≢ "lib")
unfolding validate_codebase_delete delete_codebase check_on_delete has_protected_label split_dashes
    get_or_empty lookup find_codebase_usage list_active_cd_pipelines list_active_stages list_where
    select list_branch_names find_autotest_gates all_gates stage_gates pipeline_refs match_pipeline
    match_streams contains any
admitted_codebase_delete_is_unused_example =
    admitted_codebase_delete_is_unused client request library refl

admitted_branch_delete_is_unused_example :
    ¬ Memᴰ "delete" (protections (codebase_branch library_branch))
    × (((e : Error) × (client.get_codebase "ns" "lib" ≡ err e) × (is_not_found e ≡ true))
        ⊎ ((c : Codebase) × (client.get_codebase "ns" "lib" ≡ ok c) × (c.deletion_timestamp ≢ none))
        ⊎ (find_branch_usage usage library_branch ≡ ok []))
unfolding validate_branch_delete delete_branch check_on_delete has_protected_label split_dashes
    get_or_empty lookup find_branch_usage new_branch_usage_index list_active_cd_pipelines
    list_active_stages list_where select find_autotest_gates all_gates stage_gates add_pipelines
    add_streams add_gates find values_at append_at contains any
admitted_branch_delete_is_unused_example =
    admitted_branch_delete_is_unused client library_branch refl

admitted_codebase_is_new_example :
    let url = trim_git_from_url "/org/lib.git.git" in
    (contains_pair "lib" "--" ≡ false)
    × (url ≢ "")
    × (cut_suffix ".git" url ≡ none)
    × (cs : List Codebase) × (client.list_codebases "ns" list_limit ≡ ok cs)
    × ((d : Codebase) → Memᴰ d cs → d.spec.git_url_path ≢ url)
unfolding validate_codebase_create create_codebase validate_codebase_name contains_pair
    is_codebase_valid contain_settings equal_fold fold_case any cut_suffix trim_git_from_url
    trim_git deny_duplicate
admitted_codebase_is_new_example = admitted_codebase_is_new client request library refl

trim_git_ends_example : (r : String) × (trim_git 8 "a.git" ≡ some r) × (cut_suffix ".git" r ≡ none)
trim_git_ends_example = trim_git_ends 8 "a.git" (ground arith)

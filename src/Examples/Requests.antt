-- ===== src/Examples/Requests.antt =====
-- The theorems on the creation of deployments at one image stream.
use edp_codebase_operator.Prelude.{
  ℕ, String, [], ◌∷◌, Option, none, some, Memᴰ, refl, ◌==◌, if◌then◌else◌, true,
}
use edp_codebase_operator.Effects.{ok, for_each}
use edp_codebase_operator.Api.{CdStageDeploy, CodebaseImageStream}
use edp_codebase_operator.PipelineApi.{PipelinePackage}
use edp_codebase_operator.ImageStream.{get_last_tag, last_tag_loop}
use edp_codebase_operator.StreamDeploy.{
  StreamClient, stage_deploy_of, get_create_command, skip_cd_stage_deploy_creation, create,
  create_unless_skipped, put_cd_stage_deploy, put_label, handle_env_labels, validate_cbis,
  serve_image_stream,
}
use edp_codebase_operator.StreamDeploy.Labels.{
  is_env_char, all_env_chars, is_env_name, split_slash, env_of, replace_slashes,
}
use edp_codebase_operator.StreamDeploy.Created.{IsRequested, created_on_request}
use edp_codebase_operator.Examples.{meta_of, app_stream, dev_stage, tag_of_app}

abbrev package_ : PipelinePackage
package_ = record {
  trigger_type_auto_stable = "Auto-stable";
  is_auto_deploy_trigger_type = λ _. true;
}

abbrev parse_time : String → Option ℕ
parse_time s = if s == "1" then some 1 else if s == "2" then some 2 else none

abbrev created : CdStageDeploy
created = stage_deploy_of (record {
  name = "pipe-dev";
  namespace = "ns";
  pipeline = "pipe";
  stage = "dev";
  trigger_type = "Auto-stable";
  tag = tag_of_app;
})

-- The stage has one deployment already.
abbrev client : StreamClient
client = record {
  get_image_stream = λ _ _. ok app_stream;
  get_stage = λ _ _. ok dev_stage;
  list_cd_stage_deploys = λ _ _ _. ok (created ∷ []);
  set_controller_reference = λ _ d. ok d;
  create = λ _. ok tt;
}

abbrev labelled : CodebaseImageStream
labelled = record app_stream {
  meta = meta_of "app-main" (("owner", "team") ∷ ("pipe/dev", "") ∷ []) [] 1;
}

created_on_request_example :
    (label : String) × Memᴰ (label, "") labelled.labels
    × IsRequested package_ parse_time client label "ns" labelled.spec created
unfolding serve_image_stream handle_env_labels for_each put_label put_cd_stage_deploy
    create_unless_skipped create get_create_command skip_cd_stage_deploy_creation validate_cbis
    env_of split_slash is_env_name all_env_chars is_env_char replace_slashes get_last_tag
    last_tag_loop
created_on_request_example =
    created_on_request package_ parse_time client labelled created (Memᴰ.head refl)

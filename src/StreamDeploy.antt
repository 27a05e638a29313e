-- ===== src/StreamDeploy.antt =====
-- controllers/codebaseimagestream: an image stream with a new tag creates the CDStageDeploys of the
-- stages that its labels name.
pub mod Labels
pub mod Created
use Prim.Native.String.{◌++◌}
use edp_codebase_operator.Prelude.{
  ℕ, String, List, [], ◌∷◌, ◌++◌ as append, Bool, true, false, not, ◌&&◌, Option, none, some,
  length, is_empty, ltb, Dict, ◌==◌, if◌then◌else◌,
}
use edp_codebase_operator.Effects.{
  Result, ok, err, new, wrap, is_not_found, or_wrap, and_then, Exec, pure, fail, lift, wrapping,
  branch, continue, ◌>>=◌, ◌>>◌, for_each,
}
use edp_codebase_operator.Api.{
  ObjectMeta, Tag, CodebaseTag, CdStageDeploy, pending, CodebaseImageStream,
  CodebaseImageStreamSpec, dashed, get_stage_cr_name, cd_pipeline_label, cd_stage_label,
}
use edp_codebase_operator.PipelineApi.{Stage, PipelinePackage}
use edp_codebase_operator.ImageStream.{get_last_tag}
use edp_codebase_operator.StreamDeploy.Labels.{env_of, replace_slashes}

-- The calls of the API server; `set_controller_reference` is the one of controller-runtime.
pub record StreamClient : Type 0 where
  pub get_image_stream : (namespace name : String) → Result CodebaseImageStream
  pub get_stage : (namespace name : String) → Result Stage
  pub list_cd_stage_deploys : (namespace pipeline stage : String) → Result (List CdStageDeploy)
  pub set_controller_reference : Stage → CdStageDeploy → Result CdStageDeploy
  pub create : CdStageDeploy → Result Unit

-- `cdStageDeployCommand`
pub record DeployCommand : Type 0 where
  pub name : String
  pub namespace : String
  pub pipeline : String
  pub stage : String
  pub trigger_type : String
  pub tag : CodebaseTag

-- The resources that were sent to be created, in order.
abbrev pub Created : Type 0
Created = List CdStageDeploy

-- The object of `create`. The API server fills in the default status of the CRD, pending.
unfoldable pub stage_deploy_of : DeployCommand → CdStageDeploy
unfolding get_stage_cr_name
stage_deploy_of command = record {
  meta = record {
    name = "";
    generate_name = command.name;
    namespace = command.namespace;
    labels =
        (cd_pipeline_label, command.pipeline)
        ∷ (cd_stage_label, dashed command.pipeline command.stage)
        ∷ [];
    annotations = [];
    creation_timestamp = 0;
    deletion_timestamp = none;
    finalizers = [];
    generation = 0;
    controller = none;
  };
  spec = record {
    pipeline = command.pipeline;
    stage = command.stage;
    tag = command.tag;
    tags = command.tag ∷ [];
    trigger_type = command.trigger_type;
  };
  status = record { status = pending; message = "" };
}

-- `validateCbis`
unfoldable pub validate_cbis : CodebaseImageStreamSpec → List String
validate_cbis spec =
    append (if spec.codebase == "" then "codebase is not defined in spec " ∷ [] else [])
      (if is_empty spec.tags then "tags are not defined in spec " ∷ [] else [])

-- `strings.Join(errs, "; ")` of at most two texts
abbrev pub join_errors : List String → String
join_errors [] = ""
join_errors (e ∷ []) = e
join_errors (e ∷ f ∷ _) = e ++ "; " ++ f

unfoldable pub get_create_command :
    (parse_time : String → Option ℕ)
    → (pipeline stage name namespace codebase trigger_type : String) → List Tag
    → Result DeployCommand
get_create_command parse_time pipeline stage name namespace codebase trigger_type tags =
    and_then (or_wrap "failed to get last tag" (get_last_tag parse_time tags)) λ last. ok (record {
      name = name;
      namespace = namespace;
      pipeline = pipeline;
      stage = stage;
      trigger_type = trigger_type;
      tag = record { codebase = codebase; tag = last.name; digest = last.digest };
    })

module _ (package_ : PipelinePackage) (parse_time : String → Option ℕ) (client : StreamClient) where
  unfoldable pub skip_cd_stage_deploy_creation : (pipeline namespace : String) → Stage → Result Bool
  skip_cd_stage_deploy_creation pipeline namespace stage =
      if not (package_.is_auto_deploy_trigger_type stage)
      then ok false
      else and_then
          (or_wrap "failed to get CDStageDeploys"
            (client.list_cd_stage_deploys namespace pipeline stage.name))
          λ deploys. ok (ltb 1 (length deploys))

  unfoldable pub create : DeployCommand → Stage → Exec Created Unit
  create command stage = do
    d ←
        wrapping "failed to set controller reference"
          (lift (client.set_controller_reference stage (stage_deploy_of command)))
    wrapping ("failed to create CDStageDeploy resource " ++ command.name)
        (λ sent. (client.create d, append sent (d ∷ [])))

  -- From the test of `skip` on.
  unfoldable pub create_unless_skipped :
      (name pipeline stage namespace : String) → CodebaseImageStreamSpec → Stage → Exec Created Unit
  create_unless_skipped name pipeline stage namespace spec stage_cr = do
    skip ←
        wrapping "failed to check if CDStageDeploy exists"
          (lift (skip_cd_stage_deploy_creation pipeline namespace stage_cr))
    branch skip (pure tt) do
      command ← wrapping ("failed to construct command to create " ++ name ++ " cd stage deploy") (
          lift (
            get_create_command parse_time pipeline stage name namespace spec.codebase
              stage_cr.spec.trigger_type spec.tags))
      wrapping ("failed to create " ++ name ++ " cd stage deploy") (create command stage_cr)

  unfoldable pub put_cd_stage_deploy :
      (env_label : String)
      → (env : String × String) → (namespace : String) → CodebaseImageStreamSpec
      → Exec Created Unit
  put_cd_stage_deploy env_label (pipeline, stage) namespace spec = do
    stage_cr ←
        wrapping ("failed to get CDStage " ++ dashed pipeline stage)
          (lift (client.get_stage namespace (dashed pipeline stage)))
    create_unless_skipped (replace_slashes env_label) pipeline stage namespace spec stage_cr

  -- One turn of the loop over the labels.
  abbrev pub put_at :
      (env_label namespace : String)
      → CodebaseImageStreamSpec
      → Option (String × String)
      → Exec Created Unit
  put_at env_label namespace spec none = pure tt
  put_at env_label namespace spec (some env) = put_cd_stage_deploy env_label env namespace spec

  unfoldable pub put_label :
      (namespace : String) → CodebaseImageStreamSpec → String × String → Exec Created Unit
  put_label namespace spec (env_label, value) =
      branch (not (value == "")) (pure tt) (put_at env_label namespace spec (env_of env_label))

  unfoldable pub handle_env_labels : CodebaseImageStream → Exec Created Unit
  handle_env_labels cis =
      let errors = validate_cbis cis.spec in
      branch (is_empty cis.labels) (pure tt) (
        branch (not (is_empty errors)) (fail (new (join_errors errors)))
          (for_each cis.labels (put_label cis.namespace cis.spec)))

  -- `PutCDStageDeploy.ServeRequest`
  unfoldable pub serve_image_stream : CodebaseImageStream → Exec Created Unit
  serve_image_stream cis =
      wrapping ("failed to handle " ++ cis.name ++ " codebase image stream") (handle_env_labels cis)

  abbrev pub reconcile_image_stream_fetched :
      (name : String) → Result CodebaseImageStream → Exec Created Unit
  reconcile_image_stream_fetched name (ok cis) =
      wrapping "fail during CodebaseImageStream default chain" (serve_image_stream cis)
  reconcile_image_stream_fetched name (err e) =
      branch (is_not_found e) (pure tt)
        (fail (wrap ("failed to fetch CodebaseImageStream " ++ name) e))

  -- `ReconcileCodebaseImageStream.Reconcile`
  unfoldable pub reconcile_image_stream : (namespace name : String) → Exec Created Unit
  reconcile_image_stream namespace name =
      reconcile_image_stream_fetched name (client.get_image_stream namespace name)

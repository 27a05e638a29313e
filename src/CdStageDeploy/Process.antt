-- ===== src/CdStageDeploy/Process.antt =====
-- chain/process_trigger_template.go: start the pipeline run of a deployment.
use edp_codebase_operator.Prelude.{String, Bool, true, false, ◌||◌, ◌==◌, if◌then◌else◌}
use edp_codebase_operator.Effects.{
  Result, ok, err, wrap, is, empty_trigger_template_resources, last_tag_not_found, or_wrap,
  and_then, Exec, pure, fail, gets, wrapping, branch, ◌>>=◌, ◌>>◌,
}
use edp_codebase_operator.Api.{
  CdStageDeploy, completed, running, is_failed, is_pending, get_stage_cr_name,
}
use edp_codebase_operator.PipelineApi.{CdPipeline, Stage, PipelinePackage}
use edp_codebase_operator.CdStageDeploy.Cluster.{
  Client, State, TriggerTemplateManager, AutoDeployManager, AppPayload, PipelineRunRequest, send,
  create_pipeline_run,
}
use edp_codebase_operator.CdStageDeploy.Queue.{become}

unfoldable pub skip_pipeline_run_creation : CdStageDeploy → Bool
skip_pipeline_run_creation d =
    if is_pending d.status.status || is_failed d.status.status then false else true

-- The three results of `getResourcesForPipelineRun`.
pub record Resources : Type 0 where
  pub pipeline : CdPipeline
  pub stage : Stage
  pub raw_resource : String

unfoldable pub get_resources_for_pipeline_run :
    Client → TriggerTemplateManager → CdStageDeploy → Result Resources
unfolding get_stage_cr_name
get_resources_for_pipeline_run client templates d =
    and_then
      (or_wrap "failed to get CDPipeline" (client.get_cd_pipeline d.namespace d.spec.pipeline))
      λ pipeline.
        and_then
          (or_wrap "failed to get Stage" (client.get_stage d.namespace (get_stage_cr_name d)))
          λ stage.
            and_then
              (or_wrap "failed to get raw resource from TriggerTemplate" (
                templates.get_raw_resource_from_trigger_template stage.spec.trigger_template
                  d.namespace))
              λ raw. ok (record { pipeline = pipeline; stage = stage; raw_resource = raw })

unfoldable pub get_app_payload :
    PipelinePackage → AutoDeployManager → CdStageDeploy → CdPipeline → Stage → Result AppPayload
get_app_payload package_ auto_deploy d pipeline stage =
    or_wrap "failed to get application payload" (
      if d.spec.trigger_type == package_.trigger_type_auto_stable
      then auto_deploy.get_app_payload_for_current_with_stable_strategy d.spec.tag pipeline stage
      else auto_deploy.get_app_payload_for_all_latest_strategy pipeline)

unfoldable pub pipeline_run_request : CdStageDeploy → Resources → AppPayload → PipelineRunRequest
pipeline_run_request d r payload = record {
  namespace = d.namespace;
  cd_stage_deploy_name = d.name;
  raw_resource = r.raw_resource;
  app_payload = payload;
  stage = r.stage.spec.name;
  pipeline = r.pipeline.spec.name;
  cluster_secret = r.stage.spec.cluster_name;
}

-- From `CreatePipelineRun` on.
unfoldable pub start :
    TriggerTemplateManager → CdStageDeploy → Resources → AppPayload → Exec State Unit
unfolding become
start templates d r payload = do
  let request = pipeline_run_request d r payload
  wrapping "failed to create PipelineRun"
      (send (create_pipeline_run request) (templates.create_pipeline_run request))
  become running

-- From `getAppPayload` on, with its error branches.
unfoldable pub with_payload :
    TriggerTemplateManager → CdStageDeploy → Resources → Result AppPayload → Exec State Unit
unfolding become start
with_payload templates d r (ok payload) = start templates d r payload
with_payload templates d r (err e) =
    branch (is last_tag_not_found e) (become completed)
      (fail (wrap "failed to get application payload" e))

-- From `getResourcesForPipelineRun` on, with its error branches.
unfoldable pub with_resources :
    PipelinePackage
    → TriggerTemplateManager
    → AutoDeployManager
    → CdStageDeploy
    → Result Resources
    → Exec State Unit
unfolding become with_payload
with_resources package_ templates auto_deploy d (ok r) =
    with_payload templates d r (get_app_payload package_ auto_deploy d r.pipeline r.stage)
with_resources package_ templates auto_deploy d (err e) =
    branch (is empty_trigger_template_resources e) (become completed) (fail e)

unfoldable pub process_trigger_template :
    PipelinePackage → Client → TriggerTemplateManager → AutoDeployManager → Exec State Unit
unfolding with_resources skip_pipeline_run_creation
process_trigger_template package_ client templates auto_deploy = do
  d ← gets (λ s. s.deploy)
  branch (skip_pipeline_run_creation d) (pure tt) (
      with_resources package_ templates auto_deploy d
        (get_resources_for_pipeline_run client templates d))

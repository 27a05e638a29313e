-- ===== src/CdStageDeploy/Cluster.antt =====
-- What the handlers of controllers/cdstagedeploy read and write. The API client and the two managers
-- are interfaces of the source; here they are records of answers, one for each call.
use edp_codebase_operator.Prelude.{ℕ, String, List, [], ◌∷◌, ◌++◌, Dict}
use edp_codebase_operator.Effects.{Result, Exec}
use edp_codebase_operator.Api.{CdStageDeploy, CodebaseTag}
use edp_codebase_operator.PipelineApi.{CdPipeline, Stage, PipelineRun}

-- The `client.Client` calls. Lists are selected by namespace and by the labels for the pipeline and
-- the stage.
pub record Client : Type 0 where
  pub get_cd_stage_deploy : (namespace name : String) → Result CdStageDeploy
  pub list_pipeline_runs :
      (namespace pipeline stage : String) (limit : ℕ) → Result (List PipelineRun)
  pub list_cd_stage_deploys : (namespace pipeline stage : String) → Result (List CdStageDeploy)
  pub get_cd_pipeline : (namespace name : String) → Result CdPipeline
  pub get_stage : (namespace name : String) → Result Stage
  pub delete : CdStageDeploy → Result Unit

-- `autodeploy.ApplicationPayload`
pub record ApplicationPayload : Type 0 where
  pub image_tag : String
  pub image_digest : String

-- The map that `json.Marshal` renders; the rendering is not modelled.
abbrev pub AppPayload : Type 0
AppPayload = Dict ApplicationPayload

-- The arguments of `CreatePipelineRun`.
pub record PipelineRunRequest : Type 0 where
  pub namespace : String
  pub cd_stage_deploy_name : String
  pub raw_resource : String
  pub app_payload : AppPayload
  pub stage : String
  pub pipeline : String
  pub cluster_secret : String

-- `tektoncd.TriggerTemplateManager`
pub record TriggerTemplateManager : Type 0 where
  pub get_raw_resource_from_trigger_template : (name namespace : String) → Result String
  pub create_pipeline_run : PipelineRunRequest → Result Unit

-- `autodeploy.Manager`
pub record AutoDeployManager : Type 0 where
  pub get_app_payload_for_all_latest_strategy : CdPipeline → Result AppPayload
  pub get_app_payload_for_current_with_stable_strategy :
      CodebaseTag → CdPipeline → Stage → Result AppPayload

-- What is sent to change the cluster, in order.
pub data Request : Type 0 where
  create_pipeline_run : PipelineRunRequest → Request
  delete : CdStageDeploy → Request
  update_status : CdStageDeploy → Request

-- The object that the handlers share by a pointer, and the requests sent so far.
pub record State : Type 0 where
  pub deploy : CdStageDeploy
  pub sent : List Request

-- A request is sent, and its answer comes back.
abbrev pub send : Request → Result Unit → Exec State Unit
send q r s = (r, record s { sent = s.sent ++ q ∷ [] })

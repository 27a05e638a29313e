-- ===== src/PipelineApi.antt =====
-- The resources of the CD pipeline operator and of Tekton that this operator reads: the shapes of
-- their Go structs, with the fields that are read here.
use edp_codebase_operator.Prelude.{ℕ, String, Bool, List, Option}
use edp_codebase_operator.Api.{ObjectMeta}

pub record CdPipelineSpec : Type 0 where
  pub name : String
  pub applications : List String
  pub applications_to_promote : List String
  pub input_docker_streams : List String

pub record CdPipeline : Type 0 where
  pub meta : ObjectMeta
  pub open meta use *
  pub spec : CdPipelineSpec

pub record QualityGate : Type 0 where
  pub autotest_name : Option String
  pub branch_name : Option String

pub record StageSpec : Type 0 where
  pub name : String
  pub cd_pipeline : String
  pub trigger_template : String
  pub trigger_type : String
  pub cluster_name : String
  pub quality_gates : List QualityGate

pub record Stage : Type 0 where
  pub meta : ObjectMeta
  pub open meta use *
  pub spec : StageSpec

-- A Tekton PipelineRun: what is listed of it.
pub record PipelineRun : Type 0 where
  pub meta : ObjectMeta
  pub open meta use *
  pub completion_time : Option ℕ

-- What the source uses of the CD pipeline operator's package besides the structs: the constant
-- `TriggerTypeAutoStable` and the method `IsAutoDeployTriggerType`.
pub record PipelinePackage : Type 0 where
  pub trigger_type_auto_stable : String
  pub is_auto_deploy_trigger_type : Stage → Bool

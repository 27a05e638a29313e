-- ===== src/Api.antt =====
-- api/v1: the custom resources that the operator reconciles. A nil map and an empty map read alike
-- in Go, and are both the empty list; a nil pointer is `none`.
pub mod Codebase
use Prim.Native.String.{◌++◌}
use edp_codebase_operator.Prelude.{ℕ, String, Bool, true, false, List, Option, Dict}
use edp_codebase_operator.Effects.{Error, error_text}

-- The fields of `metaV1.ObjectMeta` that the operator reads or writes. Times are seconds.
pub record ObjectMeta : Type 0 where
  pub name : String
  pub generate_name : String
  pub namespace : String
  pub labels : Dict String
  pub annotations : Dict String
  pub creation_timestamp : ℕ
  pub deletion_timestamp : Option ℕ
  pub finalizers : List String
  pub generation : ℕ
  -- the owner that `controllerutil.SetControllerReference` sets
  pub controller : Option String

-- `fmt.Sprintf("%s-%s", a, b)`
abbrev pub dashed : String → String → String
dashed a b = a ++ "-" ++ b

-- The values of `CDStageDeployStatus.Status` that the CRD's enumeration admits.
pub data DeployStatus : Type 0 where
  failed running pending in_queue completed : DeployStatus

pub DeployStatus-discrete : Discrete DeployStatus
DeployStatus-discrete = hlevel

pub record CodebaseTag : Type 0 where
  pub codebase : String
  pub tag : String
  pub digest : String

pub record CdStageDeploySpec : Type 0 where
  pub pipeline : String
  pub stage : String
  pub tag : CodebaseTag
  pub tags : List CodebaseTag
  pub trigger_type : String

pub record CdStageDeployStatus : Type 0 where
  pub status : DeployStatus
  pub message : String

pub record CdStageDeploy : Type 0 where
  pub meta : ObjectMeta
  pub open meta use *
  pub spec : CdStageDeploySpec
  pub status : CdStageDeployStatus

unfoldable pub set_status : DeployStatus → CdStageDeploy → CdStageDeploy
set_status st d = record d { status = record { status = st; message = d.status.message } }

unfoldable pub set_failed_status : Error → CdStageDeploy → CdStageDeploy
set_failed_status e d = record d { status = record { status = failed; message = error_text e } }

unfoldable pub get_stage_cr_name : CdStageDeploy → String
get_stage_cr_name d = dashed d.spec.pipeline d.spec.stage

abbrev pub is_failed : DeployStatus → Bool
is_failed failed = true
is_failed _ = false

abbrev pub is_pending : DeployStatus → Bool
is_pending pending = true
is_pending _ = false

abbrev pub is_in_queue : DeployStatus → Bool
is_in_queue in_queue = true
is_in_queue _ = false

abbrev pub is_running : DeployStatus → Bool
is_running running = true
is_running _ = false

abbrev pub is_completed : DeployStatus → Bool
is_completed completed = true
is_completed _ = false

pub record Tag : Type 0 where
  pub name : String
  pub created : String
  pub digest : String

pub record CodebaseImageStreamSpec : Type 0 where
  pub codebase : String
  pub image_name : String
  pub tags : List Tag

pub record CodebaseImageStream : Type 0 where
  pub meta : ObjectMeta
  pub open meta use *
  pub spec : CodebaseImageStreamSpec

-- Labels and annotations.
abbrev pub cd_pipeline_label : String
cd_pipeline_label = "app.edp.epam.com/cdpipeline"

abbrev pub cd_stage_label : String
cd_stage_label = "app.edp.epam.com/cdstage"

abbrev pub codebase_branch_label : String
codebase_branch_label = "app.edp.epam.com/codebasebranch"

abbrev pub codebase_label : String
codebase_label = "app.edp.epam.com/codebase"

abbrev pub branch_hash_label : String
branch_hash_label = "app.edp.epam.com/branch-hash"

abbrev pub stale_label : String
stale_label = "app.edp.epam.com/stale"

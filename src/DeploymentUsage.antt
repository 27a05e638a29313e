-- ===== src/DeploymentUsage.antt =====
-- pkg/deploymentusage/deploymentusage.go: which deployment resources are in use, and how a reference to
-- one is described.
pub mod Branches
pub mod Codebases
pub mod Text
use Prim.Native.String.{◌++◌}
use edp_codebase_operator.Prelude.{
  String, List, [], ◌∷◌, Bool, true, false, Option, none, some, is_nil, map, select, ◌==◌,
  if◌then◌else◌,
}
use mathlib.Core.List
use edp_codebase_operator.Effects.{
  Error, api, no_match, not_registered, Result, ok, err, wrap, and_then,
}
use edp_codebase_operator.Api.Codebase.{CodebaseBranch}
use edp_codebase_operator.PipelineApi.{CdPipeline, Stage, QualityGate}

-- `client.List` of the deployment resources of a namespace, and of the branches that the field index
-- finds for a codebase.
pub record UsageClient : Type 0 where
  pub list_cd_pipelines : (namespace : String) → Result (List CdPipeline)
  pub list_stages : (namespace : String) → Result (List Stage)
  pub list_branches : (namespace codebase_name : String) → Result (List CodebaseBranch)

pub data Kind : Type 0 where
  cd_pipeline_kind stage_kind : Kind

abbrev pub kind_text : Kind → String
kind_text cd_pipeline_kind = "CDPipeline"
kind_text stage_kind = "Stage"

pub record Reference : Type 0 where
  pub kind : Kind
  pub name : String
  pub field : String
  pub reason : String
  pub parent_cd_pipeline : String

-- `Reference.String`
reference_lines : Kind → Reference → String
reference_lines stage_kind r =
    "Stage " ++ r.name ++ " of CDPipeline " ++ r.parent_cd_pipeline ++ " (" ++ r.reason ++ ")"
reference_lines cd_pipeline_kind r = kind_text r.kind ++ " " ++ r.name ++ " (" ++ r.reason ++ ")"

unfoldable pub reference_text : Reference → String
unfolding reference_lines
reference_text r = reference_lines r.kind r

-- `strings.Join`
unfoldable pub join_texts : String → List String → String
join_texts sep [] = ""
join_texts sep (t ∷ []) = t
join_texts sep (t ∷ (u ∷ us)) = t ++ sep ++ join_texts sep (u ∷ us)

unfoldable pub join : List Reference → String
unfolding join_texts reference_text
join refs = join_texts "; " (map reference_text refs)

-- The errors that say that a CRD is not installed.
unfoldable pub is_kind_unavailable : Error → Bool
is_kind_unavailable (api no_match t) = true
is_kind_unavailable (api not_registered t) = true
is_kind_unavailable _ = false

-- The items of a listing that pass the test; none where the kind is not installed.
unfoldable pub list_where : {A : Type 0} → String → (A → Bool) → Result (List A) → Result (List A)
list_where t p (ok items) = ok (select items p)
list_where t p (err e) = if is_kind_unavailable e then ok [] else err (wrap t e)

module _ (client : UsageClient) where
  unfoldable pub list_active_cd_pipelines : (namespace : String) → Result (List CdPipeline)
  list_active_cd_pipelines namespace =
      list_where "failed to list CDPipelines" (λ p. is_nil p.deletion_timestamp)
        (client.list_cd_pipelines namespace)

  unfoldable pub list_active_stages : (namespace : String) → Result (List Stage)
  list_active_stages namespace =
      list_where "failed to list Stages" (λ s. is_nil s.deletion_timestamp)
        (client.list_stages namespace)

-- An autotest quality gate, with the reference to its stage.
pub record AutotestGate : Type 0 where
  pub reference : Reference
  pub autotest_name : String
  pub branch_name : String

abbrev pub or_empty : Option String → String
or_empty none = ""
or_empty (some t) = t

abbrev pub gate_reference : Stage → Reference
gate_reference stage = record {
  kind = stage_kind;
  name = stage.name;
  field = "spec.qualityGates.autotestName";
  reason = "autotest quality gate";
  parent_cd_pipeline = stage.spec.cd_pipeline;
}

-- The gates of one stage; a gate with no autotest is skipped.
unfoldable pub stage_gates : Stage → List QualityGate → List AutotestGate
stage_gates stage [] = []
stage_gates stage (gate ∷ gates) =
    let rest = stage_gates stage gates in
    if or_empty gate.autotest_name == ""
    then rest
    else record {
      reference = gate_reference stage;
      autotest_name = or_empty gate.autotest_name;
      branch_name = or_empty gate.branch_name;
    }
      ∷ rest

unfoldable pub all_gates : List Stage → List AutotestGate
all_gates [] = []
all_gates (stage ∷ stages) =
    List.◌++◌ (stage_gates stage stage.spec.quality_gates) (all_gates stages)

unfoldable pub find_autotest_gates : UsageClient → (namespace : String) → Result (List AutotestGate)
find_autotest_gates client namespace =
    and_then (list_active_stages client namespace) λ stages. ok (all_gates stages)

-- ===== src/DeploymentUsage/Codebases.antt =====
-- pkg/codebase/usage.go: the resources that deploy a codebase.
pub mod Exact
use Prim.Native.String.{◌++◌}
use mathlib.Core.List
use edp_codebase_operator.Prelude.{
  String, List, [], ◌∷◌, Bool, true, false, Option, none, some, contains, map, select, ◌==◌,
  if◌then◌else◌,
}
use edp_codebase_operator.Effects.{Result, ok, err, wrap, and_then}
use edp_codebase_operator.Api.Codebase.{Codebase, CodebaseBranch}
use edp_codebase_operator.PipelineApi.{CdPipeline}
use edp_codebase_operator.DeploymentUsage.{
  UsageClient, Reference, cd_pipeline_kind, AutotestGate, list_active_cd_pipelines,
  find_autotest_gates, is_kind_unavailable,
}

-- The loop over the streams in `matchPipeline`.
unfoldable pub match_streams : List String → (branch_names : List String) → Option (String × String)
match_streams [] branch_names = none
match_streams (s ∷ streams) branch_names =
    if contains branch_names s
    then some ("spec.inputDockerStreams", "branch " ++ s ++ " in inputDockerStreams")
    else match_streams streams branch_names

-- The field and the reason of the match, or none for `ok == false`.
unfoldable pub match_pipeline :
    CdPipeline → (codebase_name : String) → (branch_names : List String) → Option (String × String)
match_pipeline pipeline codebase_name branch_names =
    if contains pipeline.spec.applications codebase_name
    then some ("spec.applications", "applications")
    else if contains pipeline.spec.applications_to_promote codebase_name
    then some ("spec.applicationsToPromote", "applicationsToPromote")
    else match_streams pipeline.spec.input_docker_streams branch_names

-- The keys of the set of names, in the order of the listing.
abbrev names_of : Result (List CodebaseBranch) → Result (List String)
names_of (ok branches) = ok (map (λ b. b.name) branches)
names_of (err e) =
    if is_kind_unavailable e then ok [] else err (wrap "failed to list CodebaseBranches" e)

unfoldable pub list_branch_names : UsageClient → Codebase → Result (List String)
list_branch_names client codebase = names_of (client.list_branches codebase.namespace codebase.name)

abbrev pub pipeline_reference : CdPipeline → String × String → Reference
pipeline_reference p (field, reason) = record {
  kind = cd_pipeline_kind;
  name = p.name;
  field = field;
  reason = reason;
  parent_cd_pipeline = "";
}

unfoldable pub pipeline_refs :
    (codebase_name : String) → (branch_names : List String) → List CdPipeline → List Reference
pipeline_refs name branch_names [] = []
pipeline_refs name branch_names (p ∷ ps) =
    let rest = pipeline_refs name branch_names ps in
    elim (match_pipeline p name branch_names) [
      | none ↦ rest
      | some match ↦ pipeline_reference p match ∷ rest
    ]

unfoldable pub find_codebase_usage : UsageClient → Codebase → Result (List Reference)
find_codebase_usage client codebase =
    and_then (list_active_cd_pipelines client codebase.namespace) λ pipelines.
      and_then (list_branch_names client codebase) λ branch_names.
        and_then (find_autotest_gates client codebase.namespace) λ gates. ok (
          List.◌++◌ (pipeline_refs codebase.name branch_names pipelines)
            (map (λ g. g.reference) (select gates (λ g. g.autotest_name == codebase.name))))

-- ===== src/DeploymentUsage/Branches.antt =====
-- pkg/codebasebranch/usage.go: the index from branches to the resources that deploy them.
pub mod Index
use edp_codebase_operator.Prelude.{
  String, List, [], ◌∷◌, ◌++◌, Bool, true, false, ◌&&◌, contains, is_empty, Key, string_key,
  MultiMap, values_at, append_at, ◌↔◌, ◌≡◌, arith, ap, ◌==◌, eq_iff, if◌then◌else◌,
}
use edp_codebase_operator.Effects.{Result, ok, err, and_then}
use edp_codebase_operator.Api.Codebase.{CodebaseBranch}
use edp_codebase_operator.PipelineApi.{CdPipeline}
use edp_codebase_operator.DeploymentUsage.{
  UsageClient, Reference, cd_pipeline_kind, AutotestGate, list_active_cd_pipelines,
  find_autotest_gates,
}

-- The key `autotestGate`.
pub record GateKey : Type 0 where
  pub codebase_name : String
  pub branch_name : String

abbrev pub gate_key_eq : GateKey → GateKey → Bool
gate_key_eq a b = a.codebase_name == b.codebase_name && a.branch_name == b.branch_name

pub gate_key_eq_iff : (a b : GateKey) → (gate_key_eq a b ≡ true) ↔ (a ≡ b)
gate_key_eq_iff a b =
    ground (arith, eq_iff a.codebase_name b.codebase_name, eq_iff a.branch_name b.branch_name)

instance abbrev pub gate_key : Key GateKey
gate_key = record { key_eq = gate_key_eq; key_eq_iff = gate_key_eq_iff }

pub record BranchUsageIndex : Type 0 where
  pub by_stream_name : MultiMap String Reference
  pub by_autotest : MultiMap GateKey Reference

abbrev pub stream_reference : CdPipeline → Reference
stream_reference p = record {
  kind = cd_pipeline_kind;
  name = p.name;
  field = "spec.inputDockerStreams";
  reason = "inputDockerStreams";
  parent_cd_pipeline = "";
}

-- The loop of `addPipeline`, over the set `seen` and the index by stream.
unfoldable pub add_streams :
    Reference → (seen streams : List String) → MultiMap String Reference → MultiMap String Reference
add_streams ref seen [] m = m
add_streams ref seen (s ∷ streams) m =
    let duplicate = contains seen s in
    add_streams ref (if duplicate then seen else s ∷ seen) streams
      (if duplicate then m else append_at s ref m)

unfoldable pub add_pipelines :
    List CdPipeline → MultiMap String Reference → MultiMap String Reference
add_pipelines [] m = m
add_pipelines (p ∷ ps) m =
    add_pipelines ps (add_streams (stream_reference p) [] p.spec.input_docker_streams m)

unfoldable pub add_gates :
    List AutotestGate → MultiMap GateKey Reference → MultiMap GateKey Reference
add_gates [] m = m
add_gates (g ∷ gs) m = add_gates gs (
    append_at (record { codebase_name = g.autotest_name; branch_name = g.branch_name }) g.reference
      m)

unfoldable pub new_branch_usage_index : UsageClient → (namespace : String) → Result BranchUsageIndex
new_branch_usage_index client namespace =
    and_then (list_active_cd_pipelines client namespace) λ pipelines.
      and_then (find_autotest_gates client namespace) λ gates.
        ok
          (record { by_stream_name = add_pipelines pipelines []; by_autotest = add_gates gates [] })

abbrev pub branch_key : CodebaseBranch → GateKey
branch_key b = record { codebase_name = b.spec.codebase_name; branch_name = b.spec.branch_name }

unfoldable pub find : BranchUsageIndex → CodebaseBranch → List Reference
find i branch =
    let pipeline_refs = values_at branch.name i.by_stream_name in
    let gate_refs = values_at (branch_key branch) i.by_autotest in
    if is_empty pipeline_refs && is_empty gate_refs then [] else pipeline_refs ++ gate_refs

unfoldable pub find_branch_usage : UsageClient → CodebaseBranch → Result (List Reference)
find_branch_usage client branch =
    and_then (new_branch_usage_index client branch.namespace) λ i. ok (find i branch)

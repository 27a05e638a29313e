-- ===== src/CdStageDeploy/Reconcile/Retry.antt =====
-- The retry of a failed deployment in chain/resolve_status.go.
use edp_codebase_operator.Prelude.{ℕ, String, List, ◌≡◌, arith}
use edp_codebase_operator.Effects.{Result, ok}
use edp_codebase_operator.Api.{CdStageDeploy, failed}
use edp_codebase_operator.PipelineApi.{PipelinePackage, PipelineRun}
use edp_codebase_operator.CdStageDeploy.Cluster.{Client, TriggerTemplateManager, AutoDeployManager}
use edp_codebase_operator.CdStageDeploy.Queue.{resolve_status}
use edp_codebase_operator.CdStageDeploy.Process.{
  process_trigger_template, get_resources_for_pipeline_run,
}
use edp_codebase_operator.CdStageDeploy.Reconcile.{
  create_chain, delete_cd_stage_deploy, reconcile_fetched, reconcile,
}

-- The same client with other answers to the two listings that the queue rests on.
abbrev pub relisted :
    Client
    → ((namespace pipeline stage : String) (limit : ℕ) → Result (List PipelineRun))
    → ((namespace pipeline stage : String) → Result (List CdStageDeploy))
    → Client
relisted client runs deploys = record client {
  list_pipeline_runs = runs;
  list_cd_stage_deploys = deploys;
}

-- The retry of a failed deployment does not depend on the pipeline runs of its stage nor on the
-- queue: whatever the two listings answer, the outcome and the requests are the same.
pub failed_retry_ignores_queue :
    (package_ : PipelinePackage) (client : Client) (templates : TriggerTemplateManager)
    (auto_deploy : AutoDeployManager) (namespace name : String) (d : CdStageDeploy)
    (runs : (namespace pipeline stage : String) (limit : ℕ) → Result (List PipelineRun))
    (deploys : (namespace pipeline stage : String) → Result (List CdStageDeploy))
    → client.get_cd_stage_deploy namespace name ≡ ok d
    → d.status.status ≡ failed
    → reconcile package_ (relisted client runs deploys) templates auto_deploy namespace name
      ≡ reconcile package_ client templates auto_deploy namespace name
unfolding reconcile reconcile_fetched create_chain resolve_status process_trigger_template
    delete_cd_stage_deploy get_resources_for_pipeline_run
failed_retry_ignores_queue package_ client templates auto_deploy namespace name d runs deploys
      fetched is_failed =
    ground arith

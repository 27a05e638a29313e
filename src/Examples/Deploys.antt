-- ===== src/Examples/Deploys.antt =====
-- The theorems on CDStageDeploy reconciliations at a small cluster.
use edp_codebase_operator.Prelude.{
  String, List, [], ◌∷◌, true, some, all, ◌≡◌, ◌↔◌, refl, arith, if◌then◌else◌,
}
use edp_codebase_operator.Effects.{Error, api, not_found, ok, err}
use edp_codebase_operator.Api.{
  CdStageDeploy, failed, running, pending, in_queue, completed, set_status,
}
use edp_codebase_operator.PipelineApi.{PipelinePackage}
use edp_codebase_operator.CdStageDeploy.Cluster.{
  Client, TriggerTemplateManager, AutoDeployManager, delete,
}
use edp_codebase_operator.CdStageDeploy.Queue.{
  should_start_cd_stage_deploy, all_pipeline_runs_completed, all_cd_stage_deploys_in_que,
  resolve_status,
}
use edp_codebase_operator.CdStageDeploy.Queue.Order.{IsOldest, queue_progress}
use edp_codebase_operator.CdStageDeploy.Process.{
  process_trigger_template, get_resources_for_pipeline_run, get_app_payload,
}
use edp_codebase_operator.CdStageDeploy.Reconcile.{
  reconcile, create_chain, delete_cd_stage_deploy, finish, request_timeout,
}
use edp_codebase_operator.CdStageDeploy.Reconcile.Handlers.{MayStart}
use edp_codebase_operator.CdStageDeploy.Reconcile.Safety.{pipeline_run_only_when_idle}
use edp_codebase_operator.CdStageDeploy.Reconcile.Diagram.{
  ◌⟶◌, stored, stored_follows_diagram, running_until_completed,
}
use edp_codebase_operator.CdStageDeploy.Reconcile.Retry.{relisted, failed_retry_ignores_queue}
use edp_codebase_operator.Examples.{deploy_of, finished_run, pipeline_of, dev_stage}

abbrev package_ : PipelinePackage
package_ = record {
  trigger_type_auto_stable = "Auto-stable";
  is_auto_deploy_trigger_type = λ _. true;
}

abbrev missing : Error
missing = api not_found "not found"

-- A cluster with one deployment and one finished pipeline run.
abbrev cluster : CdStageDeploy → List CdStageDeploy → Client
cluster d queue = record {
  get_cd_stage_deploy = λ _ _. ok d;
  list_pipeline_runs = λ _ _ _ _. ok (finished_run ∷ []);
  list_cd_stage_deploys = λ _ _ _. ok queue;
  get_cd_pipeline = λ _ _. ok (pipeline_of ("app" ∷ []) ("app-main" ∷ []));
  get_stage = λ _ _. ok dev_stage;
  delete = λ _. ok tt;
}

abbrev templates : TriggerTemplateManager
templates = record {
  get_raw_resource_from_trigger_template = λ _ _. ok "kind: PipelineRun";
  create_pipeline_run = λ _. ok tt;
}

abbrev no_payload : AutoDeployManager
no_payload = record {
  get_app_payload_for_all_latest_strategy = λ _. ok [];
  get_app_payload_for_current_with_stable_strategy = λ _ _ _. ok [];
}

abbrev first : CdStageDeploy
first = deploy_of "first" 1 in_queue

abbrev second : CdStageDeploy
second = deploy_of "second" 2 in_queue

abbrev queue : List CdStageDeploy
queue = second ∷ first ∷ []

queue_progress_example :
    (d : CdStageDeploy) × IsOldest d queue
    × ((name : String)
        → (should_start_cd_stage_deploy
              (cluster first queue)
              name
              "pipe-dev"
              "pipe"
              "ns"
              (finished_run ∷ [])
            ≡ ok true)
          ↔ (name ≡ d.name))
unfolding all_pipeline_runs_completed all_cd_stage_deploys_in_que all
queue_progress_example =
    queue_progress (cluster first queue) "pipe-dev" "pipe" "ns" (finished_run ∷ []) queue refl refl
      refl refl

abbrev pending_deploy : CdStageDeploy
pending_deploy = deploy_of "first" 1 pending

pipeline_run_only_when_idle_example : MayStart (cluster pending_deploy []) pending_deploy
unfolding reconcile create_chain finish resolve_status process_trigger_template
    delete_cd_stage_deploy get_resources_for_pipeline_run get_app_payload
    all_pipeline_runs_completed all
pipeline_run_only_when_idle_example =
    pipeline_run_only_when_idle package_ (cluster pending_deploy []) templates no_payload "ns"
      "first" pending_deploy refl (ground arith) refl

stored_follows_diagram_example : pending ⟶ running
unfolding reconcile create_chain finish resolve_status process_trigger_template
    delete_cd_stage_deploy get_resources_for_pipeline_run get_app_payload
    all_pipeline_runs_completed all stored
stored_follows_diagram_example =
    stored_follows_diagram package_ (cluster pending_deploy []) templates no_payload "ns" "first"
      pending_deploy running refl refl

abbrev running_deploy : CdStageDeploy
running_deploy = deploy_of "first" 1 running

running_until_completed_example :
    reconcile package_ (cluster running_deploy []) templates no_payload "ns" "first" ≡ (
      record { requeue_after = some request_timeout; result = ok tt },
      if all_pipeline_runs_completed (finished_run ∷ [])
          then delete (set_status completed running_deploy) ∷ []
          else [],
    )
running_until_completed_example =
    running_until_completed package_ (cluster running_deploy []) templates no_payload "ns" "first"
      running_deploy (finished_run ∷ []) refl refl refl refl refl

abbrev failed_deploy : CdStageDeploy
failed_deploy = deploy_of "first" 1 failed

failed_retry_ignores_queue_example :
    reconcile package_
      (relisted (cluster failed_deploy []) (λ _ _ _ _. err missing) (λ _ _ _. err missing))
      templates
      no_payload
      "ns"
      "first"
    ≡ reconcile package_ (cluster failed_deploy []) templates no_payload "ns" "first"
failed_retry_ignores_queue_example =
    failed_retry_ignores_queue package_ (cluster failed_deploy []) templates no_payload "ns" "first"
      failed_deploy (λ _ _ _ _. err missing) (λ _ _ _. err missing) refl refl

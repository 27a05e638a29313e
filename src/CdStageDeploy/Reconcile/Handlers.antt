-- ===== src/CdStageDeploy/Reconcile/Handlers.antt =====
-- What each handler of the chain does to the status and to the requests sent.
use edp_codebase_operator.Prelude.{
  String, List, [], ◌∷◌, Bool, true, false, ◌≡◌, ◌≢◌, ◌⊎◌, inl, inr, arith,
}
use edp_codebase_operator.Effects.{Result, ok, Result-cases}
use edp_codebase_operator.Api.{
  CdStageDeploy, failed, running, pending, in_queue, completed, get_stage_cr_name,
}
use edp_codebase_operator.PipelineApi.{PipelinePackage, PipelineRun}
use edp_codebase_operator.CdStageDeploy.Cluster.{
  Client, State, TriggerTemplateManager, AutoDeployManager, Request, create_pipeline_run,
}
use edp_codebase_operator.CdStageDeploy.Queue.{
  resolve_status, should_start_cd_stage_deploy, all_pipeline_runs_completed, max_pipeline_runs,
}
use edp_codebase_operator.CdStageDeploy.Process.{process_trigger_template}

-- The listing that the start of `d` rests on.
abbrev pub listed_runs : Client → CdStageDeploy → Result (List PipelineRun)
listed_runs client d =
    client.list_pipeline_runs d.namespace d.spec.pipeline (get_stage_cr_name d) max_pipeline_runs

-- Every pipeline run of the stage has completed, and `d` is not behind another deployment: it is
-- pending already, or the queue lets it start.
pub record MayStart (client : Client) (d : CdStageDeploy) : Type 0 where
  pub runs : List PipelineRun
  pub listed : listed_runs client d ≡ ok runs
  pub all_completed : all_pipeline_runs_completed runs ≡ true
  pub admitted :
      (d.status.status ≡ pending)
      ⊎ ((d.status.status ≡ in_queue)
          × (should_start_cd_stage_deploy client d.name
                (get_stage_cr_name d)
                d.spec.pipeline
                d.namespace
                runs
              ≡ ok true))

-- The queue lets nothing start beside a run that has not completed.
should_start-completed :
    (client : Client) (name stage pipeline namespace : String) (runs : List PipelineRun)
    → should_start_cd_stage_deploy client name stage pipeline namespace runs ≡ ok true
    → all_pipeline_runs_completed runs ≡ true
unfolding should_start_cd_stage_deploy
should_start-completed client name stage pipeline namespace runs h = ground arith

module _ (client : Client) (s : State) where
  pub resolve_status-sent : (resolve_status client s).1.sent ≡ s.sent
  unfolding resolve_status
  resolve_status-sent = ground arith

  -- Only a deployment that has failed before goes on as failed.
  pub resolve_status-failed :
      (resolve_status client s).1.deploy.status.status ≡ failed → s.deploy.status.status ≡ failed
  unfolding resolve_status
  resolve_status-failed h = ground arith

  pub resolve_status-MayStart :
      (resolve_status client s).0 ≡ ok tt
      → (resolve_status client s).1.deploy.status.status ≡ pending
      → MayStart client s.deploy
  unfolding resolve_status
  resolve_status-MayStart h p = elim (Result-cases (listed_runs client s.deploy)) [
    | inl (runs, e) ↦ record {
      runs = runs;
      listed = e;
      all_completed = ground (
        arith,
        should_start-completed client s.deploy.name (get_stage_cr_name s.deploy)
            s.deploy.spec.pipeline s.deploy.namespace runs,
      );
      admitted = ground arith;
    }
    | inr (x, e) ↦ absurd (ground arith)
  ]

-- Is a pipeline run among the requests?
abbrev pub creates_run : List Request → Bool
creates_run [] = false
creates_run (create_pipeline_run q ∷ rs) = true
creates_run (_ ∷ rs) = creates_run rs

module _ (package_ : PipelinePackage) (client : Client) (templates : TriggerTemplateManager)
    (auto_deploy : AutoDeployManager) (s : State) where
  abbrev after : Result Unit × State
  after = process_trigger_template package_ client templates auto_deploy s

  -- A deployment that is neither pending nor failed passes through.
  pub process-skips :
      s.deploy.status.status ≢ pending → s.deploy.status.status ≢ failed → after ≡ (ok tt, s)
  unfolding process_trigger_template
  process-skips p f = ground arith

  -- With no error the deployment runs or is completed, unless it passed through; with an error its
  -- status is untouched.
  pub process-status :
      (after.0 ≡ ok tt)
        × ((after.1.deploy.status.status ≡ running)
            ⊎ (after.1.deploy.status.status ≡ completed)
            ⊎ (after ≡ (ok tt, s)))
      ⊎ (after.1.deploy ≡ s.deploy)
  unfolding process_trigger_template
  process-status = ground arith

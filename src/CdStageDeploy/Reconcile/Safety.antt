-- ===== src/CdStageDeploy/Reconcile/Safety.antt =====
-- When a reconciliation of cdstagedeploy_controller.go starts a pipeline run, and which statuses it
-- stores.
use edp_codebase_operator.Prelude.{
  String, List, [], ◌∷◌, ◌++◌, true, false, ◌≡◌, refl, ap, ◌≢◌, arith,
}
use edp_codebase_operator.Effects.{Result, ok, err}
use edp_codebase_operator.Api.{
  CdStageDeploy, DeployStatus, DeployStatus-discrete, failed, pending, set_failed_status,
}
use edp_codebase_operator.PipelineApi.{PipelinePackage}
use edp_codebase_operator.CdStageDeploy.Cluster.{
  Client, State, TriggerTemplateManager, AutoDeployManager, Request, create_pipeline_run, delete,
  update_status,
}
use edp_codebase_operator.CdStageDeploy.Queue.{resolve_status}
use edp_codebase_operator.CdStageDeploy.Reconcile.{
  create_chain, delete_cd_stage_deploy, finish, reconcile_fetched, reconcile,
}
use edp_codebase_operator.CdStageDeploy.Reconcile.Handlers.{
  MayStart, creates_run, resolve_status-sent, resolve_status-failed, resolve_status-MayStart,
  process-skips,
}

delete-creates_run :
    (client : Client) (s : State)
    → s.sent ≡ []
    → creates_run (delete_cd_stage_deploy client s).1.sent ≡ false
unfolding delete_cd_stage_deploy
delete-creates_run client s e = rw e (ground arith)

-- A status update starts nothing.
creates_run-append :
    (sent : List Request) (d : CdStageDeploy)
    → creates_run (sent ++ update_status d ∷ []) ≡ creates_run sent
creates_run-append [] d = refl
creates_run-append (create_pipeline_run q ∷ sent) d = refl
creates_run-append (delete q ∷ sent) d = creates_run-append sent d
creates_run-append (update_status q ∷ sent) d = creates_run-append sent d

finish-creates_run :
    (old : DeployStatus) (r : Result Unit) (s : State)
    → creates_run (finish old r s).1 ≡ creates_run s.sent
unfolding finish
finish-creates_run old (ok u) s = ground (arith, creates_run-append s.sent s.deploy)
finish-creates_run old (err e) s = creates_run-append s.sent (set_failed_status e s.deploy)

module _ (package_ : PipelinePackage) (client : Client) (templates : TriggerTemplateManager)
    (auto_deploy : AutoDeployManager) where
  abbrev chain : State → Result Unit × State
  chain = create_chain package_ client templates auto_deploy

  abbrev fresh : CdStageDeploy → State
  fresh d = record { deploy = d; sent = [] }

  chain-idle :
      (d : CdStageDeploy)
      → d.status.status ≢ failed
      → (resolve_status client (fresh d)).1.deploy.status.status ≢ pending
      → creates_run (chain (fresh d)).1.sent ≡ false
  unfolding create_chain
  chain-idle d live waits =
      let s' = (resolve_status client (fresh d)).1 in
      let kept : s'.sent ≡ [] = resolve_status-sent client (fresh d) in
      ground (
        arith,
        kept,
        delete-creates_run client s' kept,
        process-skips package_ client templates auto_deploy s' waits
            (λ f. live (resolve_status-failed client (fresh d) f)),
      )

  chain-resolved :
      (d : CdStageDeploy)
      → creates_run (chain (fresh d)).1.sent ≡ true
      → (resolve_status client (fresh d)).0 ≡ ok tt
  unfolding create_chain
  chain-resolved d h = ground (arith, ap creates_run (resolve_status-sent client (fresh d)))

  chain-MayStart :
      (d : CdStageDeploy)
      → d.status.status ≢ failed
      → creates_run (chain (fresh d)).1.sent ≡ true
      → MayStart client d
  chain-MayStart d live h =
      elim (DeployStatus-discrete (resolve_status client (fresh d)).1.deploy.status.status
        pending) [
          | yes p ↦ resolve_status-MayStart client (fresh d) (chain-resolved d h) p
          | no waits ↦ absurd (cc (chain-idle d live waits))
        ]

  -- A reconciliation of a deployment that has not failed starts a pipeline run only if every listed
  -- pipeline run of its stage has completed, and it is pending or the queue lets it start.
  pub pipeline_run_only_when_idle :
      (namespace name : String) (d : CdStageDeploy)
      → client.get_cd_stage_deploy namespace name ≡ ok d
      → d.status.status ≢ failed
      → creates_run (reconcile package_ client templates auto_deploy namespace name).1 ≡ true
      → MayStart client d
  unfolding reconcile_fetched reconcile
  pipeline_run_only_when_idle namespace name d fetched live h =
      let (r, s) = chain (fresh d) in
      chain-MayStart d live (ground (arith, fetched, finish-creates_run d.status.status r s))

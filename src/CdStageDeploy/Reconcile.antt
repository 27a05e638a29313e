-- ===== src/CdStageDeploy/Reconcile.antt =====
-- chain/delete_cdstagedeploy.go, chain/chain.go, chain/factory.go and cdstagedeploy_controller.go:
-- the chain of handlers, and one reconciliation around it.
pub mod Diagram
pub mod Handlers
pub mod Retry
pub mod Safety
use edp_codebase_operator.Prelude.{
  ℕ, String, ◌++◌, List, [], ◌∷◌, Bool, true, false, not, ◌&&◌, Option, none, some, is_nil,
  if◌then◌else◌,
}
use edp_codebase_operator.Effects.{
  Error, Result, ok, err, wrap, is_not_found, or_wrap, Exec, pure, lift, gets, wrapping, branch,
  continue, ◌>>=◌, ◌>>◌, for_each,
}
use edp_codebase_operator.Api.{
  CdStageDeploy, DeployStatus, failed, running, pending, in_queue, completed, is_completed,
  set_failed_status,
}
use edp_codebase_operator.PipelineApi.{PipelinePackage}
use edp_codebase_operator.CdStageDeploy.Cluster.{
  Client, State, TriggerTemplateManager, AutoDeployManager, Request, send, delete, update_status,
}
use edp_codebase_operator.CdStageDeploy.Queue.{resolve_status}
use edp_codebase_operator.CdStageDeploy.Process.{process_trigger_template}

-- `client.IgnoreNotFound(err)`
abbrev ignore_not_found : Result Unit → Result Unit
ignore_not_found (ok u) = ok u
ignore_not_found (err e) = if is_not_found e then ok tt else err e

abbrev pub Handler : Type 0
Handler = Exec State Unit

-- `chain.ServeRequest`: the handlers in turn, until one fails.
unfoldable pub serve_chain : List Handler → Handler
unfolding for_each
serve_chain handlers = for_each handlers (wrapping "failed to serve handler")

abbrev pub status_eq : DeployStatus → DeployStatus → Bool
status_eq failed failed = true
status_eq running running = true
status_eq pending pending = true
status_eq in_queue in_queue = true
status_eq completed completed = true
status_eq _ _ = false

-- `reconcile.Result`: a delay in seconds, or none.
pub record Outcome : Type 0 where
  pub requeue_after : Option ℕ
  pub result : Result Unit

abbrev pub request_timeout : ℕ
request_timeout = 30

unfoldable pub delete_cd_stage_deploy : Client → Handler
delete_cd_stage_deploy client = do
  d ← gets (λ s. s.deploy)
  branch (not (is_completed d.status.status)) (pure tt) (
      wrapping "failed to delete CDStageDeploy"
        (send (delete d) (ignore_not_found (client.delete d))))

-- A refused status update is only logged.
unfoldable pub finish : DeployStatus → Result Unit → State → Outcome × List Request
unfolding set_failed_status
finish old (err e) s = (
  record { requeue_after = none; result = err (wrap "failed to process default chainFactory" e) },
  s.sent ++ update_status (set_failed_status e s.deploy) ∷ [],
)
finish old (ok u) s =
    let st = s.deploy.status.status in
    (
      record { requeue_after = some request_timeout; result = ok tt },
      if not (status_eq st old) && not (is_completed st)
          then s.sent ++ update_status s.deploy ∷ []
          else s.sent,
    )

module _ (package_ : PipelinePackage) (client : Client) (templates : TriggerTemplateManager)
    (auto_deploy : AutoDeployManager) where
  unfoldable pub create_chain : Handler
  unfolding serve_chain
  create_chain = serve_chain (
      resolve_status client
      ∷ process_trigger_template package_ client templates auto_deploy
      ∷ delete_cd_stage_deploy client
      ∷ [])

  unfoldable pub reconcile_fetched : Result CdStageDeploy → Outcome × List Request
  reconcile_fetched (err e) = (
    record {
      requeue_after = none;
      result =
          if is_not_found e then ok tt else err (wrap "failed to fetch CDStageDeploy resource" e);
    },
    [],
  )
  reconcile_fetched (ok d) =
      if not (is_nil d.deletion_timestamp)
      then (record { requeue_after = none; result = ok tt }, [])
      else let (r, s) = create_chain (record { deploy = d; sent = [] }) in
        finish d.status.status r s

  unfoldable pub reconcile : (namespace name : String) → Outcome × List Request
  unfolding reconcile_fetched
  reconcile namespace name = reconcile_fetched (client.get_cd_stage_deploy namespace name)

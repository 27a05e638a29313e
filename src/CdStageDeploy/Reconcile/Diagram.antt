-- ===== src/CdStageDeploy/Reconcile/Diagram.antt =====
-- The statuses that a reconciliation of cdstagedeploy_controller.go stores, and how a deployment ends.
use edp_codebase_operator.Prelude.{
  String, List, [], ◌∷◌, ◌++◌, Bool, true, false, Option, none, some, ◌≡◌, refl, inl, inr, arith,
  if◌then◌else◌, subst, Bool-cases, not, ◌&&◌,
}
use edp_codebase_operator.Effects.{Result, ok, err}
use edp_codebase_operator.Api.{
  CdStageDeploy, DeployStatus, failed, running, pending, in_queue, completed, set_status,
  set_failed_status, is_completed,
}
use edp_codebase_operator.PipelineApi.{PipelinePackage, PipelineRun}
use edp_codebase_operator.CdStageDeploy.Cluster.{
  Client, State, TriggerTemplateManager, AutoDeployManager, Request, create_pipeline_run, delete,
  update_status,
}
use edp_codebase_operator.CdStageDeploy.Queue.{resolve_status, all_pipeline_runs_completed}
use edp_codebase_operator.CdStageDeploy.Process.{process_trigger_template}
use edp_codebase_operator.CdStageDeploy.Reconcile.{
  status_eq, create_chain, delete_cd_stage_deploy, finish, reconcile_fetched, reconcile,
  request_timeout,
}
use edp_codebase_operator.CdStageDeploy.Reconcile.Handlers.{listed_runs, resolve_status-sent}

-- The transitions between stored statuses. Nothing leads to `pending` or `completed`: a deployment
-- that may leave the queue is started, and a completed one is deleted, in the same reconciliation.
infix 40 ◌⟶◌
pub data ◌⟶◌ : DeployStatus → DeployStatus → Type 0 where
  wait : pending ⟶ in_queue
  begin : pending ⟶ running
  leave_queue : in_queue ⟶ running
  retry : failed ⟶ running
  break : {st : DeployStatus} → st ⟶ failed

-- The status of the last status update.
unfoldable pub stored : List Request → Option DeployStatus → Option DeployStatus
stored [] last = last
stored (update_status d ∷ rs) last = stored rs (some d.status.status)
stored (_ ∷ rs) last = stored rs last

stored-append :
    (sent : List Request) (d : CdStageDeploy) (last : Option DeployStatus)
    → stored (sent ++ update_status d ∷ []) last ≡ some d.status.status
unfolding stored
stored-append [] d last = refl
stored-append (create_pipeline_run q ∷ sent) d last = stored-append sent d last
stored-append (delete q ∷ sent) d last = stored-append sent d last
stored-append (update_status q ∷ sent) d last = stored-append sent d (some q.status.status)

-- The handlers send no status update.
abbrev no_update : List Request → Bool
no_update [] = true
no_update (update_status d ∷ rs) = false
no_update (_ ∷ rs) = no_update rs

stored-no_update : (sent : List Request) → no_update sent ≡ true → stored sent none ≡ none
unfolding stored
stored-no_update [] h = refl
stored-no_update (create_pipeline_run q ∷ sent) h = stored-no_update sent h
stored-no_update (delete q ∷ sent) h = stored-no_update sent h
stored-no_update (update_status q ∷ sent) h = cc

-- What the first handler may make of a status.
abbrev resolves : DeployStatus → DeployStatus → Bool
resolves pending pending = true
resolves pending in_queue = true
resolves in_queue in_queue = true
resolves in_queue pending = true
resolves running running = true
resolves running completed = true
resolves failed failed = true
resolves completed completed = true
resolves _ _ = false

-- What the second handler makes of a status, with no error.
abbrev processes : DeployStatus → DeployStatus → Bool
processes pending running = true
processes pending completed = true
processes failed running = true
processes failed completed = true
processes in_queue in_queue = true
processes running running = true
processes completed completed = true
processes _ _ = false

-- What the chain may make of a status, with no error.
abbrev leads : DeployStatus → DeployStatus → Bool
leads pending in_queue = true
leads pending running = true
leads in_queue in_queue = true
leads in_queue running = true
leads running running = true
leads failed running = true
leads _ completed = true
leads _ _ = false

module _ (package_ : PipelinePackage) (client : Client) (templates : TriggerTemplateManager)
    (auto_deploy : AutoDeployManager) where
  resolve_status-resolves :
      (s : State)
      → resolves s.deploy.status.status (resolve_status client s).1.deploy.status.status ≡ true
  unfolding resolve_status
  resolve_status-resolves s = ground arith

  delete-deploy : (s : State) → (delete_cd_stage_deploy client s).1.deploy ≡ s.deploy
  unfolding delete_cd_stage_deploy
  delete-deploy s = ground arith

  process-processes :
      (s : State)
      → let (r, s') = process_trigger_template package_ client templates auto_deploy s in
        r ≡ ok tt → processes s.deploy.status.status s'.deploy.status.status ≡ true
  unfolding process_trigger_template
  process-processes s h = ground arith

  chain-leads :
      (s : State)
      → let (r, s') = create_chain package_ client templates auto_deploy s in
        r ≡ ok tt → leads s.deploy.status.status s'.deploy.status.status ≡ true
  unfolding create_chain
  chain-leads s h =
      let s₁ = (resolve_status client s).1 in
      let s₂ = (process_trigger_template package_ client templates auto_deploy s₁).1 in
      ground (arith, resolve_status-resolves s, process-processes s₁, delete-deploy s₂)

  chain-no_update :
      (d : CdStageDeploy)
      → no_update
          (create_chain package_ client templates auto_deploy
            (record { deploy = d; sent = [] })).1.sent
        ≡ true
  unfolding create_chain process_trigger_template delete_cd_stage_deploy
  chain-no_update d = ground (arith, resolve_status-sent client (record { deploy = d; sent = [] }))

edge :
    (old new : DeployStatus)
    → leads old new ≡ true
    → (not (status_eq new old) && not (is_completed new)) ≡ true
    → old ⟶ new
edge pending in_queue l h = wait
edge pending running l h = begin
edge in_queue running l h = leave_queue
edge failed running l h = retry
edge _ _ l h = absurd (ground arith)

some-eq : {a b : DeployStatus} {o : Option DeployStatus} → o ≡ some a → o ≡ some b → a ≡ b
some-eq p q = cc

finish-stored :
    (old : DeployStatus) (r : Result Unit) (s : State)
    → no_update s.sent ≡ true
    → (r ≡ ok tt → leads old s.deploy.status.status ≡ true)
    → (st : DeployStatus) → stored (finish old r s).1 none ≡ some st
    → old ⟶ st
unfolding finish
finish-stored old (err e) s clean led st h =
    subst (λ x. old ⟶ x) (some-eq (stored-append s.sent (set_failed_status e s.deploy) none) h)
      break
finish-stored old (ok u) s clean led st h =
    let new = s.deploy.status.status in
    elim (Bool-cases (not (status_eq new old) && not (is_completed new))) [
      | inl changed ↦
          subst (λ x. old ⟶ x)
            (some-eq (stored-append s.sent s.deploy none) (rw (changed, if◌then◌else◌) at h))
            (edge old new (led refl) changed)
      | inr same ↦ absurd (ground (arith, stored-no_update s.sent clean))
    ]

module _ (package_ : PipelinePackage) (client : Client) (templates : TriggerTemplateManager)
    (auto_deploy : AutoDeployManager) where
  -- Whatever the cluster answers, a status that a reconciliation stores for a deployment follows the
  -- diagram from the status that was fetched.
  pub stored_follows_diagram :
      (namespace name : String) (d : CdStageDeploy) (st : DeployStatus)
      → client.get_cd_stage_deploy namespace name ≡ ok d
      → stored (reconcile package_ client templates auto_deploy namespace name).1 none ≡ some st
      → d.status.status ⟶ st
  unfolding reconcile_fetched reconcile stored
  stored_follows_diagram namespace name d st fetched h =
      let s : State = record { deploy = d; sent = [] } in
      let (r, s') = create_chain package_ client templates auto_deploy s in
      finish-stored d.status.status r s' (chain-no_update package_ client templates auto_deploy d)
        (chain-leads package_ client templates auto_deploy s) st (ground arith)

  -- A deployment that runs is deleted, with its status completed, once every listed pipeline run of
  -- its stage has completed, where the API server accepts the deletion; until then nothing is sent.
  -- In both cases the reconciliation succeeds and comes back after the timeout.
  pub running_until_completed :
      (namespace name : String) (d : CdStageDeploy) (runs : List PipelineRun)
      → client.get_cd_stage_deploy namespace name ≡ ok d
      → d.deletion_timestamp ≡ none
      → d.status.status ≡ running
      → listed_runs client d ≡ ok runs
      → client.delete (set_status completed d) ≡ ok tt
      → reconcile package_ client templates auto_deploy namespace name ≡ (
        record { requeue_after = some request_timeout; result = ok tt },
        if all_pipeline_runs_completed runs then delete (set_status completed d) ∷ [] else [],
      )
  unfolding reconcile reconcile_fetched finish create_chain resolve_status process_trigger_template
      delete_cd_stage_deploy
  running_until_completed namespace name d runs fetched alive runs_ listed deleted = ground arith

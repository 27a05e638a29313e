-- ===== src/CdStageDeploy/Queue.antt =====
-- chain/resolve_status.go: may this deployment start, must it wait, or is it done?
pub mod Order
use edp_codebase_operator.Prelude.{
  ℕ, String, ◌++◌ as append, List, [], ◌∷◌, Bool, true, false, not, Option, none, some, all,
  is_empty, is_nil, ltb, ◌==◌, if◌then◌else◌,
}
use edp_codebase_operator.Effects.{
  Result, ok, err, or_wrap, and_then, Exec, pure, lift, gets, modify, wrapping, branch, continue,
  ◌>>=◌, ◌>>◌,
}
use edp_codebase_operator.Api.{
  CdStageDeploy, DeployStatus, in_queue, pending, completed, is_failed, is_pending, is_in_queue,
  is_running, set_status, get_stage_cr_name,
}
use edp_codebase_operator.PipelineApi.{PipelineRun}
use edp_codebase_operator.CdStageDeploy.Cluster.{Client, State}

abbrev pub max_pipeline_runs : ℕ
max_pipeline_runs = 500

unfoldable pub all_pipeline_runs_completed : List PipelineRun → Bool
unfolding all
all_pipeline_runs_completed runs = all runs (λ r. not (is_nil r.completion_time))

unfoldable pub all_cd_stage_deploys_in_que : List CdStageDeploy → Bool
unfolding all
all_cd_stage_deploys_in_que deploys = all deploys (λ d. is_in_queue d.status.status)

-- `stageDeploy.Status.Status = st`
unfoldable pub become : DeployStatus → Exec State Unit
unfolding set_status
become st = modify (λ s. record s { deploy = set_status st s.deploy })

-- The loop of `isFirsCdStageDeployInQue`; `none` is the nil `firstDeploy`.
abbrev earlier : Option CdStageDeploy → CdStageDeploy → CdStageDeploy
earlier none d = d
earlier (some f) d = if ltb d.creation_timestamp f.creation_timestamp then d else f

pub first_deploy : Option CdStageDeploy → List CdStageDeploy → Option CdStageDeploy
first_deploy first [] = first
first_deploy first (d ∷ ds) = first_deploy (some (earlier first d)) ds

abbrev named : Option CdStageDeploy → String → Bool
named none name = false
named (some d) name = d.name == name

unfoldable pub is_firs_cd_stage_deploy_in_que : List CdStageDeploy → String → Bool
unfolding first_deploy
is_firs_cd_stage_deploy_in_que deploys name =
    if is_empty deploys then false else named (first_deploy none deploys) name

module _ (client : Client) where
  unfoldable pub get_running_pipelines : CdStageDeploy → Result (List PipelineRun)
  unfolding get_stage_cr_name
  get_running_pipelines d = or_wrap "failed to list PipelineRuns" (
      client.list_pipeline_runs d.namespace d.spec.pipeline (get_stage_cr_name d) max_pipeline_runs)

  unfoldable pub should_start_cd_stage_deploy :
      (name stage pipeline namespace : String) → List PipelineRun → Result Bool
  should_start_cd_stage_deploy name stage pipeline namespace pipelines =
      if not (all_pipeline_runs_completed pipelines)
      then ok false
      else and_then
          (or_wrap "failed to list CDStageDeploys"
            (client.list_cd_stage_deploys namespace pipeline stage))
          λ deploys.
            if not (all_cd_stage_deploys_in_que deploys)
            then ok false
            else if not (is_firs_cd_stage_deploy_in_que deploys name)
            then ok false
            else ok true

  -- The branches of `ServeRequest` behind the listing of the pipeline runs.
  unfoldable pub resolve : CdStageDeploy → List PipelineRun → Exec State Unit
  unfolding become
  resolve d runs =
      branch (is_pending d.status.status)
        (branch (all_pipeline_runs_completed runs) (pure tt) (become in_queue))
        (branch (is_in_queue d.status.status)
          (do
            should_start ← wrapping "failed to check running CDStageDeploys" (
                lift (
                  should_start_cd_stage_deploy d.name (get_stage_cr_name d) d.spec.pipeline
                    d.namespace runs))
            branch should_start (become pending) (pure tt))
          (branch (is_running d.status.status)
            (branch (all_pipeline_runs_completed runs) (become completed) (pure tt)) (pure tt)))

  unfoldable pub resolve_status : Exec State Unit
  unfolding get_running_pipelines resolve
  resolve_status = do
    d ← gets (λ s. s.deploy)
    branch (is_failed d.status.status) (pure tt) do
      runs ← wrapping "failed to get running pipelines" (lift (get_running_pipelines d))
      resolve d runs

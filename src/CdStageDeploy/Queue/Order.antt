-- ===== src/CdStageDeploy/Queue/Order.antt =====
-- Who is first in the queue of chain/resolve_status.go.
use native.Mathlib.Nat.{le_trans}
use edp_codebase_operator.Prelude.{
  ◌≤◌, String, List, [], ◌∷◌, true, false, some, Memᴰ, mem-cons_cases, is_empty, ◌≡◌, refl, ◌==◌,
  eq_iff, ◌↔◌, ◌⊎◌, inl, inr, arith,
}
use edp_codebase_operator.Effects.{ok}
use edp_codebase_operator.Api.{CdStageDeploy}
use edp_codebase_operator.PipelineApi.{PipelineRun}
use edp_codebase_operator.CdStageDeploy.Cluster.{Client}
use edp_codebase_operator.CdStageDeploy.Queue.{
  first_deploy, earlier, is_firs_cd_stage_deploy_in_que, should_start_cd_stage_deploy,
  all_pipeline_runs_completed, all_cd_stage_deploys_in_que,
}

-- `d` is an item of the list that no item was created before.
pub record IsOldest (d : CdStageDeploy) (deploys : List CdStageDeploy) : Type 0 where
  pub listed : Memᴰ d deploys
  pub oldest : (e : CdStageDeploy) → Memᴰ e deploys → d.creation_timestamp ≤ e.creation_timestamp

earlier-cases :
    (f e : CdStageDeploy)
    → let g = earlier (some f) e in
      ((g ≡ f) ⊎ (g ≡ e))
      × (g.creation_timestamp ≤ f.creation_timestamp)
      × (g.creation_timestamp ≤ e.creation_timestamp)
earlier-cases f e = ground arith

IsOldest-cons :
    (d f e : CdStageDeploy) (ds : List CdStageDeploy)
    → IsOldest d (earlier (some f) e ∷ ds)
    → IsOldest d (f ∷ e ∷ ds)
IsOldest-cons d f e ds h =
    let (which, le_f, le_e) = earlier-cases f e in
    let le_g = h.oldest (earlier (some f) e) (Memᴰ.head refl) in
    record {
      listed = elim (mem-cons_cases h.listed) [
        | inl q ↦ elim which [ inl w ↦ Memᴰ.head (cc) | inr w ↦ Memᴰ.tail (Memᴰ.head (cc)) ]
        | inr m ↦ Memᴰ.tail (Memᴰ.tail m)
      ];
      oldest = λ x m. elim (mem-cons_cases m) [
        | inl q ↦ rw q (le_trans le_g le_f)
        | inr n ↦ elim (mem-cons_cases n) [
          | inl q ↦ rw q (le_trans le_g le_e)
          | inr k ↦ h.oldest x (Memᴰ.tail k)
        ]
      ];
    }

first_deploy-IsOldest :
    (f : CdStageDeploy) (ds : List CdStageDeploy)
    → (d : CdStageDeploy) × (first_deploy (some f) ds ≡ some d) × IsOldest d (f ∷ ds)
unfolding first_deploy
first_deploy-IsOldest f [] = (
  f,
  refl,
  record {
    listed = Memᴰ.head refl;
    oldest = λ x m. elim (mem-cons_cases m) [ inl q ↦ rw q (omega arith) | inr n ↦ elim n [ ] ];
  },
)
first_deploy-IsOldest f (e ∷ ds) =
    let (d, eq, h) = first_deploy-IsOldest (earlier (some f) e) ds in
    (d, eq, IsOldest-cons d f e ds h)

-- A nonempty queue has an oldest item, whose name alone passes the test for the first.
pub first_in_queue :
    (deploys : List CdStageDeploy)
    → is_empty deploys ≡ false
    → (d : CdStageDeploy) × IsOldest d deploys
      × ((name : String) → is_firs_cd_stage_deploy_in_que deploys name ≡ (d.name == name))
unfolding is_firs_cd_stage_deploy_in_que
first_in_queue [] h = cc
first_in_queue (f ∷ ds) h =
    let (d, eq, oldest) = first_deploy-IsOldest f ds in (d, oldest, λ name. rw eq)

-- Where every pipeline run of the stage has completed and every deployment listed for it waits in
-- the queue, exactly one name may start: that of a deployment that no listed one is older than.
pub queue_progress :
    (client : Client) (stage pipeline namespace : String) (runs : List PipelineRun)
    (deploys : List CdStageDeploy)
    → client.list_cd_stage_deploys namespace pipeline stage ≡ ok deploys
    → all_pipeline_runs_completed runs ≡ true
    → all_cd_stage_deploys_in_que deploys ≡ true
    → is_empty deploys ≡ false
    → (d : CdStageDeploy) × IsOldest d deploys
      × ((name : String)
          → (should_start_cd_stage_deploy client name stage pipeline namespace runs ≡ ok true)
            ↔ (name ≡ d.name))
unfolding should_start_cd_stage_deploy
queue_progress client stage pipeline namespace runs deploys listed done queued some_wait =
    let (d, oldest, first) = first_in_queue deploys some_wait in
    (d, oldest, λ name. rw (listed, done, queued) (ground (arith, first name, eq_iff d.name name)))

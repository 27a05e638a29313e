-- ===== src/Examples/Reconciles.antt =====
-- The theorems on the reconciliation of a branch at one branch, new or being deleted.
use edp_codebase_operator.Prelude.{
  ℕ, String, suc, zero, false, [], ◌∷◌, some, ◌≡◌, refl, inl, inr, Bool-cases, lookup, contains,
  any, ◌*◌, get_or_empty,
}
use edp_codebase_operator.Effects.{Error, is_reconcile_error, Result, ok, err, wrap, new, branch}
use edp_codebase_operator.Api.Codebase.{CodebaseBranch}
use edp_codebase_operator.BranchChain.{BranchClient, State, Handler}
use edp_codebase_operator.BranchChain.Git.{serve_check_reference, serve_put_branch, put_branch}
use edp_codebase_operator.BranchChain.Versions.{
  serve_new_version, process_new_version, has_new_version,
}
use edp_codebase_operator.BranchChain.ImageStreams.{
  serve_image_stream_of_branch, create_codebase_image_stream_if_not_exists,
  get_codebase_image_stream, label_existing,
}
use edp_codebase_operator.BranchChain.Chain.{get_chain}
use edp_codebase_operator.ImageStream.{get_codebase_image_stream_by_codebase_base_branch_name}
use edp_codebase_operator.BranchController.{BranchCluster}
use edp_codebase_operator.BranchController.Parts.{
  pipelines_is_set, set_default_values, set_label, with_codebase_labels, has_codebase_labels,
  add_codebase_label, update_branch_status, set_success_status, stored_with, success_status,
}
use edp_codebase_operator.BranchController.Removal.{
  Retried, is_conflict, remove_attempt, release_branch, add_missing_finalizer,
  try_to_delete_codebase_branch, get_deletion_chain, empty_chain,
}
use edp_codebase_operator.BranchController.Reconcile.{
  init_build, serve_branch_chain, delete_or_serve, serve_branch, reconcile_with_codebase,
  reconcile_orphan, reconcile_fetched_branch,
}
use edp_codebase_operator.BranchController.Defaults.{defaults_set_once}
use edp_codebase_operator.BranchController.Kept.{IsAt}
use edp_codebase_operator.BranchController.Released.{IsReleased, deleted_branch-IsReleased}
use edp_codebase_operator.BranchController.Outcome.{Stores, Finished, Counted, chain_error-Counted}
use edp_codebase_operator.BranchController.Finished.{reconciled_branch-Finished}
use edp_codebase_operator.Examples.Chains.{client, fresh, app}

-- Retries on a conflict, a bounded number of times.
unfoldable retry_times : ℕ → Handler → Handler
retry_times zero f s = f s
retry_times (suc n) f s =
    let rest = retry_times n f in let (r, s') = f s in branch (is_conflict r) rest (λ t. (r, t)) s'

retry_times-Retried : (n : ℕ) (f : Handler) (s : State) → Retried f s (retry_times n f s)
unfolding retry_times
retry_times-Retried zero f s = Retried.last_run
retry_times-Retried (suc n) f s = elim (Bool-cases (is_conflict (f s).0)) [
  | inl e ↦ rw (e, branch) (Retried.run_again e (retry_times-Retried n f (f s).1))
  | inr e ↦ rw (e, branch) Retried.last_run
]

-- The branch with its pipelines.
abbrev piped : CodebaseBranch
piped = record fresh {
  spec = record (fresh.spec) { pipelines = ("review", "r") ∷ ("build", "b") ∷ [] };
}

abbrev deleted : CodebaseBranch
deleted = record piped {
  meta = record (piped.meta) {
    deletion_timestamp = some 5;
    finalizers = "other" ∷ "codebase.branch.operator.finalizer.name" ∷ [];
  };
}

-- The branch under the name that it is asked for.
abbrev named : (namespace name : String) → CodebaseBranch → CodebaseBranch
named namespace name b = record b { meta = record (b.meta) { namespace = namespace; name = name } }

named-IsAt :
    (ns n : String) (b fetched : CodebaseBranch)
    → ok (named ns n b) ≡ ok fetched
    → IsAt ns n fetched
named-IsAt ns n b fetched e = let q : named ns n b ≡ fetched = cc in rw (← q) (refl, refl)

ok-same :
    (b owned : CodebaseBranch)
    → ok b ≡ ok owned
    → (owned.meta.deletion_timestamp ≡ b.meta.deletion_timestamp) × IsAt b.namespace b.name owned
ok-same b owned e = let q : b ≡ owned = cc in rw (← q) (refl, (refl, refl))

abbrev cluster_of : BranchClient → CodebaseBranch → BranchCluster
cluster_of cl b = record {
  chain_client = cl;
  get_branch = λ _ namespace name. ok (named namespace name b);
  set_controller_reference = λ _ owned. ok owned;
  branch_hash = λ s. s;
  scale_by_e = λ base n. base * n;
  retry_on_conflict = retry_times 4;
}

abbrev state_of : CodebaseBranch → State
state_of b = record { branch = b; sent = [] }

deleted_branch-IsReleased_example :
    IsReleased "ns" "app-branch"
      (reconcile_fetched_branch (cluster_of client deleted) (state_of deleted)).1.sent
unfolding reconcile_fetched_branch reconcile_with_codebase reconcile_orphan set_default_values
    serve_branch delete_or_serve try_to_delete_codebase_branch get_deletion_chain empty_chain
    release_branch retry_times remove_attempt is_conflict add_codebase_label has_codebase_labels
    pipelines_is_set lookup get_or_empty
deleted_branch-IsReleased_example =
    deleted_branch-IsReleased (cluster_of client deleted)
      (λ before ns n b e. named-IsAt ns n deleted b e) (retry_times-Retried 4)
      (λ codebase b owned e. ok-same b owned e) (state_of deleted) refl refl refl

reconciled_branch-Finished_example :
    Stores
      (cluster_of client piped)
      "ns"
      "app-branch"
      Finished
      (reconcile_fetched_branch (cluster_of client piped) (state_of piped)).1.sent
unfolding reconcile_fetched_branch reconcile_with_codebase reconcile_orphan set_default_values
    serve_branch delete_or_serve try_to_delete_codebase_branch get_deletion_chain empty_chain
    init_build serve_branch_chain add_missing_finalizer contains any set_success_status
    success_status update_branch_status stored_with add_codebase_label has_codebase_labels
    pipelines_is_set lookup get_or_empty get_chain serve_check_reference serve_put_branch put_branch
    serve_new_version process_new_version has_new_version serve_image_stream_of_branch
    create_codebase_image_stream_if_not_exists get_codebase_image_stream label_existing
    get_codebase_image_stream_by_codebase_base_branch_name with_codebase_labels set_label
reconciled_branch-Finished_example =
    reconciled_branch-Finished (cluster_of client piped) (λ codebase b owned e. ok-same b owned e)
      (state_of piped) refl refl refl

-- A cluster without the git server of the codebase.
abbrev serverless : BranchClient
serverless = record client { get_git_server = λ _ _. err (new "no git server") }

abbrev error_of : Result Unit → Error
error_of (ok done) = new ""
error_of (err e) = e

abbrev chain_error : Error
chain_error = error_of (get_chain serverless (state_of piped)).0

chain_error-Counted_example :
    let c = cluster_of serverless piped in
    ((serve_branch_chain c (state_of piped)).0
      ≡ err (wrap "failed to process default chain" chain_error))
    × Stores c "ns" "app-branch" (Counted 0) (serve_branch_chain c (state_of piped)).1.sent
unfolding init_build serve_branch_chain add_missing_finalizer contains any set_success_status
    success_status update_branch_status stored_with add_codebase_label has_codebase_labels
    pipelines_is_set lookup get_or_empty get_chain serve_check_reference serve_put_branch put_branch
    serve_new_version process_new_version has_new_version serve_image_stream_of_branch
    create_codebase_image_stream_if_not_exists get_codebase_image_stream label_existing
    get_codebase_image_stream_by_codebase_base_branch_name with_codebase_labels set_label
    is_reconcile_error
chain_error-Counted_example =
    chain_error-Counted (cluster_of serverless piped) (state_of piped) chain_error piped refl refl
      refl

defaults_set_once_example :
    let c = cluster_of client fresh in
    let after = (set_default_values c app (state_of fresh)).1 in
    set_default_values c app after ≡ (ok false, after)
unfolding set_default_values pipelines_is_set lookup
defaults_set_once_example = defaults_set_once (cluster_of client fresh) app (state_of fresh) refl

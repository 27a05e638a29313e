-- ===== src/BranchController/Removal.antt =====
-- tryToDeleteCodebaseBranch of codebasebranch_controller.go, and chain/empty: the finalizer.
use Prim.Native.String.{◌++◌}
use edp_codebase_operator.Prelude.{
  ℕ, String, List, [], ◌∷◌, ◌++◌ as append, Bool, true, false, not, Option, none, some, select,
  contains, is_nil, ◌≡◌, ◌==◌,
}
use edp_codebase_operator.Effects.{
  Error, conflict, wrap, api, Result, ok, err, new, is, job_failed, Exec, attempt, pure, fail, lift,
  gets, modify, wrapping, branch, ◌>>=◌, ◌>>◌,
}
use edp_codebase_operator.Api.Codebase.{CodebaseBranch}
use edp_codebase_operator.BranchChain.{State, Handler, send, update, update_status, rescue}
use edp_codebase_operator.BranchController.{BranchCluster}
use edp_codebase_operator.BranchController.Parts.{set_failure_count}

abbrev pub finalizer_name : String
finalizer_name = "codebase.branch.operator.finalizer.name"

abbrev pub set_finalizers : (List String → List String) → CodebaseBranch → CodebaseBranch
set_finalizers f b = record b { meta = record (b.meta) { finalizers = f b.meta.finalizers } }

-- `controllerutil.AddFinalizer` where the finalizer is missing, and `RemoveFinalizer`
abbrev pub add_finalizer : CodebaseBranch → CodebaseBranch
add_finalizer = set_finalizers (λ xs. append xs (finalizer_name ∷ []))

abbrev pub remove_finalizer : CodebaseBranch → CodebaseBranch
remove_finalizer = set_finalizers (λ xs. select xs (λ x. not (x == finalizer_name)))

-- `empty.MakeChain(log_message, return_error)`
unfoldable pub empty_chain : (log_message : String) → (return_error : Bool) → Handler
empty_chain log_message return_error = branch return_error (fail (new log_message)) (pure tt)

-- `GetDeletionChain`
unfoldable pub get_deletion_chain : Handler
get_deletion_chain = empty_chain "no deletion chain for tekton" false

-- `k8sErrors.IsConflict(err)`
unfoldable pub is_conflict : Result Unit → Bool
is_conflict (err (api conflict t)) = true
is_conflict (err (wrap t e)) = is_conflict (err e)
is_conflict _ = false

-- The answer of `retry.RetryOnConflict(backoff, f)`: that of the last run of `f`, every run before which
-- ended in a conflict.
pub data Retried (f : Handler) : State → Result Unit × State → Type 0 where
  last_run : {s : State} → Retried f s (f s)
  run_again :
      {s : State} {r : Result Unit × State}
      → is_conflict (f s).0 ≡ true
      → Retried f (f s).1 r
      → Retried f s r

abbrev pub fetch_and_remove : CodebaseBranch → State → State
fetch_and_remove fetched s = record s { branch = remove_finalizer fetched }

module _ (c : BranchCluster) where
  -- The function that is retried on a conflict.
  unfoldable pub remove_attempt : Handler
  remove_attempt = do
    b ← gets (λ s. s.branch)
    before ← gets (λ s. s.sent)
    fetched ← lift (c.get_branch before b.namespace b.name)
    modify (fetch_and_remove fetched)
    b' ← gets (λ s. s.branch)
    send (update b') (c.chain_client.update b')

  unfoldable pub add_missing_finalizer : Handler
  add_missing_finalizer = do
    b ← gets (λ s. s.branch)
    branch (contains b.meta.finalizers finalizer_name) (pure tt) do
      modify (λ s. record s { branch = add_finalizer s.branch })
      b' ← gets (λ s. s.branch)
      wrapping ("failed to add finalizer to " ++ b.name)
          (send (update b') (c.chain_client.update b'))

  -- The count of failures is stored after the deletion job has failed, and an error of this is logged.
  unfoldable pub count_job_failure : Exec State ℕ
  unfolding set_failure_count
  count_job_failure = do
    timeout ← set_failure_count c
    b ← gets (λ s. s.branch)
    rescue (send (update_status b) (c.chain_client.update_status b)) (λ e. pure tt)
    pure timeout

  unfoldable pub release_branch : Exec State (Option ℕ)
  release_branch = do
    b ← gets (λ s. s.branch)
    wrapping ("failed to remove finalizer from " ++ b.name) (c.retry_on_conflict (remove_attempt))
    pure (some 0)

  -- `tryToDeleteCodebaseBranch`; `none` is the result nil. An error of the deletion chain other than the
  -- failed job is dropped.
  unfoldable pub on_deletion_error : Error → Exec State (Option ℕ)
  on_deletion_error e =
      branch (is job_failed e) (count_job_failure >>= λ t. pure (some t)) release_branch

  abbrev pub after_deletion : Result Unit → Exec State (Option ℕ)
  after_deletion (ok done) = release_branch
  after_deletion (err e) = on_deletion_error e

  unfoldable pub try_to_delete_codebase_branch : (deletion_chain : Handler) → Exec State (Option ℕ)
  try_to_delete_codebase_branch deletion_chain = do
    b ← gets (λ s. s.branch)
    branch (is_nil b.meta.deletion_timestamp) (add_missing_finalizer >> pure none)
        do answer ← attempt deletion_chain; after_deletion answer

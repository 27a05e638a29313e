-- ===== src/BranchController/Reconcile.antt =====
-- Reconcile of codebasebranch_controller.go.
use Prim.Native.String.{◌++◌}
use edp_codebase_operator.Prelude.{ℕ, String, List, [], not, ◌&&◌, Option, none, some, is_nil, ◌*◌}
use edp_codebase_operator.Effects.{
  Error, error_text, Result, ok, err, new, wrap, is_not_found, is_reconcile_error, Exec, attempt,
  pure, fail, gets, modify, wrapping, branch, ◌>>=◌, ◌>>◌,
}
use edp_codebase_operator.Api.Codebase.{
  Codebase, CodebaseBranch, CodebaseBranchStatus, is_version_type_semver,
}
use edp_codebase_operator.BranchChain.{State, Request, Handler, send, update, set_branch_status}
use edp_codebase_operator.BranchChain.Chain.{get_chain}
use edp_codebase_operator.BranchController.{BranchCluster, second}
use edp_codebase_operator.BranchController.Parts.{
  set_default_values, add_codebase_label, update_branch_status, set_success_status,
  set_failure_count, set_error_status,
}
use edp_codebase_operator.BranchController.Removal.{
  get_deletion_chain, try_to_delete_codebase_branch,
}

-- `reconcile.Result{}` for the result nil of the deletion
abbrev pub or_zero : Option ℕ → ℕ
or_zero none = 0
or_zero (some t) = t

-- `if result != nil { return *result, nil }`
abbrev pub or_result : Option ℕ → Exec State ℕ → Exec State ℕ
or_result none rest s = rest s
or_result (some t) rest s = (ok t, s)

abbrev pub start_build : CodebaseBranchStatus → CodebaseBranchStatus
start_build st = record st { build = some "0" }

-- The error of setting the owner is overwritten by the answer of storing the status, and the verb `%w`
-- prints "%!w(<nil>)" at nil.
abbrev pub owner_error : (name : String) → Result Unit → Error
owner_error name (ok done) =
    new ("failed to set OwnerRef for codebasebranch " ++ name ++ ": %!w(<nil>)")
owner_error name (err e) = wrap ("failed to set OwnerRef for codebasebranch " ++ name) e

module _ (c : BranchCluster) where
  unfoldable pub init_build : Codebase → Handler
  init_build codebase = do
    b ← gets (λ s. s.branch)
    branch (is_version_type_semver codebase.spec && is_nil b.status.build)
        (modify (set_branch_status start_build)) (pure tt)

  -- An error of the chain: a branch whose codebase is not available is tried again soon; any other
  -- failure is counted, and an error of storing the count is logged.
  unfoldable pub on_chain_error : Error → Exec State ℕ
  on_chain_error e = branch (is_reconcile_error e) (pure (5 * second)) do
    timeout ← set_failure_count c
    stored ← attempt (update_branch_status c)
    fail (wrap "failed to process default chain" e)

  abbrev pub after_chain : Result Unit → Exec State ℕ
  after_chain (ok done) = do
    b ← gets (λ s. s.branch)
    wrapping ("failed to update Codebase " ++ b.name ++ " branch status")
        (set_success_status c "ci_configuration")
    pure 0
  after_chain (err e) = on_chain_error e

  unfoldable pub serve_branch_chain : Exec State ℕ
  serve_branch_chain = do answer ← attempt (get_chain c.chain_client); after_chain answer

  abbrev pub set_owner_ref : Result CodebaseBranch → Handler
  set_owner_ref (ok owned) = modify (λ s. record s { branch = owned })
  set_owner_ref (err e) = do
    b ← gets (λ s. s.branch)
    modify (
        set_branch_status
          (set_error_status (error_text (wrap "failed to set owner ref for CodebaseBranch CR" e))))
    answer ← attempt (update_branch_status c)
    fail (owner_error b.name answer)

  unfoldable pub delete_or_serve : Codebase → Exec State ℕ
  delete_or_serve codebase = do
    b ← gets (λ s. s.branch)
    result ←
        wrapping ("failed to remove codebasebranch " ++ b.name)
          (try_to_delete_codebase_branch c get_deletion_chain)
    or_result result (init_build codebase >> serve_branch_chain)

  -- The default values are stored, which starts another reconciliation.
  unfoldable pub store_defaults : Exec State ℕ
  store_defaults = do
    b ← gets (λ s. s.branch)
    wrapping "failed to update CodebaseBranch" (send (update b) (c.chain_client.update b))
    pure 0

  -- An error of the labels is logged.
  unfoldable pub serve_branch : Codebase → Exec State ℕ
  serve_branch codebase = do
    b ← gets (λ s. s.branch)
    set_owner_ref (c.set_controller_reference codebase b)
    labelled ← attempt (add_codebase_label c codebase.name)
    delete_or_serve codebase

  -- `Reconcile` from the default values on
  unfoldable pub reconcile_with_codebase : Codebase → Exec State ℕ
  reconcile_with_codebase codebase = do
    updated ← wrapping "failed to set default values" (set_default_values c codebase)
    branch updated store_defaults (serve_branch codebase)

  unfoldable pub delete_orphan : Exec State ℕ
  delete_orphan = do
    b ← gets (λ s. s.branch)
    result ←
        wrapping ("failed to remove codebasebranch " ++ b.name)
          (try_to_delete_codebase_branch c get_deletion_chain)
    pure (or_zero result)

  -- The codebase is gone: what is left is to release a branch that is being deleted.
  unfoldable pub reconcile_orphan : Error → Exec State ℕ
  reconcile_orphan e = do
    b ← gets (λ s. s.branch)
    branch (is_not_found e && not (is_nil b.meta.deletion_timestamp)) delete_orphan
        (fail (wrap "failed to get Codebase" e))

  abbrev pub on_codebase : Result Codebase → Exec State ℕ
  on_codebase (ok codebase) = reconcile_with_codebase codebase
  on_codebase (err e) = reconcile_orphan e

  unfoldable pub reconcile_fetched_branch : Exec State ℕ
  reconcile_fetched_branch = do
    b ← gets (λ s. s.branch)
    on_codebase (c.chain_client.get_codebase b.namespace b.spec.codebase_name)

  abbrev pub on_branch : (request : String) → Result CodebaseBranch → Result ℕ × List Request
  on_branch request (ok b) =
      let (r, s) = reconcile_fetched_branch (record { branch = b; sent = [] }) in (r, s.sent)
  on_branch request (err e) =
      branch (is_not_found e) (pure 0)
        (fail (wrap ("failed to fetch CodebaseBranch resource \"" ++ request ++ "\"") e)) []

  unfoldable pub reconcile_branch : (namespace name : String) → Result ℕ × List Request
  reconcile_branch namespace name =
      on_branch (namespace ++ "/" ++ name) (c.get_branch [] namespace name)

-- ===== src/CodebaseChain/Controller.antt =====
-- controllers/codebase/codebase_controller.go and chain/factory.go: one reconciliation of a codebase.
-- `hash` stands for the hexadecimal SHA-256 sum of a text, cut to 32 digits, and `scale_by_e` is that of
-- BranchController.
pub mod Available
pub mod Failed
pub mod Protocol
pub mod Ledger
pub mod Steps
pub mod Provisioned
use Prim.Native.String.{◌++◌}
use text.Mathlib.Text.{starts_with}
use edp_codebase_operator.Prelude.{
  ℕ, String, List, [], ◌∷◌, ◌++◌ as append, Bool, true, false, not, ◌&&◌, ◌||◌, Option, none, some,
  is_nil, lookup, insert, get_or_empty, Dict, select, contains, ◌+◌, ◌*◌, ◌==◌, if◌then◌else◌,
}
use edp_codebase_operator.Effects.{
  Error, Result, ok, err, wrap, is_not_found, Exec, attempt, pure, fail, lift, gets, modify,
  wrapping, branch, continue, for_each, ◌>>=◌, ◌>>◌,
}
use edp_codebase_operator.Api.Codebase.{Codebase, CodebaseStatus}
use edp_codebase_operator.BranchController.{get_timeout, second}
use edp_codebase_operator.BranchController.Parts.{to_lower, insert_missing}
use edp_codebase_operator.CodebaseChain.{
  World, State, Action, Handler, act, set_codebase, update_codebase, update_codebase_status,
  patch_codebase, remove_directory,
}
use edp_codebase_operator.CodebaseChain.Modifier.{apply}
use edp_codebase_operator.CodebaseChain.Status.{set_codebase_status, get_web_hook_ref}
use edp_codebase_operator.CodebaseChain.Repository.{get_work_dir}
use edp_codebase_operator.CodebaseChain.Project.{put_project}
use edp_codebase_operator.CodebaseChain.Configs.{put_deploy_configs, put_gitlab_ci_config}
use edp_codebase_operator.CodebaseChain.WebHooks.{
  put_git_web_repo_url, put_web_hook, delete_codebase_web_hook,
}
use edp_codebase_operator.CodebaseChain.Cleaning.{clean_data, put_default_codebase_branch}

abbrev pub codebase_finalizer : String
codebase_finalizer = "codebase.operator.finalizer.name"

abbrev pub type_label : String
type_label = "app.edp.epam.com/codebaseType"

abbrev pub path_hash_label : String
path_hash_label = "app.edp.epam.com/gitUrlPathHash"

abbrev pub set_codebase_finalizers : (List String → List String) → Codebase → Codebase
set_codebase_finalizers f c = record c {
  meta = record (c.meta) { finalizers = f c.meta.finalizers };
}

abbrev pub set_codebase_labels : (Dict String → Dict String) → Codebase → Codebase
set_codebase_labels f c = record c { meta = record (c.meta) { labels = f c.meta.labels } }

-- `controllerutil.AddFinalizer`
unfoldable pub with_finalizer : String → List String → List String
with_finalizer name finalizers =
    if contains finalizers name then finalizers else append finalizers (name ∷ [])

unfoldable pub with_finalizers : List String → List String
with_finalizers finalizers =
    with_finalizer "foregroundDeletion" (with_finalizer codebase_finalizer finalizers)

unfoldable pub has_finalizers : List String → Bool
has_finalizers finalizers =
    contains finalizers codebase_finalizer && contains finalizers "foregroundDeletion"

-- The path that `gitpathlabel.Hash` takes the sum of.
unfoldable pub canonical_path : String → String
unfolding to_lower
canonical_path path =
    let lower = to_lower path in if starts_with lower "/" then lower else "/" ++ lower

module _ (w : World) where
  -- `chain.ServeRequest`
  unfoldable pub serve_handlers : List Handler → Handler
  serve_handlers handlers = for_each handlers (λ h. wrapping "failed to serve handler" h)

  -- `MakeChain`
  unfoldable pub make_chain : Handler
  make_chain = serve_handlers (
      put_git_web_repo_url w
      ∷ put_project w
      ∷ put_web_hook w
      ∷ put_gitlab_ci_config w
      ∷ put_deploy_configs w
      ∷ put_default_codebase_branch w
      ∷ clean_data w
      ∷ [])

  -- `MakeDeletionChain`
  unfoldable pub make_deletion_chain : Handler
  make_deletion_chain = serve_handlers (delete_codebase_web_hook w ∷ clean_data w ∷ [])

  -- `setFinalizers`
  unfoldable pub set_missing_finalizers : Handler
  set_missing_finalizers = do
    c ← gets (λ s. s.codebase)
    branch (not (is_nil c.meta.deletion_timestamp) || has_finalizers c.meta.finalizers) (pure tt) do
      modify (set_codebase (set_codebase_finalizers with_finalizers))
      c' ← gets (λ s. s.codebase)
      wrapping ("failed to update 'Codebase' resource \"" ++ c.name ++ "\"")
          (act w (update_codebase c'))

  -- `removeDirectoryIfExists`
  unfoldable pub remove_directory_if_exists : Handler
  remove_directory_if_exists = do
    c ← gets (λ s. s.codebase)
    wrapping ("failed to remove directory " ++ get_work_dir w c)
        (act w (remove_directory (get_work_dir w c)))

  unfoldable pub delete_codebase_resource : Handler
  delete_codebase_resource = do
    remove_directory_if_exists
    wrapping "failed to make deletion chain" make_deletion_chain
    modify (
        set_codebase
          (set_codebase_finalizers (λ xs. select xs (λ x. not (x == codebase_finalizer)))))
    c ← gets (λ s. s.codebase)
    wrapping ("failed to update 'Codebase' resource \"" ++ c.name ++ "\"")
        (act w (update_codebase c))

  -- `tryToDeleteCodebase`; the answer is whether the codebase is being deleted.
  unfoldable pub try_to_delete_codebase : Exec State Bool
  try_to_delete_codebase = do
    c ← gets (λ s. s.codebase)
    branch (is_nil c.meta.deletion_timestamp) (pure false) (delete_codebase_resource >> pure true)

  -- The status of `updateFinishStatus`.
  unfoldable pub finish_status : CodebaseStatus → CodebaseStatus
  finish_status st = record {
    available = true;
    last_time_updated = w.now;
    status = "created";
    username = "system";
    action = "setup_deployment_templates";
    result = "success";
    detailed_message = "";
    value = "active";
    failure_count = 0;
    git = st.git;
    web_hook_id = st.web_hook_id;
    web_hook_ref = get_web_hook_ref w st;
    git_web_url = st.git_web_url;
  }

  unfoldable pub update_finish_status : Handler
  update_finish_status = do
    modify (set_codebase (set_codebase_status finish_status))
    c ← gets (λ s. s.codebase)
    wrapping "failed to update Codebase status" (act w (update_codebase_status c))

-- The parameters of the labels and of the delays.
module _ (w : World) (hash : String → String) (scale_by_e : ℕ → ℕ → ℕ) where
  -- `initLabels`
  unfoldable pub with_labels : Codebase → Dict String → Dict String
  with_labels c labels =
      insert path_hash_label (hash (canonical_path c.spec.git_url_path))
        (insert_missing type_label c.spec.type_ labels)

  unfoldable pub has_labels : Codebase → Bool
  has_labels c =
      not (is_nil (lookup type_label c.meta.labels))
      && get_or_empty path_hash_label c.meta.labels == hash (canonical_path c.spec.git_url_path)

  unfoldable pub init_labels : Handler
  init_labels = do
    c ← gets (λ s. s.codebase)
    branch (has_labels c) (pure tt) do
      modify (set_codebase (set_codebase_labels (with_labels c)))
      c' ← gets (λ s. s.codebase)
      wrapping ("failed to patch 'Codebase' resource \"" ++ c.name ++ "\"")
          (act w (patch_codebase c'))

  -- `setFailureCount`; an error of storing the count is logged.
  unfoldable pub set_codebase_failure_count : Exec State ℕ
  set_codebase_failure_count = do
    c ← gets (λ s. s.codebase)
    modify (
        set_codebase
          (set_codebase_status (λ st. record st { failure_count = st.failure_count + 1 })))
    c' ← gets (λ s. s.codebase)
    stored ← attempt (act w (update_codebase_status c'))
    pure (get_timeout scale_by_e c.status.failure_count (10 * second))

  -- After the chain: an error is counted and logged, and the work directory is removed.
  abbrev pub after_codebase_chain : Result Unit → Exec State ℕ
  after_codebase_chain (ok done) = do
    c ← gets (λ s. s.codebase)
    wrapping ("failed to update " ++ c.name ++ " Codebase status") (update_finish_status w)
    pure 0
  after_codebase_chain (err e) = do
    timeout ← set_codebase_failure_count
    removed ← attempt (remove_directory_if_exists w)
    pure timeout

  unfoldable pub serve_codebase_chain : Exec State ℕ
  serve_codebase_chain = do answer ← attempt (make_chain w); after_codebase_chain answer

  unfoldable pub serve_codebase : Exec State ℕ
  serve_codebase = wrapping "failed to init labels for codebase" init_labels >> serve_codebase_chain

  unfoldable pub delete_or_serve_codebase : Exec State ℕ
  delete_or_serve_codebase = do
    wrapping "failed to set finalizers" (set_missing_finalizers w)
    deleted ← wrapping "failed to try to delete codebase" (try_to_delete_codebase w)
    branch deleted (pure 0) serve_codebase

  -- `Reconcile` of the codebase that was fetched
  unfoldable pub reconcile_fetched_codebase : Exec State ℕ
  reconcile_fetched_codebase = do
    patched ← wrapping "failed to apply codebase changes" (apply w)
    branch patched (pure 0) delete_or_serve_codebase

  -- `ReconcileCodebase.Reconcile`
  abbrev pub reconcile_codebase : (request : String) → Result Codebase → Result ℕ × List Action
  reconcile_codebase request (ok c) =
      let (r, s) = reconcile_fetched_codebase (record { codebase = c; done = [] }) in (r, s.done)
  reconcile_codebase request (err e) =
      if is_not_found e
      then (ok 0, [])
      else (err (wrap ("failed to fetch Codebase resource \"" ++ request ++ "\"") e), [])

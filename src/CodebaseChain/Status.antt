-- ===== src/CodebaseChain/Status.antt =====
-- controllers/codebase/service/chain/common.go and put_project.go: the status of a codebase.
use Prim.Native.String.{◌++◌}
use edp_codebase_operator.Prelude.{String, false, not, ◌&&◌, eqb, ◌==◌, if◌then◌else◌}
use edp_codebase_operator.Effects.{
  Error, error_text, Result, ok, err, Exec, pure, gets, modify, wrapping, branch, ◌>>=◌, ◌>>◌,
}
use edp_codebase_operator.Api.Codebase.{Codebase, CodebaseStatus}
use edp_codebase_operator.CodebaseChain.{
  World, State, Handler, act, set_codebase, update_codebase_status, patch_codebase_status,
}

abbrev pub set_codebase_status : (CodebaseStatus → CodebaseStatus) → Codebase → Codebase
set_codebase_status f c = record c { status = f c.status }

abbrev pub set_codebase_git : String → CodebaseStatus → CodebaseStatus
set_codebase_git g st = record st { git = g }

module _ (w : World) where
  -- `CodebaseStatus.GetWebHookRef`
  unfoldable pub get_web_hook_ref : CodebaseStatus → String
  get_web_hook_ref st =
      if st.web_hook_ref == "" && not (eqb st.web_hook_id 0)
      then w.decimal st.web_hook_id
      else st.web_hook_ref

  -- The status of `setIntermediateSuccessFields`.
  unfoldable pub codebase_intermediate_fields : (action : String) → CodebaseStatus → CodebaseStatus
  codebase_intermediate_fields action st = record {
    available = false;
    last_time_updated = w.now;
    status = "in progress";
    username = "system";
    action = action;
    result = "success";
    detailed_message = "";
    value = "inactive";
    failure_count = st.failure_count;
    git = st.git;
    web_hook_id = st.web_hook_id;
    web_hook_ref = get_web_hook_ref st;
    git_web_url = st.git_web_url;
  }

  unfoldable pub set_codebase_success_fields : (action : String) → Handler
  set_codebase_success_fields action = do
    modify (set_codebase (set_codebase_status (codebase_intermediate_fields action)))
    c ← gets (λ s. s.codebase)
    wrapping ("failed to update status field of \"" ++ c.name ++ "\" resource 'Codebase'")
        (act w (update_codebase_status c))

  -- `setFailedFields`
  unfoldable pub codebase_failed_fields :
      (action message : String) → CodebaseStatus → CodebaseStatus
  codebase_failed_fields action message st = record {
    available = false;
    last_time_updated = w.now;
    status = "failed";
    username = "system";
    action = action;
    result = "error";
    detailed_message = message;
    value = "failed";
    failure_count = st.failure_count;
    git = st.git;
    web_hook_id = st.web_hook_id;
    web_hook_ref = get_web_hook_ref st;
    git_web_url = st.git_web_url;
  }

  abbrev pub set_codebase_failed_fields : (action : String) → Error → State → State
  set_codebase_failed_fields action e =
      set_codebase (set_codebase_status (codebase_failed_fields action (error_text e)))

  -- `if err := m(); err != nil { setFailedFields(…, err.Error()); return … }`
  abbrev pub or_failed : {A : Type 0} → (action : String) → Result A → Exec State A
  or_failed action (ok a) s = (ok a, s)
  or_failed action (err e) s = (err e, set_codebase_failed_fields action e s)

  abbrev pub failing_codebase : {A : Type 0} → (action : String) → Exec State A → Exec State A
  failing_codebase action m s = let (r, s') = m s in or_failed action r s'

  -- `updateGitStatusWithPatch`
  unfoldable pub update_git_status_with_patch : (action git_status : String) → Handler
  update_git_status_with_patch action git_status = do
    c ← gets (λ s. s.codebase)
    branch (c.status.git == git_status) (pure tt) do
      modify (set_codebase (set_codebase_status (set_codebase_git git_status)))
      c' ← gets (λ s. s.codebase)
      wrapping ("failed to patch git status to " ++ git_status ++ " for codebase " ++ c.name)
          (failing_codebase action (act w (patch_codebase_status c')))

-- ===== src/BranchChain/Versions.antt =====
-- chain/process_new_version.go and chain/util.go: a new version starts a new count of builds.
pub mod Once
use Prim.Native.String.{◌++◌}
use edp_codebase_operator.Prelude.{
  String, List, [], ◌∷◌, ◌++◌ as append, Bool, true, false, not, Option, none, some, contains,
}
use edp_codebase_operator.Effects.{
  Result, ok, err, new, Exec, pure, lift, gets, modify, wrapping, branch, continue, ◌>>=◌, ◌>>◌,
}
use edp_codebase_operator.Api.Codebase.{Codebase, CodebaseBranch, is_version_type_semver}
use edp_codebase_operator.DeploymentUsage.{or_empty}
use edp_codebase_operator.BranchChain.{
  BranchClient, State, Handler, send, update_status, set_branch_status, serve_next,
}

-- `HasNewVersion`
abbrev pub has_version : CodebaseBranch → Option String → Result Bool
has_version b none = err (new ("codebase branch " ++ b.name ++ " doesn't have version"))
has_version b (some v) = ok (not (contains b.status.version_history v))

unfoldable pub has_new_version : CodebaseBranch → Result Bool
has_new_version b = has_version b b.spec.version

module _ (client : BranchClient) where
  -- The branch with its counters reset and its version in the history.
  unfoldable pub start_version : State → State
  start_version s =
      set_branch_status
        (λ st. record st {
          build = some "0";
          last_successful_build = none;
          version_history = append st.version_history (or_empty s.branch.spec.version ∷ []);
        })
        s

  unfoldable pub process_new_version : Codebase → Handler
  unfolding start_version
  process_new_version c = branch (not (is_version_type_semver c.spec)) (pure tt) do
    b ← gets (λ s. s.branch)
    has_new ←
        wrapping ("failed to check if branch " ++ b.name ++ " has new version")
          (lift (has_new_version b))
    branch (not has_new) (pure tt) do
      modify start_version
      b' ← gets (λ s. s.branch)
      wrapping "failed to update CodebaseBranch status"
          (send (update_status b') (client.update_status b'))

  -- `ProcessNewVersion.ServeRequest`
  unfoldable pub serve_new_version : (next : Handler) → Handler
  serve_new_version next = do
    b ← gets (λ s. s.branch)
    c ←
        wrapping "failed to get Codebase"
          (lift (client.get_codebase b.namespace b.spec.codebase_name))
    wrapping ("failed to process new version for " ++ b.name ++ " branch") (process_new_version c)
    serve_next "failed to serve next chain element" next

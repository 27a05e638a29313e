-- ===== src/BranchChain/Git.antt =====
-- chain/check_reference.go and chain/put_branch_in_git: the branch is created in git once.
use Prim.Native.String.{◌++◌}
use edp_codebase_operator.Prelude.{ℕ, String, not, ◌==◌, if◌then◌else◌}
use edp_codebase_operator.Effects.{
  Error, error_text, Result, err, wrap, reconcile, Exec, fail, lift, gets, modify, wrapping, branch,
  ◌>>=◌, ◌>>◌,
}
use edp_codebase_operator.Api.Codebase.{
  Codebase, CodebaseBranch, CodebaseBranchStatus, branch_created,
}
use edp_codebase_operator.Url.{get_project_git_url, get_project_id}
use edp_codebase_operator.BranchChain.{
  BranchClient, State, Handler, send, update_status, create_remote_branch, set_branch_status,
  serve_next, rescue,
}

-- `setFailedFields` of the reference check, and `putGitBranchSetFailedFields`.
unfoldable pub failed_fields :
    (now : ℕ) → (action message : String) → CodebaseBranchStatus → CodebaseBranchStatus
failed_fields now action message st = record {
  last_time_updated = now;
  version_history = st.version_history;
  last_successful_build = st.last_successful_build;
  build = st.build;
  status = "failed";
  username = "system";
  action = action;
  result = "error";
  detailed_message = message;
  value = "failed";
  failure_count = st.failure_count;
  git = st.git;
  conditions = st.conditions;
}

unfoldable pub intermediate_fields : (now : ℕ) → CodebaseBranchStatus → CodebaseBranchStatus
intermediate_fields now st = record {
  last_time_updated = now;
  version_history = st.version_history;
  last_successful_build = st.last_successful_build;
  build = st.build;
  status = "initialized";
  username = "system";
  action = "accept_codebase_branch_registration";
  result = "success";
  detailed_message = "";
  value = "inactive";
  failure_count = st.failure_count;
  git = st.git;
  conditions = st.conditions;
}

module _ (client : BranchClient) where
  -- The handler fails with `report e`, after the failed status holds the text of `shown e`.
  abbrev pub failing :
      {A : Type 0} → (action : String) → (shown report : Error → Error) → Error → Exec State A
  failing action shown report e s =
      (err (report e), set_branch_status (failed_fields client.now action (error_text (shown e))) s)

  -- A read whose failure is shown as it is reported.
  abbrev pub or_shown : {A : Type 0} → (action text : String) → Result A → Exec State A
  or_shown action text r = rescue (lift r) (failing action (wrap text) (wrap text))

  -- A call whose failure is shown bare, and reported with a text.
  abbrev pub or_reported : {A : Type 0} → (action text : String) → Exec State A → Exec State A
  or_reported action text m = rescue m (failing action (λ e. e) (wrap text))

  abbrev pub check_commit_hash_exists : String
  check_commit_hash_exists = "check_commit_hash_exists"

  -- From the test of `FromCommit` on.
  unfoldable pub check_reference : CodebaseBranch → (next : Handler) → Handler
  unfolding failed_fields
  check_reference b next = do
    c ←
        or_shown check_commit_hash_exists ("failed to get codebase " ++ b.spec.codebase_name)
          (client.get_codebase b.namespace b.spec.codebase_name)
    g ←
        or_shown check_commit_hash_exists ("failed to get git server " ++ c.spec.git_server)
          (client.get_git_server b.namespace c.spec.git_server)
    secret ←
        or_shown check_commit_hash_exists ("failed to get secret " ++ g.spec.name_ssh_key_secret)
          (client.get_secret b.namespace g.spec.name_ssh_key_secret)
    or_shown check_commit_hash_exists ("reference " ++ b.spec.from_commit ++ " doesn't exist") (
        client.resolve_remote_reference g secret
          (get_project_git_url client.decimal g secret (get_project_id c.spec)) b.spec.from_commit)
    serve_next "failed to serve next chain element" next

  -- `CheckReferenceExists.ServeRequest`
  unfoldable pub serve_check_reference : (next : Handler) → Handler
  serve_check_reference next = do
    b ← gets (λ s. s.branch)
    branch (b.status.git == branch_created) (serve_next "failed to serve next chain element" next) (
        branch (b.spec.from_commit == "") (serve_next "failed to serve next chain element" next)
          (check_reference b next))

  abbrev pub put_git_branch : String
  put_git_branch = "put_git_branch"

  -- `setIntermediateSuccessFields`
  unfoldable pub set_intermediate_success_fields : Handler
  unfolding intermediate_fields
  set_intermediate_success_fields = do
    modify (set_branch_status (intermediate_fields client.now))
    b ← gets (λ s. s.branch)
    wrapping ("failed to update CodebaseBranch status field " ++ b.name)
        (send (update_status b) (client.update_status b))

  -- `branch.Status.Git = git`
  unfoldable pub set_git : (git : String) → State → State
  set_git git = set_branch_status (λ st. record st { git = git })

  -- The start of the branch: an empty `FromCommit` is the tip of the default branch.
  unfoldable pub from_ref : CodebaseBranch → Codebase → String
  from_ref b c = if b.spec.from_commit == "" then c.spec.default_branch else b.spec.from_commit

  -- After git has the branch, the status is stored; where that fails, it is taken back.
  unfoldable pub store_created : Handler
  unfolding set_git failed_fields
  store_created = do
    modify (set_git branch_created)
    b ← gets (λ s. s.branch)
    rescue (send (update_status b) (client.update_status b)) λ e. do
      modify (set_git "")
      failing put_git_branch (λ x. x) (wrap "failed to update CodebaseBranch status") e

  -- From the test of the codebase on.
  unfoldable pub put_branch : CodebaseBranch → Codebase → Handler
  unfolding store_created failed_fields
  put_branch b c =
      branch (not c.status.available) (fail (reconcile (c.name ++ " codebase is unavailable"))) do
        g ←
            or_reported put_git_branch "failed to fetch GitServer"
              (lift (client.get_git_server b.namespace c.spec.git_server))
        secret ←
            or_shown put_git_branch ("failed to get " ++ g.spec.name_ssh_key_secret ++ " secret")
              (client.get_secret b.namespace g.spec.name_ssh_key_secret)
        let url = get_project_git_url client.decimal g secret (get_project_id c.spec)
        or_reported put_git_branch "failed to create remote branch" (
            send (create_remote_branch url b.spec.branch_name (from_ref b c))
              (client.create_remote_branch g secret url b.spec.branch_name (from_ref b c)))
        store_created

  -- `PutBranchInGit.ServeRequest`
  unfoldable pub serve_put_branch : (next : Handler) → Handler
  unfolding set_intermediate_success_fields
  serve_put_branch next = do
    b ← gets (λ s. s.branch)
    branch (b.status.git == branch_created)
        (serve_next "failed to process next handler in chain" next)
        do
          set_intermediate_success_fields
          c ←
              or_reported put_git_branch "failed to fetch Codebase"
                (lift (client.get_codebase b.namespace b.spec.codebase_name))
          put_branch b c
          serve_next "failed to process next handler in chain" next

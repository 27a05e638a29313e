-- ===== src/StaleCheck/Checker.antt =====
-- stalecheck/checker.go: one sweep over the branches of a namespace.
pub mod Deletion
pub mod Sweep
use Prim.Native.String.{◌++◌}
use edp_codebase_operator.Prelude.{
  ℕ, String, List, [], ◌∷◌, ◌++◌ as append, Bool, true, false, not, ◌&&◌, is_nil, contains,
  MultiMap, string_key, append_at, get_or_empty, ◌==◌, if◌then◌else◌,
}
use edp_codebase_operator.Effects.{Result, ok, err, or_wrap, and_then}
use edp_codebase_operator.Api.Codebase.{Codebase, CodebaseBranch, GitServer, Secret, branch_created}
use edp_codebase_operator.DeploymentUsage.{UsageClient, join}
use edp_codebase_operator.DeploymentUsage.Branches.{BranchUsageIndex, new_branch_usage_index, find}
use edp_codebase_operator.StaleCheck.Action.{
  Verdict, ConditionsPackage, Client, State, Request, mark, cleanup,
}
use edp_codebase_operator.Url.{get_project_git_url, get_project_id}

-- What the checker reads: the API server, and the git server behind `ListRemoteBranches`.
pub record Reader : Type 0 where
  pub namespace : String
  pub list_codebase_branches : (namespace : String) → Result (List CodebaseBranch)
  pub get_codebase : (namespace name : String) → Result Codebase
  pub get_git_server : (namespace name : String) → Result GitServer
  pub get_secret : (namespace name : String) → Result Secret
  pub list_remote_branches : GitServer → Secret → (url : String) → Result (List String)
  pub usage : UsageClient
  pub decimal : ℕ → String

-- `BranchCleanupStrategyAnnotation` and the value `auto`
abbrev pub auto_cleanup : Codebase → Bool
auto_cleanup c = get_or_empty "app.edp.epam.com/branch-cleanup-strategy" c.annotations == "auto"

unfoldable pub eligible_for_check : CodebaseBranch → Codebase → Bool
eligible_for_check b c =
    if not (is_nil b.deletion_timestamp)
    then false
    else if not (b.status.git == branch_created)
    then false
    else not (b.spec.branch_name == c.spec.default_branch)

unfoldable pub verdict_of :
    Codebase → (remote : List String) → BranchUsageIndex → CodebaseBranch → Verdict
verdict_of c remote usage b =
    let exists_ = contains remote b.spec.branch_name in
    record {
      exists_in_git = exists_;
      retained_by = if auto_cleanup c && not exists_ then join (find usage b) else "";
    }

-- A codebase with the names of its remote branches.
pub record Snapshot : Type 0 where
  pub codebase : Codebase
  pub remote : List String

module _ (reader : Reader) where
  -- What `checkCodebaseBranches` reads before its loop.
  unfoldable pub read_snapshot : (codebase_name : String) → Result Snapshot
  read_snapshot codebase_name =
      and_then
        (or_wrap ("failed to get codebase " ++ codebase_name)
          (reader.get_codebase reader.namespace codebase_name))
        λ c.
          and_then
            (or_wrap ("failed to get git server " ++ c.spec.git_server)
              (reader.get_git_server reader.namespace c.spec.git_server))
            λ g.
              and_then
                (or_wrap ("failed to get secret " ++ g.spec.name_ssh_key_secret)
                  (reader.get_secret reader.namespace g.spec.name_ssh_key_secret))
                λ secret.
                  and_then
                    (or_wrap
                      ("failed to list remote branches for "
                        ++ get_project_git_url reader.decimal g secret (get_project_id c.spec)
                        ++ ", skipping staleness check")
                      (reader.list_remote_branches g secret
                        (get_project_git_url reader.decimal g secret (get_project_id c.spec))))
                    λ remote. ok (record { codebase = c; remote = remote })

-- The map from codebase names to branches, built in `sweep`.
unfoldable pub group_by_codebase :
    List CodebaseBranch → MultiMap String CodebaseBranch → MultiMap String CodebaseBranch
group_by_codebase [] groups = groups
group_by_codebase (b ∷ bs) groups = group_by_codebase bs (append_at b.spec.codebase_name b groups)

module _ (conditions : ConditionsPackage) (client : Client) where
  -- The requests of the action on one branch; its error is only logged.
  unfoldable pub apply_action : Codebase → Verdict → CodebaseBranch → List Request
  apply_action c v b =
      let s : State = record { branch = b; sent = [] } in
      if auto_cleanup c
      then (cleanup conditions client v s).1.sent
      else (mark conditions client v s).1.sent

  -- The loop over the branches of `checkCodebaseBranches`.
  unfoldable pub check_branches : Snapshot → BranchUsageIndex → List CodebaseBranch → List Request
  check_branches snap usage [] = []
  check_branches snap usage (b ∷ bs) =
      let rest = check_branches snap usage bs in
      if eligible_for_check b snap.codebase
      then append (apply_action snap.codebase (verdict_of snap.codebase snap.remote usage b) b) rest
      else rest

  module _ (reader : Reader) where
    abbrev on_snapshot : Result Snapshot → BranchUsageIndex → List CodebaseBranch → List Request
    on_snapshot (ok snap) usage bs = check_branches snap usage bs
    on_snapshot (err e) usage bs = []

    unfoldable pub check_codebase_branches :
        (codebase_name : String) → List CodebaseBranch → BranchUsageIndex → List Request
    check_codebase_branches codebase_name bs usage =
        on_snapshot (read_snapshot reader codebase_name) usage bs

    -- The loop over the codebases of the sweep; an error ends only its own codebase.
    unfoldable pub check_groups : BranchUsageIndex → MultiMap String CodebaseBranch → List Request
    check_groups usage [] = []
    check_groups usage ((codebase_name, bs) ∷ groups) =
        append (check_codebase_branches codebase_name bs usage) (check_groups usage groups)

    abbrev on_listing : Result (List CodebaseBranch) → Result BranchUsageIndex → List Request
    on_listing (ok bs) (ok usage) = check_groups usage (group_by_codebase bs [])
    on_listing (ok bs) (err e) = []
    on_listing (err e) usage = []

    unfoldable pub sweep : List Request
    sweep =
        on_listing (reader.list_codebase_branches reader.namespace)
          (new_branch_usage_index reader.usage reader.namespace)

-- ===== src/Examples/Stale.antt =====
-- The theorems on stale branches at one codebase and one branch.
use edp_codebase_operator.Prelude.{
  String, List, [], ◌∷◌, Bool, true, false, ◌&&◌, Memᴰ, lookup, contains, any, select, get_or_empty,
  ◌≡◌, refl, arith, eq_iff, eq_refl, ◌==◌, if◌then◌else◌, string_key, append_at, values_at,
}
use edp_codebase_operator.Effects.{ok}
use edp_codebase_operator.Api.Codebase.{
  Codebase, CodebaseBranch, Condition, ConditionStatus, condition_true, condition_false,
  condition_unknown, GitServer,
}
use edp_codebase_operator.DeploymentUsage.{
  UsageClient, AutotestGate, stage_kind, list_active_cd_pipelines, list_active_stages, list_where,
  find_autotest_gates, all_gates, stage_gates, join,
}
use edp_codebase_operator.DeploymentUsage.Branches.{
  BranchUsageIndex, new_branch_usage_index, find, find_branch_usage, add_pipelines, add_streams,
  add_gates, gate_key,
}
use edp_codebase_operator.DeploymentUsage.Branches.Index.{scan, find_branch_usage-scan}
use edp_codebase_operator.StaleCheck.Action.{
  Verdict, ConditionsPackage, Client, State, stale_condition, mark, cleanup,
  update_status_condition, update_stale_label, emit_transition_event, label_up_to_date,
}
use edp_codebase_operator.StaleCheck.Action.Mark.{
  is_true, ConditionLaws, Agrees, held, mark-Agrees, mark_settled,
}
use edp_codebase_operator.StaleCheck.Checker.{
  Reader, Snapshot, eligible_for_check, verdict_of, apply_action, check_branches, read_snapshot,
  check_codebase_branches, check_groups, group_by_codebase, sweep,
}
use edp_codebase_operator.StaleCheck.Checker.Deletion.{deletes, IsDeletable}
use edp_codebase_operator.StaleCheck.Checker.Sweep.{only_unused_deleted}
use edp_codebase_operator.Examples.{meta_of, codebase_of, branch_of, pipeline_of, dev_stage}

abbrev same_status : ConditionStatus → ConditionStatus → Bool
same_status condition_true condition_true = true
same_status condition_false condition_false = true
same_status condition_unknown condition_unknown = true
same_status _ _ = false

-- Conditions compared by status and message.
abbrev same : Condition → Condition → Bool
same c d = same_status c.status d.status && c.message == d.message

same_refl : (c : Condition) → same c c ≡ true
same_refl c = ground (arith, eq_refl c.message)

set_condition : List Condition → Condition → List Condition × Bool
set_condition [] c = (c ∷ [], true)
set_condition (d ∷ cs) c =
    let (rest, changed) = set_condition cs c in
    if d.type_ == c.type_
    then if same d c then (d ∷ cs, false) else (c ∷ cs, true)
    else (d ∷ rest, changed)

condition_is_true : List Condition → String → Bool
condition_is_true [] t = false
condition_is_true (d ∷ cs) t =
    let rest = condition_is_true cs t in if d.type_ == t then is_true d.status else rest

abbrev conditions : ConditionsPackage
conditions = record {
  set_status_condition = set_condition;
  is_status_condition_true = condition_is_true;
}

same_status-is_true : (s t : ConditionStatus) → same_status s t ≡ true → is_true s ≡ is_true t
same_status-is_true condition_true condition_true h = refl
same_status-is_true condition_true condition_false h = cc h
same_status-is_true condition_true condition_unknown h = cc h
same_status-is_true condition_false condition_true h = cc h
same_status-is_true condition_false condition_false h = refl
same_status-is_true condition_false condition_unknown h = refl
same_status-is_true condition_unknown condition_true h = cc h
same_status-is_true condition_unknown condition_false h = refl
same_status-is_true condition_unknown condition_unknown h = refl

set_condition-true :
    (cs : List Condition) (c : Condition)
    → condition_is_true (set_condition cs c).0 c.type_ ≡ is_true c.status
unfolding set_condition condition_is_true
set_condition-true [] c = ground (arith, eq_refl c.type_)
set_condition-true (d ∷ cs) c = ground (
  arith,
  same_status-is_true d.status c.status,
  set_condition-true cs c,
  eq_refl c.type_,
  eq_iff d.type_ c.type_,
)

set_condition-again :
    (cs : List Condition) (c : Condition)
    → set_condition (set_condition cs c).0 c ≡ ((set_condition cs c).0, false)
unfolding set_condition
set_condition-again [] c = ground (arith, eq_refl c.type_, same_refl c)
set_condition-again (d ∷ cs) c =
    ground (arith, set_condition-again cs c, eq_refl c.type_, same_refl c, eq_iff d.type_ c.type_)

set_condition-same :
    (cs : List Condition) (c : Condition)
    → (set_condition cs c).1 ≡ false
    → (set_condition cs c).0 ≡ cs
unfolding set_condition
set_condition-same [] c h = cc h
set_condition-same (d ∷ cs) c h = ground (arith, set_condition-same cs c)

laws : ConditionLaws conditions
laws = record {
  set_true = set_condition-true;
  set_again = set_condition-again;
  set_unchanged = set_condition-same;
}

abbrev client : Client
client = record {
  patch_status_answer = λ _. ok tt;
  patch_answer = λ _. ok tt;
  delete_answer = λ _. ok tt;
  has_recorder = true;
}

abbrev gone : Verdict
gone = record { exists_in_git = false; retained_by = "" }

abbrev old_branch : CodebaseBranch
old_branch = branch_of "app" "old"

abbrev before : State
before = record { branch = old_branch; sent = [] }

mark-Agrees_example :
    let after = (mark conditions client gone before).1 in
    (held after.sent old_branch ≡ after.branch)
    × Agrees conditions gone (held after.sent old_branch)
unfolding mark update_status_condition update_stale_label emit_transition_event set_condition
    condition_is_true stale_condition label_up_to_date lookup get_or_empty
mark-Agrees_example = mark-Agrees conditions laws client gone old_branch refl

-- The branch that the API server holds after the marking.
abbrev after : State
after = record { branch = held (mark conditions client gone before).1.sent old_branch; sent = [] }

after-Agrees : Agrees conditions gone after.branch
unfolding mark update_status_condition update_stale_label emit_transition_event set_condition
    condition_is_true stale_condition label_up_to_date lookup get_or_empty
after-Agrees = (mark-Agrees conditions laws client gone old_branch refl).1

mark_settled_example : mark conditions client gone after ≡ (ok tt, after)
mark_settled_example = mark_settled conditions laws client gone after after-Agrees

abbrev usage : UsageClient
usage = record {
  list_cd_pipelines = λ _. ok (pipeline_of ("app" ∷ []) ("app-main" ∷ []) ∷ []);
  list_stages = λ _. ok (dev_stage ∷ []);
  list_branches = λ _ _. ok (old_branch ∷ []);
}

abbrev cleaned : Codebase
cleaned =
    codebase_of "app" "/org/app" [] (("app.edp.epam.com/branch-cleanup-strategy", "auto") ∷ [])

abbrev git_server : GitServer
git_server = record {
  meta = meta_of "gerrit" [] [] 1;
  spec = record {
    git_host = "host";
    git_user = "git";
    git_provider = "gerrit";
    ssh_port = 22;
    name_ssh_key_secret = "key";
    webhook_url = "";
    skip_webhook_ssl_verification = false;
    tekton_disabled = false;
  };
  status = record { error = ""; connected = false; status = "" };
}

abbrev reader : Reader
reader = record {
  namespace = "ns";
  list_codebase_branches = λ _. ok (old_branch ∷ []);
  get_codebase = λ _ _. ok cleaned;
  get_git_server = λ _ _. ok git_server;
  get_secret = λ _ _. ok (record { contents = [] });
  list_remote_branches = λ _ _ _. ok ("main" ∷ []);
  usage = usage;
  decimal = λ _. "22";
}

only_unused_deleted_example :
    (bs : List CodebaseBranch) × (snap : Snapshot) × (i : BranchUsageIndex)
    × (reader.list_codebase_branches "ns" ≡ ok bs)
    × (read_snapshot reader "app" ≡ ok snap)
    × (new_branch_usage_index usage "ns" ≡ ok i)
    × Memᴰ old_branch bs
    × IsDeletable snap i old_branch
unfolding sweep group_by_codebase append_at check_groups check_codebase_branches check_branches
    read_snapshot apply_action verdict_of eligible_for_check cleanup deletes new_branch_usage_index
    list_active_cd_pipelines list_active_stages list_where find_autotest_gates all_gates stage_gates
    add_pipelines add_streams add_gates find values_at contains any select get_or_empty lookup join
only_unused_deleted_example =
    only_unused_deleted conditions client reader old_branch (Memᴰ.head refl)

abbrev deployed_branch : CodebaseBranch
deployed_branch = branch_of "autotest" "main"

abbrev gates : List AutotestGate
gates =
    record {
      reference = record {
        kind = stage_kind;
        name = "pipe-dev";
        field = "spec.qualityGates.autotestName";
        reason = "autotest quality gate";
        parent_cd_pipeline = "pipe";
      };
      autotest_name = "autotest";
      branch_name = "main";
    }
    ∷ []

find_branch_usage-scan_example :
    find_branch_usage usage deployed_branch
    ≡ ok (scan (pipeline_of ("app" ∷ []) ("app-main" ∷ []) ∷ []) gates deployed_branch)
unfolding list_active_cd_pipelines list_active_stages list_where find_autotest_gates all_gates
    stage_gates select
find_branch_usage-scan_example =
    find_branch_usage-scan usage deployed_branch (pipeline_of ("app" ∷ []) ("app-main" ∷ []) ∷ [])
      gates refl refl

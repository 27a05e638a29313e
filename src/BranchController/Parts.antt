-- ===== src/BranchController/Parts.antt =====
-- codebasebranch_controller.go and pkg/codebasebranch/labels.go: default pipelines, labels, and the
-- updates of the status.
use Prim.Native.Char.{Char, code}
use Prim.Native.String.{◌++◌, len, slice}
use edp_codebase_operator.Prelude.{
  ℕ, String, Bool, true, false, not, ◌&&◌, ◌||◌, Dict, lookup, insert, get_or_empty, is_nil, ltb,
  ◌+◌, ◌-◌, ◌*◌, ◌==◌, if◌then◌else◌,
}
use edp_codebase_operator.Effects.{
  new, Exec, pure, fail, lift, gets, modify, wrapping, branch, ◌>>=◌, ◌>>◌,
}
use edp_codebase_operator.Api.{codebase_label, branch_hash_label}
use edp_codebase_operator.Api.Codebase.{
  Codebase, CodebaseBranch, CodebaseBranchStatus, CodebaseSpec, GitServer,
}
use edp_codebase_operator.BranchChain.{
  State, Handler, send, update, update_status, set_branch_status,
}
use edp_codebase_operator.BranchController.{BranchCluster, second, get_timeout}

-- `strings.ToLower` of an ASCII text
abbrev lower : Char → String → String
lower c rest =
    if ltb 64 (code c) && ltb (code c) 91
    then slice "abcdefghijklmnopqrstuvwxyz" (code c - 65) (code c - 64) ++ rest
    else String.◌∷◌ c rest

unfoldable pub to_lower : String → String
to_lower String.[] = ""
to_lower (String.◌∷◌ c s) = let rest = to_lower s in lower c rest

-- `pipelinesIsSet`
unfoldable pub pipelines_is_set : Dict String → Bool
pipelines_is_set pipelines =
    not (is_nil (lookup "review" pipelines)) && not (is_nil (lookup "build" pipelines))

-- `"%s-%s-%s-%s-build-%s"` and `"%s-%s-%s-%s-review"`
unfoldable pub pipeline_prefix : GitServer → CodebaseSpec → String
pipeline_prefix g spec =
    g.spec.git_provider
    ++ "-"
    ++ to_lower spec.build_tool
    ++ "-"
    ++ to_lower spec.framework
    ++ "-"
    ++ slice spec.type_ 0 3

unfoldable pub build_pipeline : GitServer → CodebaseSpec → String
build_pipeline g spec = pipeline_prefix g spec ++ "-build-" ++ spec.versioning.type_

unfoldable pub review_pipeline : GitServer → CodebaseSpec → String
review_pipeline g spec = pipeline_prefix g spec ++ "-review"

-- `if _, ok := m[key]; !ok { m[key] = value }`
unfoldable pub insert_missing : (key value : String) → Dict String → Dict String
insert_missing key value m = if is_nil (lookup key m) then insert key value m else m

unfoldable pub with_pipelines : GitServer → CodebaseSpec → Dict String → Dict String
with_pipelines g spec pipelines =
    insert_missing "review" (review_pipeline g spec)
      (insert_missing "build" (build_pipeline g spec) pipelines)

abbrev pub set_pipelines : (Dict String → Dict String) → State → State
set_pipelines f s = record s {
  branch = record (s.branch) {
    spec = record (s.branch.spec) { pipelines = f s.branch.spec.pipelines };
  };
}

abbrev pub set_labels : (Dict String → Dict String) → State → State
set_labels f s = record s {
  branch = record (s.branch) { meta = record (s.branch.meta) { labels = f s.branch.meta.labels } };
}

-- `if labels[key] != value { labels[key] = value }`
unfoldable pub set_label : (key value : String) → Dict String → Dict String
set_label key value labels =
    if get_or_empty key labels == value then labels else insert key value labels

-- The older label of the codebase, `LabelCodebaseName`.
abbrev pub codebase_name_label : String
codebase_name_label = "app.edp.epam.com/codebaseName"

-- `setErrorStatus`
unfoldable pub set_error_status : (message : String) → CodebaseBranchStatus → CodebaseBranchStatus
set_error_status message st = record st { status = "error"; detailed_message = message }

-- The status goes to the branch that the API server holds, whose conditions stay.
unfoldable pub stored_with : CodebaseBranchStatus → CodebaseBranch → CodebaseBranch
stored_with st fetched = record fetched {
  status = record st { conditions = fetched.status.conditions };
}

module _ (c : BranchCluster) where
  -- `setDefaultValues`; it answers whether a pipeline was set. Where it comes to the names, one of the
  -- two is missing.
  unfoldable pub set_default_values : Codebase → Exec State Bool
  set_default_values codebase = do
    b ← gets (λ s. s.branch)
    branch (pipelines_is_set b.spec.pipelines || codebase.spec.ci_tool == "gitlab") (pure false) do
      g ←
          wrapping "failed to get GitServer"
            (lift (c.chain_client.get_git_server codebase.namespace codebase.spec.git_server))
      branch (ltb (len codebase.spec.type_) 3)
          (fail (new ("codebase type is invalid: " ++ codebase.spec.type_)))
          (modify (set_pipelines (with_pipelines g codebase.spec)) >> pure true)

  -- `codebasebranch.AddCodebaseLabel`
  unfoldable pub with_codebase_labels : (codebase branch_name : String) → Dict String → Dict String
  with_codebase_labels codebase branch_name labels =
      set_label branch_hash_label (c.branch_hash branch_name)
        (set_label codebase_label codebase (set_label codebase_name_label codebase labels))

  unfoldable pub has_codebase_labels : (codebase branch_name : String) → Dict String → Bool
  has_codebase_labels codebase branch_name labels =
      get_or_empty codebase_name_label labels == codebase
      && get_or_empty codebase_label labels == codebase
      && get_or_empty branch_hash_label labels == c.branch_hash branch_name

  unfoldable pub add_codebase_label : (codebase : String) → Handler
  add_codebase_label codebase = do
    b ← gets (λ s. s.branch)
    branch (has_codebase_labels codebase b.spec.branch_name b.meta.labels) (pure tt) do
      modify (set_labels (with_codebase_labels codebase b.spec.branch_name))
      b' ← gets (λ s. s.branch)
      wrapping "failed to update k8s resource labels" (send (update b') (c.chain_client.update b'))

  -- `ReconcileCodebaseBranch.updateStatus`
  unfoldable pub update_branch_status : Handler
  unfolding stored_with
  update_branch_status = do
    b ← gets (λ s. s.branch)
    before ← gets (λ s. s.sent)
    fetched ←
        wrapping "failed to get CodebaseBranch" (lift (c.get_branch before b.namespace b.name))
    wrapping "failed to update CodebaseBranch status" (
        send (update_status (stored_with b.status fetched))
          (c.chain_client.update_status (stored_with b.status fetched)))

  -- The status of `setSuccessStatus`.
  unfoldable pub success_status : (action : String) → CodebaseBranchStatus → CodebaseBranchStatus
  success_status action st = record {
    last_time_updated = c.chain_client.now;
    version_history = st.version_history;
    last_successful_build = st.last_successful_build;
    build = st.build;
    status = "created";
    username = "system";
    action = action;
    result = "success";
    detailed_message = "";
    value = "active";
    failure_count = 0;
    git = st.git;
    conditions = st.conditions;
  }

  unfoldable pub set_success_status : (action : String) → Handler
  set_success_status action =
      modify (set_branch_status (success_status action)) >> update_branch_status

  -- `setFailureCount`
  unfoldable pub set_failure_count : Exec State ℕ
  set_failure_count = do
    b ← gets (λ s. s.branch)
    modify (set_branch_status (λ st. record st { failure_count = st.failure_count + 1 }))
    pure (get_timeout c.scale_by_e b.status.failure_count (10 * second))

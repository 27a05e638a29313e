-- ===== src/StaleCheck/Action.antt =====
-- stalecheck/action.go and stalecheck/cleanup_action.go. The object that the API server sends back after a
-- patch is taken to be the one that was sent.
pub mod Mark
use Prim.Native.String.{◌++◌ as text_append}
use edp_codebase_operator.Prelude.{
  ℕ, String, List, [], ◌∷◌, ◌++◌, Bool, true, false, not, ◌&&◌, ◌||◌, Option, none, some, is_nil,
  lookup, insert, remove, get_or_empty, ◌==◌, if◌then◌else◌,
}
use edp_codebase_operator.Effects.{
  Result, ok, err, Exec, pure, gets, modify, wrapping, branch, continue, ◌>>=◌, ◌>>◌,
}
use edp_codebase_operator.Api.{ObjectMeta, stale_label}
use edp_codebase_operator.Api.Codebase.{
  CodebaseBranch, CodebaseBranchStatus, Condition, ConditionStatus, condition_true, condition_false,
}

pub record Verdict : Type 0 where
  pub exists_in_git : Bool
  pub retained_by : String

-- The two functions of `k8s.io/apimachinery/pkg/api/meta` on a list of conditions.
pub record ConditionsPackage : Type 0 where
  pub set_status_condition : List Condition → Condition → List Condition × Bool
  pub is_status_condition_true : List Condition → String → Bool

pub data Event : Type 0 where
  branch_stale branch_stale_resolved stale_branch_deleted stale_branch_retained : Event

-- What is sent to the cluster, in order; an event goes through the recorder.
pub data Request : Type 0 where
  patch_status patch delete : CodebaseBranch → Request
  emit : Event → CodebaseBranch → Request

-- The answers of the API server. A nil recorder drops the events.
pub record Client : Type 0 where
  pub patch_status_answer : CodebaseBranch → Result Unit
  pub patch_answer : CodebaseBranch → Result Unit
  pub delete_answer : CodebaseBranch → Result Unit
  pub has_recorder : Bool

pub record State : Type 0 where
  pub branch : CodebaseBranch
  pub sent : List Request

abbrev pub send : Request → Result Unit → Exec State Unit
send q r s = (r, record s { sent = s.sent ++ q ∷ [] })

abbrev pub condition_stale : String
condition_stale = "Stale"

-- The message; the text for a retained branch names what retains it.
abbrev pub stale_message : String → String
stale_message retained_by =
    if not (retained_by == "")
    then text_append "Branch was not found in the git repository; retained because it is used by "
        retained_by
    else "Branch was not found in the git repository"

unfoldable pub stale_condition : CodebaseBranch → Verdict → Condition
stale_condition b v =
    if not v.exists_in_git
    then record {
      type_ = condition_stale;
      status = condition_true;
      reason = "BranchNotFoundInGit";
      message = stale_message v.retained_by;
      observed_generation = b.generation;
    }
    else record {
      type_ = condition_stale;
      status = condition_false;
      reason = "BranchFoundInGit";
      message = "Branch exists in the git repository";
      observed_generation = b.generation;
    }

unfoldable pub with_conditions : List Condition → CodebaseBranch → CodebaseBranch
with_conditions cs b = record b { status = record (b.status) { conditions = cs } }

unfoldable pub with_stale_label : Bool → CodebaseBranch → CodebaseBranch
with_stale_label exists_ b = record b {
  meta = record (b.meta) {
    labels = if exists_ then remove stale_label b.labels else insert stale_label "true" b.labels;
  };
}

unfoldable pub label_up_to_date : CodebaseBranch → Verdict → Bool
label_up_to_date b v =
    (v.exists_in_git && is_nil (lookup stale_label b.labels))
    || (not v.exists_in_git && get_or_empty stale_label b.labels == "true")

module _ (conditions : ConditionsPackage) (client : Client) where
  unfoldable pub update_status_condition : Verdict → Exec State Unit
  unfolding with_conditions
  update_status_condition v s =
      let (cs, changed) =
        conditions.set_status_condition s.branch.status.conditions (stale_condition s.branch v) in
      let b = with_conditions cs s.branch in
      branch (not changed) (pure tt)
        (wrapping (text_append "failed to patch Stale condition on CodebaseBranch " s.branch.name)
          (send (patch_status b) (client.patch_status_answer b)))
        (record s { branch = b })

  unfoldable pub update_stale_label : Verdict → Exec State Unit
  unfolding with_stale_label label_up_to_date
  update_stale_label v s =
      let b = with_stale_label v.exists_in_git s.branch in
      branch (label_up_to_date s.branch v) (pure tt)
        (λ _.
          wrapping (text_append "failed to patch stale label on CodebaseBranch " s.branch.name)
            (send (patch b) (client.patch_answer b)) (record s { branch = b }))
        s

  -- `Eventf` cannot fail.
  unfoldable pub emit_transition_event : Bool → Verdict → Exec State Unit
  emit_transition_event was_stale v s =
      branch (not client.has_recorder) (pure tt)
        (branch (not was_stale && not v.exists_in_git)
          (branch (not (v.retained_by == "")) (send (emit stale_branch_retained s.branch) (ok tt))
            (send (emit branch_stale s.branch) (ok tt)))
          (branch (was_stale && v.exists_in_git)
            (send (emit branch_stale_resolved s.branch) (ok tt)) (pure tt)))
        s

  unfoldable pub mark : Verdict → Exec State Unit
  mark v = do
    b ← gets (λ s. s.branch)
    let was_stale = conditions.is_status_condition_true b.status.conditions condition_stale
    update_status_condition v
    update_stale_label v
    emit_transition_event was_stale v

  unfoldable pub cleanup : Verdict → Exec State Unit
  cleanup v = branch (v.exists_in_git || not (v.retained_by == "")) (mark v) do
    b ← gets (λ s. s.branch)
    branch client.has_recorder (send (emit stale_branch_deleted b) (ok tt)) (pure tt)
    wrapping (text_append "failed to delete stale CodebaseBranch " b.name)
        (send (delete b) (client.delete_answer b))

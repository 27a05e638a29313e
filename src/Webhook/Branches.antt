-- ===== src/Webhook/Branches.antt =====
-- pkg/webhook/codebasebranch_webhook.go, and the webhook of protected_label.go for the other kinds.
use Prim.Native.String.{◌++◌}
use edp_codebase_operator.Prelude.{String, List, [], ◌∷◌, Option, none, some, is_nil, if◌then◌else◌}
use edp_codebase_operator.Effects.{new, wrap, Result, ok, err, is_not_found}
use edp_codebase_operator.Api.Codebase.{Codebase, CodebaseBranch}
use edp_codebase_operator.DeploymentUsage.Branches.{find_branch_usage}
use edp_codebase_operator.Webhook.{
  Object, codebase_branch, Denial, error, or_next, Equality, check_on_delete, check_on_update,
  deny_if_used, WebhookClient,
}

abbrev pub deny_if_listed : Result (List CodebaseBranch) → Option Denial
deny_if_listed (ok []) = none
deny_if_listed (ok (b ∷ bs)) =
    some
      (error (new "CodebaseBranch CR with the same codebase name and branch name already exists"))
deny_if_listed (err e) = some (error (wrap "failed to list CodebaseBranch CRs" e))

-- `hash` stands for `MakeGitBranchHash`, the hexadecimal digits of the hash of a third-party package.
module _ (hash : String → String) (client : WebhookClient) where
  -- `CodebaseBranchValidationWebhook.ValidateCreate`
  unfoldable pub validate_branch_create : Object → Option Denial
  validate_branch_create (codebase_branch b) =
      deny_if_listed
        (client.list_codebase_branches b.namespace b.spec.codebase_name (hash b.spec.branch_name))
  validate_branch_create _ = none

-- `ValidateUpdate` of the webhooks for branches and for protected objects.
unfoldable pub validate_update : Equality → (old_obj new_obj : Object) → Option Denial
validate_update equal old_obj new_obj = check_on_update equal old_obj new_obj

-- `ProtectedLabelValidationWebhook.ValidateDelete`
unfoldable pub validate_delete : Object → Option Denial
validate_delete obj = check_on_delete obj

module _ (client : WebhookClient) where
  -- After the owner is read: a missing or terminating owner means a cascade delete.
  abbrev pub delete_of_owner : CodebaseBranch → Result Codebase → Option Denial
  delete_of_owner b (ok owner) =
      if is_nil owner.deletion_timestamp
      then deny_if_used "codebasebranches" "CodebaseBranch" b.name
          (find_branch_usage client.usage b)
      else none
  delete_of_owner b (err e) =
      if is_not_found e
      then none
      else some (error (wrap ("failed to get codebase " ++ b.spec.codebase_name) e))

  unfoldable pub delete_branch : Object → Option Denial
  delete_branch (codebase_branch b) =
      delete_of_owner b (client.get_codebase b.namespace b.spec.codebase_name)
  delete_branch _ = none

  -- `CodebaseBranchValidationWebhook.ValidateDelete`
  unfoldable pub validate_branch_delete : Object → Option Denial
  validate_branch_delete obj = or_next (check_on_delete obj) (delete_branch obj)

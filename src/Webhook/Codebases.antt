-- ===== src/Webhook/Codebases.antt =====
-- pkg/webhook/codebase_webhook.go: the validation of Codebase resources.
use Prim.Native.String.{◌++◌, count}
use edp_codebase_operator.Prelude.{
  ℕ, suc, String, List, [], ◌∷◌, Option, none, some, ◌==◌, if◌then◌else◌,
}
use edp_codebase_operator.Effects.{Error, new, wrap, Result, ok, err}
use edp_codebase_operator.Api.Codebase.{Codebase}
use edp_codebase_operator.DeploymentUsage.{or_empty}
use edp_codebase_operator.DeploymentUsage.Codebases.{find_codebase_usage}
use edp_codebase_operator.Webhook.{
  Object, codebase, AdmissionRequest, Denial, error, bad_request, or_next, deny_if, Equality,
  check_on_delete, check_on_update, deny_if_used, WebhookClient,
}
use edp_codebase_operator.Webhook.Validation.{validate_codebase_name, is_codebase_valid, trim_git}

-- `util.TrimGitFromURL`, with fuel that is always enough.
unfoldable pub trim_git_from_url : String → String
trim_git_from_url url = or_empty (trim_git (suc (count url)) url)

-- `fmt.Errorf("codebase %s is invalid: %w", name, err)`
abbrev pub invalid : String → Option Denial → Option Denial
invalid name none = none
invalid name (some (error e)) = some (error (wrap ("codebase " ++ name ++ " is invalid") e))
invalid name (some d) = some d

-- The loop over the existing codebases.
unfoldable pub deny_duplicate : (git_url_path : String) → List Codebase → Option Denial
deny_duplicate url [] = none
deny_duplicate url (c ∷ cs) =
    let rest = deny_duplicate url cs in
    if c.spec.git_url_path == url
    then some (
        error (
          new (
            "codebase " ++ c.name ++ " with GitUrlPath " ++ c.spec.git_url_path
            ++ " already exists")))
    else rest

abbrev pub deny_listed : (git_url_path : String) → Result (List Codebase) → Option Denial
deny_listed url (ok cs) = deny_duplicate url cs
deny_listed url (err e) = some (error (wrap "failed to list codebases" e))

abbrev pub list_limit : ℕ
list_limit = 1000

abbrev pub on_request :
    (refuse : Error → Denial)
    → Result AdmissionRequest
    → (AdmissionRequest → Option Denial)
    → Option Denial
on_request refuse (ok r) k = k r
on_request refuse (err e) k = some (refuse (wrap "expected admission.Request in ctx" e))

module _ (client : WebhookClient) where
  unfoldable pub create_codebase : AdmissionRequest → Object → Option Denial
  create_codebase r (codebase c) =
      let url = trim_git_from_url c.spec.git_url_path in
      or_next (validate_codebase_name c.name) (
        or_next (invalid c.name (is_codebase_valid c)) (
          or_next (deny_if (url == "") ("gitUrlPath " ++ c.spec.git_url_path ++ " is invalid"))
            (deny_listed url (client.list_codebases r.namespace list_limit))))
  create_codebase r _ = none

  -- `CodebaseValidationWebhook.ValidateCreate`
  unfoldable pub validate_codebase_create : Result AdmissionRequest → Object → Option Denial
  validate_codebase_create request obj = on_request bad_request request λ r. create_codebase r obj

  unfoldable pub update_codebase : Equality → (old_obj new_obj : Object) → Option Denial
  update_codebase equal old_obj (codebase c) =
      or_next (invalid c.name (is_codebase_valid c)) (check_on_update equal old_obj (codebase c))
  update_codebase equal old_obj _ = none

  -- `CodebaseValidationWebhook.ValidateUpdate`
  unfoldable pub validate_codebase_update :
      Equality → Result AdmissionRequest → (old_obj new_obj : Object) → Option Denial
  validate_codebase_update equal request old_obj new_obj =
      on_request error request λ _. update_codebase equal old_obj new_obj

  unfoldable pub delete_codebase : Object → Option Denial
  delete_codebase (codebase c) =
      deny_if_used "codebases" "Codebase" c.name (find_codebase_usage client.usage c)
  delete_codebase _ = none

  -- `CodebaseValidationWebhook.ValidateDelete`
  unfoldable pub validate_codebase_delete : Result AdmissionRequest → Object → Option Denial
  validate_codebase_delete request obj =
      on_request error request λ _. or_next (check_on_delete obj) (delete_codebase obj)

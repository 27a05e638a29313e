-- ===== src/Webhook.antt =====
-- pkg/webhook/protected_label.go and usage_error.go: what the admission webhooks share. A validator
-- answers `none` to admit the operation, and the error it returns otherwise.
pub mod Validation
pub mod Codebases
pub mod Branches
pub mod Admission
use Prim.Native.String.{◌++◌}
use edp_codebase_operator.Prelude.{
  ℕ, String, List, [], ◌∷◌, Bool, true, false, not, ◌&&◌, Option, none, some, map, contains, Dict,
  get_or_empty, ◌==◌, if◌then◌else◌,
}
use edp_codebase_operator.Effects.{Error, new, wrap, Result, ok, err}
use edp_codebase_operator.Api.{ObjectMeta, CodebaseImageStreamSpec, CodebaseImageStream}
use edp_codebase_operator.Api.Codebase.{
  Codebase, CodebaseSpec, CodebaseBranch, CodebaseBranchSpec, GitServer, GitServerSpec, Condition,
}
use edp_codebase_operator.DeploymentUsage.{UsageClient, Reference, reference_text, join}

-- `runtime.Object`: the kinds that the webhooks tell apart, and any other object.
pub data Object : Type 0 where
  codebase : Codebase → Object
  codebase_branch : CodebaseBranch → Object
  codebase_image_stream : CodebaseImageStream → Object
  git_server : GitServer → Object
  other_object : ObjectMeta → Object

abbrev pub labels_of : Object → Dict String
labels_of (codebase c) = c.labels
labels_of (codebase_branch b) = b.labels
labels_of (codebase_image_stream s) = s.labels
labels_of (git_server g) = g.labels
labels_of (other_object m) = m.labels

-- The fields of `admission.Request` that are read.
pub record AdmissionRequest : Type 0 where
  pub name : String
  pub namespace : String

pub record Cause : Type 0 where
  pub field : String
  pub message : String

-- `metav1.Status` as `newBlockedByUsageError` fills it, with the code 403.
pub record StatusError : Type 0 where
  pub code : ℕ
  pub message : String
  pub resource : String
  pub name : String
  pub causes : List Cause

pub data Denial : Type 0 where
  error : Error → Denial
  bad_request : Error → Denial
  blocked : StatusError → Denial

-- `if err := check(); err != nil { return err }`
abbrev pub or_next : Option Denial → Option Denial → Option Denial
or_next (some d) next = some d
or_next none next = next

abbrev pub deny_if : Bool → String → Option Denial
deny_if true t = some (error (new t))
deny_if false t = none

-- `equality.Semantic.DeepEqual` at the specs of the four kinds.
pub record Equality : Type 0 where
  pub codebase_specs : CodebaseSpec → CodebaseSpec → Bool
  pub branch_specs : CodebaseBranchSpec → CodebaseBranchSpec → Bool
  pub stream_specs : CodebaseImageStreamSpec → CodebaseImageStreamSpec → Bool
  pub git_server_specs : GitServerSpec → GitServerSpec → Bool

-- `strings.Split(s, "-")`
abbrev prepend : String → List String → List String
prepend c [] = c ∷ []
prepend c (t ∷ ts) = (c ++ t) ∷ ts

unfoldable pub split_dashes : String → List String
split_dashes String.[] = "" ∷ []
split_dashes (String.◌∷◌ c s) =
    let rest = split_dashes s in
    let char = String.◌∷◌ c String.[] in if char == "-" then "" ∷ rest else prepend char rest

abbrev pub protected_label : String
protected_label = "app.edp.epam.com/edit-protection"

unfoldable pub has_protected_label : Object → (operation : String) → Bool
has_protected_label obj operation =
    let label = get_or_empty protected_label (labels_of obj) in
    not (label == "") && contains (split_dashes label) operation

unfoldable pub is_spec_updated : Equality → (old_obj new_obj : Object) → Bool
is_spec_updated equal (codebase old) (codebase new_) = not (equal.codebase_specs old.spec new_.spec)
is_spec_updated equal (codebase_branch old) (codebase_branch new_) =
    not (equal.branch_specs old.spec new_.spec)
is_spec_updated equal (codebase_image_stream old) (codebase_image_stream new_) =
    not (equal.stream_specs old.spec new_.spec)
is_spec_updated equal (git_server old) (git_server new_) =
    not (equal.git_server_specs old.spec new_.spec)
is_spec_updated equal _ _ = false

-- `checkResourceProtectionFromModificationOnDelete`
unfoldable pub check_on_delete : Object → Option Denial
check_on_delete obj =
    deny_if (has_protected_label obj "delete")
      "resource contains label that protects it from deletion"

-- `checkResourceProtectionFromModificationOnUpdate`
unfoldable pub check_on_update : Equality → (old_obj new_obj : Object) → Option Denial
check_on_update equal old_obj new_obj =
    deny_if (has_protected_label new_obj "update" && is_spec_updated equal old_obj new_obj)
      "resource contains label that protects it from modification"

-- `newBlockedByUsageError`
unfoldable pub new_blocked_by_usage_error :
    (resource kind name : String) → List Reference → StatusError
new_blocked_by_usage_error resource kind name refs = record {
  code = 403;
  message =
      kind
      ++ " "
      ++ name
      ++ " cannot be deleted because it is used by "
      ++ join refs
      ++ "; remove it from the deployment first";
  resource = resource;
  name = name;
  causes = map (λ r. record { field = r.field; message = reference_text r }) refs;
}

-- The answer on the usage of an object to delete: denied where it fails or finds a reference.
abbrev pub deny_if_used : (resource kind name : String) → Result (List Reference) → Option Denial
deny_if_used resource kind name (ok []) = none
deny_if_used resource kind name (ok (r ∷ refs)) =
    some (blocked (new_blocked_by_usage_error resource kind name (r ∷ refs)))
deny_if_used resource kind name (err e) =
    some (error (wrap ("failed to check " ++ kind ++ " usage") e))

-- What the webhooks ask the API server.
pub record WebhookClient : Type 0 where
  pub list_codebases : (namespace : String) → (limit : ℕ) → Result (List Codebase)
  pub list_codebase_branches :
      (namespace codebase branch_hash : String) → Result (List CodebaseBranch)
  pub get_codebase : (namespace name : String) → Result Codebase
  pub usage : UsageClient

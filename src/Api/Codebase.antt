-- ===== src/Api/Codebase.antt =====
-- api/v1/codebase_types.go, codebasebranch_types.go and git_server_types.go: the fields that the
-- modelled components read or write. Types that are texts in Go stay texts.
use edp_codebase_operator.Prelude.{ℕ, String, List, Option, Bool, Dict, ◌||◌, ◌==◌}
use edp_codebase_operator.Api.{ObjectMeta}

pub record Versioning : Type 0 where
  pub type_ : String
  pub start_from : Option String

-- `CloneRepositoryCredentials`; `secret_name` is the name of its `SecretRef`.
pub record CloneRepositoryCredentials : Type 0 where
  pub secret_name : String
  pub clear_secret_after_use : Bool

pub record CodebaseSpec : Type 0 where
  pub lang : String
  pub framework : String
  pub build_tool : String
  pub strategy : String
  -- the URL of `Repository`
  pub repository : Option String
  pub type_ : String
  pub git_server : String
  pub git_url_path : String
  pub versioning : Versioning
  pub ci_tool : String
  pub default_branch : String
  pub empty_project : Bool
  pub branch_to_copy_in_default_branch : String
  pub disable_put_deploy_templates : Bool
  pub is_private : Bool
  pub clone_repository_credentials : Option CloneRepositoryCredentials

-- A webhook ID that is 0 counts as none.
pub record CodebaseStatus : Type 0 where
  pub available : Bool
  pub last_time_updated : ℕ
  pub status : String
  pub username : String
  pub action : String
  pub result : String
  pub detailed_message : String
  pub value : String
  pub failure_count : ℕ
  pub git : String
  pub web_hook_id : ℕ
  pub web_hook_ref : String
  pub git_web_url : String

pub record Codebase : Type 0 where
  pub meta : ObjectMeta
  pub open meta use *
  pub spec : CodebaseSpec
  pub status : CodebaseStatus

abbrev pub versioning_typ_default : String
versioning_typ_default = "default"

-- `IsVersionTypeSemver`
abbrev pub is_version_type_semver : CodebaseSpec → Bool
is_version_type_semver spec = spec.versioning.type_ == "semver" || spec.versioning.type_ == "edp"

pub record GitServerSpec : Type 0 where
  pub git_host : String
  pub git_user : String
  pub git_provider : String
  pub ssh_port : ℕ
  pub name_ssh_key_secret : String
  pub webhook_url : String
  pub skip_webhook_ssl_verification : Bool
  pub tekton_disabled : Bool

pub record GitServerStatus : Type 0 where
  pub error : String
  pub connected : Bool
  pub status : String

pub record GitServer : Type 0 where
  pub meta : ObjectMeta
  pub open meta use *
  pub spec : GitServerSpec
  pub status : GitServerStatus

-- `SetFailed` and `SetSuccess`
unfoldable pub set_failed : (error : String) → GitServerStatus → GitServerStatus
set_failed e st = record st { error = e; status = "failed" }

unfoldable pub set_success : GitServerStatus → GitServerStatus
set_success st = record st { error = ""; status = "ok" }

pub record CodebaseBranchSpec : Type 0 where
  pub codebase_name : String
  pub branch_name : String
  pub from_commit : String
  pub version : Option String
  pub release : Bool
  pub pipelines : Dict String

pub data ConditionStatus : Type 0 where
  condition_true condition_false condition_unknown : ConditionStatus

-- `metaV1.Condition`
pub record Condition : Type 0 where
  pub type_ : String
  pub status : ConditionStatus
  pub reason : String
  pub message : String
  pub observed_generation : ℕ

pub record CodebaseBranchStatus : Type 0 where
  pub last_time_updated : ℕ
  pub version_history : List String
  pub last_successful_build : Option String
  pub build : Option String
  pub status : String
  pub username : String
  pub action : String
  pub result : String
  pub detailed_message : String
  pub value : String
  pub failure_count : ℕ
  pub git : String
  pub conditions : List Condition

pub record CodebaseBranch : Type 0 where
  pub meta : ObjectMeta
  pub open meta use *
  pub spec : CodebaseBranchSpec
  pub status : CodebaseBranchStatus

-- `CodebaseBranchGitStatusBranchCreated`
abbrev pub branch_created : String
branch_created = "branch-created"

-- A Kubernetes secret.
pub record Secret : Type 0 where
  pub contents : Dict String

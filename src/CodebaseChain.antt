-- ===== src/CodebaseChain.antt =====
-- controllers/codebase: the actions of the handlers of a codebase, and the world that answers them.
pub mod Modifier
pub mod Status
pub mod Repository
pub mod Project
pub mod Configs
pub mod WebHooks
pub mod Cleaning
pub mod Controller
use edp_codebase_operator.Prelude.{ℕ, String, Bool, List, [], ◌∷◌, ◌++◌}
use edp_codebase_operator.Effects.{Result, Exec}
use edp_codebase_operator.Api.Codebase.{Codebase, CodebaseBranch, GitServer, Secret}

-- What the handlers do outside the process: requests to the API server, to a git server or to its web
-- API, and changes of the work directory. The commands of git are those of the interface `Git`.
pub data Action : Type 0 where
  update_codebase update_codebase_status patch_codebase patch_codebase_status : Codebase → Action
  update_secret : (namespace name : String) → Secret → Action
  delete_secret : (namespace name : String) → Action
  create_codebase_branch : CodebaseBranch → Action
  create_directory remove_directory : (path : String) → Action
  copy_file : (source destination : String) → Action
  prepare_templates inject_gitlab_ci_config : Codebase → (directory : String) → Action
  resolve_remote_reference : (url reference : String) → Action
  clone : (user token url directory : String) → Action
  init : (directory : String) → Action
  commit : (directory message : String) → (allow_empty : Bool) → Action
  remove_branch : (directory branch : String) → Action
  create_child_branch : (directory parent child : String) → Action
  checkout : (user token directory branch : String) → (remote : Bool) → Action
  checkout_remote_branch : (directory branch : String) → Action
  add_remote_link : (directory url : String) → Action
  -- all branches, and all tags where the flag says so
  push : (directory : String) → (tags : Bool) → Action
  create_gerrit_project : (project : String) → Action
  set_gerrit_head : (project branch : String) → Action
  create_project : (token project : String) → (is_private : Bool) → Action
  set_default_branch : (token project branch : String) → Action
  get_web_hook delete_web_hook : (token project reference : String) → Action

-- The codebase that the handlers share by a pointer, and the actions so far.
pub record State : Type 0 where
  pub codebase : Codebase
  pub done : List Action

-- The answers, of which those that can change during a run depend on the actions before them.
-- `working_dir` is the prefix of the work directory, `/home` where WORKING_DIR is not set.
pub record World : Type 0 where
  pub now : ℕ
  pub decimal : ℕ → String
  pub working_dir : String
  pub assets_dir : Result String
  pub answer : (before : List Action) → Action → Result Unit
  pub get_git_server : (namespace name : String) → Result GitServer
  pub get_secret : (namespace name : String) → Result Secret
  pub get_quick_link : (namespace name : String) → Result String
  pub get_codebase_branch : (namespace name : String) → Result CodebaseBranch
  pub path_exists : (before : List Action) → (path : String) → Bool
  pub is_directory_empty : (before : List Action) → (path : String) → Bool
  pub current_branch : (before : List Action) → (directory : String) → Result String
  pub new_git_provider : GitServer → (token : String) → Result Unit
  pub project_exists : (before : List Action) → (token project : String) → Result Bool
  pub gerrit_project_exists : (before : List Action) → (project : String) → Result Bool
  pub random_string : Result String
  -- `platform.IsK8S` and `platform.IsEnvoy`
  pub is_k8s : Bool
  pub is_envoy : Bool
  -- the hosts of an ingress, of an HTTPRoute, and of the status of an OpenShift route
  pub get_ingress : (namespace name : String) → Result (List String)
  pub get_http_route : (namespace name : String) → Result (List String)
  pub get_route : (namespace name : String) → Result (List String)
  pub create_web_hook :
      (before : List Action)
      → (token project secret url : String) → (skip_tls : Bool) → Result String

abbrev pub Handler : Type 0
Handler = Exec State Unit

-- An action with its answer.
abbrev pub act : World → Action → Handler
act w a s = (w.answer s.done a, record s { done = s.done ++ a ∷ [] })

abbrev pub set_codebase : (Codebase → Codebase) → State → State
set_codebase f s = record s { codebase = f s.codebase }

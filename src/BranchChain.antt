-- ===== src/BranchChain.antt =====
-- controllers/codebasebranch/chain: what the handlers of a CodebaseBranch read and write. `now` stands for
-- `metav1.Now()` during one run of the chain.
pub mod Git
pub mod ImageStreams
pub mod Versions
pub mod Chain
use edp_codebase_operator.Prelude.{ℕ, String, List, [], ◌∷◌, ◌++◌, Dict}
use edp_codebase_operator.Effects.{Error, Result, ok, err, Exec, wrapping}
use edp_codebase_operator.Api.{CodebaseImageStream}
use edp_codebase_operator.Api.Codebase.{
  Codebase, CodebaseBranch, CodebaseBranchStatus, GitServer, Secret,
}

-- The answers of the API server, and of the git server behind `GitProviderFactory`.
pub record BranchClient : Type 0 where
  pub now : ℕ
  pub decimal : ℕ → String
  pub get_codebase : (namespace name : String) → Result Codebase
  pub get_git_server : (namespace name : String) → Result GitServer
  pub get_secret : (namespace name : String) → Result Secret
  pub resolve_remote_reference : GitServer → Secret → (url reference : String) → Result Unit
  pub create_remote_branch : GitServer → Secret → (url name from : String) → Result Unit
  pub update_status : CodebaseBranch → Result Unit
  pub update : CodebaseBranch → Result Unit
  pub list_image_streams : (branch namespace : String) → Result (List CodebaseImageStream)
  pub get_image_stream : (namespace name : String) → Result CodebaseImageStream
  pub get_config_map : (namespace name : String) → Result (Dict String)
  pub set_controller_reference : CodebaseBranch → CodebaseImageStream → Result CodebaseImageStream
  pub create_image_stream : CodebaseImageStream → Result Unit
  pub patch_image_stream : CodebaseImageStream → Result Unit

-- What is sent to the cluster or to git, in order.
pub data Request : Type 0 where
  update_status update : CodebaseBranch → Request
  create_remote_branch : (url name from : String) → Request
  create_image_stream patch_image_stream : CodebaseImageStream → Request

-- The branch that the handlers share by a pointer, and the requests sent so far.
pub record State : Type 0 where
  pub branch : CodebaseBranch
  pub sent : List Request

abbrev pub Handler : Type 0
Handler = Exec State Unit

abbrev pub send : Request → Result Unit → Handler
send q r s = (r, record s { sent = s.sent ++ q ∷ [] })

-- `cb.Status = …`
abbrev pub set_branch_status : (CodebaseBranchStatus → CodebaseBranchStatus) → State → State
set_branch_status f s = record s { branch = record (s.branch) { status = f s.branch.status } }

-- `NextServeOrNil` with a handler, and the wrapping that follows it.
abbrev pub serve_next : (text : String) → (next : Handler) → Handler
serve_next text next = wrapping text (wrapping "failed to server handler in a chain" next)

-- `if err := m(); err != nil { return handle(err) }`
module _ {A : Type 0} where
  abbrev pub recover : Result A → (Error → Exec State A) → Exec State A
  recover (ok a) handle s = (ok a, s)
  recover (err e) handle s = handle e s

  abbrev pub rescue : Exec State A → (Error → Exec State A) → Exec State A
  rescue m handle s = let (r, s') = m s in recover r handle s'

-- ===== src/BranchController.antt =====
-- controllers/codebasebranch/codebasebranch_controller.go: one reconciliation of a CodebaseBranch, with
-- pkg/util/reconcilation.go, pkg/codebasebranch/labels.go and chain/empty. Durations are nanoseconds, and
-- a result that comes with an error is not modelled, since the controller runtime does not read it.
pub mod Parts
pub mod Removal
pub mod Reconcile
pub mod Defaults
pub mod Labels
pub mod Kept
pub mod Released
pub mod Outcome
pub mod Finished
use edp_codebase_operator.Prelude.{ℕ, suc, String, List, ◌+◌, ◌*◌, ltb, if◌then◌else◌}
use edp_codebase_operator.Effects.{Result}
use edp_codebase_operator.Api.Codebase.{Codebase, CodebaseBranch}
use edp_codebase_operator.BranchChain.{BranchClient, Request, Handler}

-- The answers of the API server and the parts of other packages. `get_branch` answers by the requests
-- that were sent before it. `branch_hash` stands for the hexadecimal xxhash sum of a text,
-- `scale_by_e base n` for `time.Duration(float64(base) * math.Pow(math.E, float64(n)))`, and
-- `retry_on_conflict` for `retry.RetryOnConflict(retry.DefaultRetry, f)`.
pub record BranchCluster : Type 0 where
  pub chain_client : BranchClient
  pub get_branch : (before : List Request) → (namespace name : String) → Result CodebaseBranch
  pub set_controller_reference : Codebase → CodebaseBranch → Result CodebaseBranch
  pub branch_hash : String → String
  pub scale_by_e : (base factor : ℕ) → ℕ
  pub retry_on_conflict : Handler → Handler

abbrev pub second : ℕ
second = 1000000000

-- `util.GetTimeout`, on a count of failures that is not negative
unfoldable pub get_timeout : (scale_by_e : ℕ → ℕ → ℕ) → (factor base_duration : ℕ) → ℕ
get_timeout scale_by_e factor base_duration =
    if ltb factor 10 then (factor + 1) * base_duration else scale_by_e base_duration (factor + 1)

-- ===== src/BranchController/Kept.antt =====
-- codebasebranch_controller.go: the steps of a reconciliation stay at one branch, by its name and
-- namespace.
use edp_codebase_operator.Prelude.{String, ◌≡◌, arith}
use edp_codebase_operator.Api.Codebase.{Codebase, CodebaseBranch}
use edp_codebase_operator.BranchChain.{BranchClient, State}
use edp_codebase_operator.BranchChain.Git.{
  serve_check_reference, check_reference, serve_put_branch, put_branch,
}
use edp_codebase_operator.BranchChain.Versions.{serve_new_version, process_new_version}
use edp_codebase_operator.BranchChain.ImageStreams.{serve_image_stream_of_branch}
use edp_codebase_operator.BranchChain.Chain.{get_chain}
use edp_codebase_operator.BranchChain.Chain.Created.{stream-branch}
use edp_codebase_operator.BranchController.{BranchCluster}
use edp_codebase_operator.BranchController.Parts.{add_codebase_label}
use edp_codebase_operator.BranchController.Removal.{add_missing_finalizer}
use edp_codebase_operator.BranchController.Reconcile.{init_build}

-- The object is the one of this name in this namespace.
abbrev pub IsAt : (namespace name : String) → CodebaseBranch → Type 0
IsAt namespace name b = (b.namespace ≡ namespace) × (b.name ≡ name)

module _ (client : BranchClient) where
  stream-meta : (s : State) → (serve_image_stream_of_branch client s).1.branch.meta ≡ s.branch.meta
  unfolding serve_image_stream_of_branch
  stream-meta s = grind (arith, stream-branch)

  version-meta :
      (c : Codebase) (s : State) → (process_new_version client c s).1.branch.meta ≡ s.branch.meta
  unfolding process_new_version
  version-meta c s = ground arith

  version_next-meta :
      (s : State)
      → (serve_new_version client (serve_image_stream_of_branch client) s).1.branch.meta
        ≡ s.branch.meta
  unfolding serve_new_version
  version_next-meta s = grind (arith, version-meta, stream-meta)

  put_branch-meta :
      (b : CodebaseBranch) (c : Codebase) (s : State)
      → (put_branch client b c s).1.branch.meta ≡ s.branch.meta
  unfolding put_branch
  put_branch-meta b c s = ground arith

  serve_put-meta :
      (s : State)
      → (serve_put_branch client
          (serve_new_version client (serve_image_stream_of_branch client))
          s).1.branch.meta
        ≡ s.branch.meta
  unfolding serve_put_branch
  serve_put-meta s = grind (arith, put_branch-meta, version_next-meta)

  -- The chain changes nothing of the object but its spec and its status.
  pub chain-meta : (s : State) → (get_chain client s).1.branch.meta ≡ s.branch.meta
  unfolding get_chain serve_check_reference check_reference
  chain-meta s = grind (arith, serve_put-meta)

module _ (c : BranchCluster) (namespace name : String) where
  pub label-IsAt :
      (codebase : String) (s : State)
      → IsAt namespace name s.branch
      → IsAt namespace name (add_codebase_label c codebase s).1.branch
  unfolding add_codebase_label
  label-IsAt codebase s (ns, n) = (ground arith, ground arith)

  pub finalizer-IsAt :
      (s : State)
      → IsAt namespace name s.branch
      → IsAt namespace name (add_missing_finalizer c s).1.branch
  unfolding add_missing_finalizer
  finalizer-IsAt s (ns, n) = (ground arith, ground arith)

  pub init-IsAt :
      (codebase : Codebase) (s : State)
      → IsAt namespace name s.branch
      → IsAt namespace name (init_build c codebase s).1.branch
  unfolding init_build
  init-IsAt codebase s (ns, n) = (ground arith, ground arith)

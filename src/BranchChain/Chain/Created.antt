-- ===== src/BranchChain/Chain/Created.antt =====
-- controllers/codebasebranch/chain: the git status after the chain.
use edp_codebase_operator.Prelude.{◌≡◌, eq_iff, arith}
use edp_codebase_operator.Effects.{ok}
use edp_codebase_operator.Api.Codebase.{Codebase, CodebaseBranch, branch_created}
use edp_codebase_operator.BranchChain.{BranchClient, State}
use edp_codebase_operator.BranchChain.Git.{
  serve_check_reference, check_reference, serve_put_branch, put_branch,
}
use edp_codebase_operator.BranchChain.Versions.{serve_new_version, process_new_version}
use edp_codebase_operator.BranchChain.ImageStreams.{
  serve_image_stream_of_branch, create_codebase_image_stream_if_not_exists, label_existing,
  create_missing,
}
use edp_codebase_operator.BranchChain.Chain.{get_chain}

module _ (client : BranchClient) where
  -- The handlers behind the creation of the branch keep the git status.
  pub stream-branch :
      (b : CodebaseBranch) (s : State)
      → (create_codebase_image_stream_if_not_exists client b s).1.branch ≡ s.branch
  unfolding create_codebase_image_stream_if_not_exists label_existing create_missing
  stream-branch b s = ground arith

  stream-git :
      (s : State)
      → (serve_image_stream_of_branch client s).1.branch.status.git ≡ s.branch.status.git
  unfolding serve_image_stream_of_branch
  stream-git s = grind (arith, stream-branch)

  version-git :
      (c : Codebase) (s : State)
      → (process_new_version client c s).1.branch.status.git ≡ s.branch.status.git
  unfolding process_new_version
  version-git c s = ground arith

  version-next-git :
      (s : State)
      → (serve_new_version client (serve_image_stream_of_branch client) s).1.branch.status.git
        ≡ s.branch.status.git
  unfolding serve_new_version
  version-next-git s = grind (arith, version-git, stream-git)

  put_branch-git :
      (b : CodebaseBranch) (c : Codebase) (s : State)
      → (put_branch client b c s).0 ≡ ok tt
      → (put_branch client b c s).1.branch.status.git ≡ branch_created
  unfolding put_branch
  put_branch-git b c s h = ground arith

  serve_put-git :
      (s : State)
      → let h =
          serve_put_branch client
            (serve_new_version client (serve_image_stream_of_branch client)) in
        (h s).0 ≡ ok tt → (h s).1.branch.status.git ≡ branch_created
  unfolding serve_put_branch
  serve_put-git s h =
      grind (arith, put_branch-git, version-next-git, eq_iff s.branch.status.git branch_created)

  -- Where the chain succeeds, the git status says that the branch is created.
  pub success_means_created :
      (s : State)
      → (get_chain client s).0 ≡ ok tt
      → (get_chain client s).1.branch.status.git ≡ branch_created
  unfolding get_chain serve_check_reference check_reference
  success_means_created s h = grind (arith, serve_put-git)

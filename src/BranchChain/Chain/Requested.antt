-- ===== src/BranchChain/Chain/Requested.antt =====
-- controllers/codebasebranch/chain: when git is asked for a new branch.
use edp_codebase_operator.Prelude.{
  List, [], ◌∷◌, ◌++◌, Bool, true, false, ◌||◌, ◌≡◌, ◌≢◌, refl, inl, inr, eq_iff, arith,
}
use edp_codebase_operator.Effects.{ok, Result-cases}
use edp_codebase_operator.Api.Codebase.{Codebase, CodebaseBranch, branch_created}
use edp_codebase_operator.BranchChain.{BranchClient, State, Request, create_remote_branch}
use edp_codebase_operator.BranchChain.Git.{
  serve_check_reference, check_reference, serve_put_branch, put_branch,
}
use edp_codebase_operator.BranchChain.Versions.{serve_new_version, process_new_version}
use edp_codebase_operator.BranchChain.ImageStreams.{
  serve_image_stream_of_branch, create_codebase_image_stream_if_not_exists, label_existing,
  create_missing,
}
use edp_codebase_operator.BranchChain.Chain.{get_chain}

abbrev pub is_branch_request : Request → Bool
is_branch_request (create_remote_branch url name from) = true
is_branch_request _ = false

-- Git is asked for a branch by one of the requests.
unfoldable pub asks_git : List Request → Bool
asks_git [] = false
asks_git (q ∷ qs) = is_branch_request q || asks_git qs

asks_git-append :
    (qs : List Request) (q : Request)
    → asks_git (qs ++ q ∷ []) ≡ (asks_git qs || is_branch_request q)
unfolding asks_git
asks_git-append [] q = ground arith
asks_git-append (p ∷ qs) q = ground (arith, asks_git-append qs q)

module _ (client : BranchClient) where
  stream-asks :
      (b : CodebaseBranch) (s : State)
      → asks_git (create_codebase_image_stream_if_not_exists client b s).1.sent ≡ asks_git s.sent
  unfolding create_codebase_image_stream_if_not_exists label_existing create_missing
  stream-asks b s = grind (arith, asks_git-append)

  serve_stream-asks :
      (s : State) → asks_git (serve_image_stream_of_branch client s).1.sent ≡ asks_git s.sent
  unfolding serve_image_stream_of_branch
  serve_stream-asks s = grind (arith, stream-asks, asks_git-append)

  version-asks :
      (c : Codebase) (s : State)
      → asks_git (process_new_version client c s).1.sent ≡ asks_git s.sent
  unfolding process_new_version
  version-asks c s = grind (arith, asks_git-append)

  version_next-asks :
      (s : State)
      → asks_git (serve_new_version client (serve_image_stream_of_branch client) s).1.sent
        ≡ asks_git s.sent
  unfolding serve_new_version
  version_next-asks s = grind (arith, version-asks, serve_stream-asks)

  put_branch-asks :
      (b : CodebaseBranch) (c : Codebase) (s : State)
      → asks_git s.sent ≡ false
      → asks_git (put_branch client b c s).1.sent ≡ true
      → c.status.available ≡ true
  unfolding put_branch
  put_branch-asks b c s h k = grind (arith, asks_git-append)

  -- The codebase of the branch is found and is available.
  abbrev pub HasCodebase : CodebaseBranch → Type 0
  HasCodebase b =
      (c : Codebase) × (client.get_codebase b.namespace b.spec.codebase_name ≡ ok c)
      × (c.status.available ≡ true)

  serve_put-asks :
      (s : State)
      → let h =
          serve_put_branch client
            (serve_new_version client (serve_image_stream_of_branch client)) in
        asks_git s.sent ≡ false
        → asks_git (h s).1.sent ≡ true
        → (s.branch.status.git ≢ branch_created) × HasCodebase s.branch
  unfolding serve_put_branch
  serve_put-asks s none_before k =
      elim (Result-cases (client.get_codebase s.branch.namespace s.branch.spec.codebase_name)) [
        | inl (c, e) ↦
            let asked : (s.branch.status.git ≢ branch_created) × (c.status.available ≡ true) =
              grind (
                arith,
                asks_git-append,
                put_branch-asks,
                version_next-asks,
                eq_iff s.branch.status.git branch_created,
              ) in
            (asked.0, (c, e, asked.1))
        | inr (x, e) ↦
            let absurd : ⊥ = grind (
              arith,
              asks_git-append,
              version_next-asks,
              eq_iff s.branch.status.git branch_created,
            ) in
            elim absurd [ ]
      ]

  -- The chain asks git for a branch only where git is not yet said to have it, and the codebase of the
  -- branch is found and available.
  pub asked_only_when_new :
      (b : CodebaseBranch)
      → asks_git (get_chain client (record { branch = b; sent = [] })).1.sent ≡ true
      → (b.status.git ≢ branch_created) × HasCodebase b
  unfolding get_chain serve_check_reference check_reference asks_git
  asked_only_when_new b h =
      let s : State = record { branch = b; sent = [] } in
      let through : asks_git
            (serve_put_branch client
              (serve_new_version client (serve_image_stream_of_branch client)) s).1.sent
          ≡ true =
        ground arith in
      serve_put-asks s refl through

-- ===== src/BranchChain/Chain/Answered.antt =====
-- controllers/codebasebranch/chain: a chain that succeeds has had the branch created in git.
use edp_codebase_operator.Prelude.{
  String, List, [], ◌∷◌, ◌++◌, Bool, true, false, ◌&&◌, ◌||◌, ◌≡◌, ◌∙◌, ◌⊎◌, sym, subst, inl, inr,
  ◌==◌, eq_iff, eq_refl, Bool-cases, arith,
}
use edp_codebase_operator.Effects.{ok, Result-cases}
use edp_codebase_operator.Api.Codebase.{Codebase, CodebaseBranch, GitServer, Secret, branch_created}
use edp_codebase_operator.BranchChain.{BranchClient, State, Request, create_remote_branch}
use edp_codebase_operator.BranchChain.Git.{
  serve_check_reference, check_reference, serve_put_branch, put_branch, store_created,
  set_intermediate_success_fields, from_ref,
}
use edp_codebase_operator.Url.{get_project_git_url, get_project_id}
use edp_codebase_operator.BranchChain.Versions.{serve_new_version, process_new_version}
use edp_codebase_operator.BranchChain.ImageStreams.{
  serve_image_stream_of_branch, create_codebase_image_stream_if_not_exists, label_existing,
  create_missing,
}
use edp_codebase_operator.BranchChain.Chain.{get_chain}
use edp_codebase_operator.BranchChain.Chain.Created.{success_means_created}

abbrev pub is_request_for : (url name from : String) → Request → Bool
is_request_for url name from (create_remote_branch u n f) = u == url && n == name && f == from
is_request_for url name from _ = false

-- Git is asked for this branch by one of the requests.
unfoldable pub asks_for : (url name from : String) → List Request → Bool
asks_for url name from [] = false
asks_for url name from (q ∷ qs) = is_request_for url name from q || asks_for url name from qs

module _ (url name from : String) where
  asks_for-append :
      (qs : List Request) (q : Request)
      → asks_for url name from (qs ++ q ∷ [])
        ≡ (asks_for url name from qs || is_request_for url name from q)
  unfolding asks_for
  asks_for-append [] q = ground arith
  asks_for-append (p ∷ qs) q = ground (arith, asks_for-append qs q)

  module _ (client : BranchClient) where
    stream-asks_for :
        (b : CodebaseBranch) (s : State)
        → asks_for url name from (create_codebase_image_stream_if_not_exists client b s).1.sent
          ≡ asks_for url name from s.sent
    unfolding create_codebase_image_stream_if_not_exists label_existing create_missing
    stream-asks_for b s = grind (arith, asks_for-append)

    serve_stream-asks_for :
        (s : State)
        → asks_for url name from (serve_image_stream_of_branch client s).1.sent
          ≡ asks_for url name from s.sent
    unfolding serve_image_stream_of_branch
    serve_stream-asks_for s = grind (arith, stream-asks_for, asks_for-append)

    version-asks_for :
        (c : Codebase) (s : State)
        → asks_for url name from (process_new_version client c s).1.sent
          ≡ asks_for url name from s.sent
    unfolding process_new_version
    version-asks_for c s = grind (arith, asks_for-append)

    version_next-asks_for :
        (s : State)
        → asks_for url name from
            (serve_new_version client (serve_image_stream_of_branch client) s).1.sent
          ≡ asks_for url name from s.sent
    unfolding serve_new_version
    version_next-asks_for s = grind (arith, version-asks_for, serve_stream-asks_for)

module _ (client : BranchClient) where
  -- Git was asked for the branch of this name, and said that it has created it.
  unfoldable pub IsCreated : (name : String) → List Request → Type 0
  IsCreated name sent =
      (g : GitServer) × (secret : Secret) × (url : String) × (from : String)
      × (client.create_remote_branch g secret url name from ≡ ok tt)
      × (asks_for url name from sent ≡ true)

  put_branch-IsCreated :
      (b : CodebaseBranch) (c : Codebase) (s : State)
      → (put_branch client b c s).0 ≡ ok tt
      → IsCreated b.spec.branch_name (put_branch client b c s).1.sent
  unfolding put_branch store_created IsCreated
  put_branch-IsCreated b c s h =
      elim (Result-cases (client.get_git_server b.namespace c.spec.git_server)) [
        | inr (e, q) ↦ absurd (ground arith)
        | inl (g, e) ↦
            elim (Result-cases (client.get_secret b.namespace g.spec.name_ssh_key_secret)) [
              | inr (x, q) ↦ absurd (ground arith)
              | inl (secret, q) ↦
                  let url = get_project_git_url client.decimal g secret (get_project_id c.spec) in
                  let from = from_ref client b c in
                  let answer : client.create_remote_branch g secret url b.spec.branch_name from
                      ≡ ok tt =
                    ground arith in
                  (
                    g,
                    secret,
                    url,
                    from,
                    answer,
                    grind (
                      arith,
                      asks_for-append url b.spec.branch_name from,
                      eq_refl url,
                      eq_refl b.spec.branch_name,
                      eq_refl from,
                    ),
                  )
            ]
      ]

  IsCreated-next :
      (name : String) (s : State)
      → IsCreated name s.sent
      → IsCreated name (serve_new_version client (serve_image_stream_of_branch client) s).1.sent
  unfolding IsCreated
  IsCreated-next name s (g, secret, url, from, answer, asked) =
      (g, secret, url, from, answer, version_next-asks_for url name from client s ∙ asked)

  serve_put-IsCreated :
      (s : State)
      → let h =
          serve_put_branch client
            (serve_new_version client (serve_image_stream_of_branch client)) in
        (h s).0 ≡ ok tt
        → (s.branch.status.git ≡ branch_created) ⊎ IsCreated s.branch.spec.branch_name (h s).1.sent
  unfolding serve_put_branch set_intermediate_success_fields
  serve_put-IsCreated s h = elim (Bool-cases (s.branch.status.git == branch_created)) [
    | inl e ↦ inl ((eq_iff s.branch.status.git branch_created).0 e)
    | inr e ↦
        elim (Result-cases (client.get_codebase s.branch.namespace s.branch.spec.codebase_name)) [
          | inr (x, q) ↦ absurd (ground arith)
          | inl (c, q) ↦
              let s₁ : State = (set_intermediate_success_fields client s).1 in
              let s₂ : State = (put_branch client s.branch c s₁).1 in
              let put : (put_branch client s.branch c s₁).0 ≡ ok tt = ground arith in
              let next = serve_new_version client (serve_image_stream_of_branch client) in
              let h' = serve_put_branch client next in
              let same : (h' s).1.sent ≡ (next s₂).1.sent = ground arith in
              inr (
                subst (IsCreated s.branch.spec.branch_name) (sym same) (
                  IsCreated-next s.branch.spec.branch_name s₂
                    (put_branch-IsCreated s.branch c s₁ put)))
        ]
  ]

  -- Where the chain of a branch succeeds, its status says that the branch is created in git; and either
  -- the status said so before, or git was asked for the branch by name and answered without an error.
  pub success_means_asked :
      (b : CodebaseBranch)
      → let (r, after) = get_chain client (record { branch = b; sent = [] }) in
        r ≡ ok tt
        → (after.branch.status.git ≡ branch_created)
          × ((b.status.git ≡ branch_created) ⊎ IsCreated b.spec.branch_name after.sent)
  unfolding get_chain serve_check_reference check_reference
  success_means_asked b h =
      let s : State = record { branch = b; sent = [] } in
      let put =
        serve_put_branch client (serve_new_version client (serve_image_stream_of_branch client)) in
      let served : (put s).0 ≡ ok tt = ground arith in
      let same : (get_chain client s).1.sent ≡ (put s).1.sent = ground arith in
      (
        success_means_created client s h,
        elim (serve_put-IsCreated s served) [
          | inl old ↦ inl old
          | inr asked ↦ inr (subst (IsCreated b.spec.branch_name) (sym same) asked)
        ],
      )

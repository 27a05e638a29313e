-- ===== src/BranchController/Outcome.antt =====
-- codebasebranch_controller.go: what a reconciliation stores when the chain has run.
use edp_codebase_operator.Prelude.{
  ℕ, String, List, false, some, ◌≡◌, refl, ap, subst, ◌+◌, ◌*◌, inl, inr, arith, Bool-cases,
}
use edp_codebase_operator.Effects.{
  Error, Result, ok, err, modify, wrap, is_reconcile_error, Result-cases, continue, or_wrap, branch,
}
use edp_codebase_operator.Api.Codebase.{CodebaseBranch, branch_created}
use edp_codebase_operator.BranchChain.{State, Request, update_status, set_branch_status}
use edp_codebase_operator.BranchChain.Chain.{get_chain}
use edp_codebase_operator.BranchChain.Chain.Created.{success_means_created}
use edp_codebase_operator.BranchController.{BranchCluster, second}
use edp_codebase_operator.BranchController.Kept.{chain-meta}
use edp_codebase_operator.BranchController.Parts.{
  stored_with, update_branch_status, set_success_status, success_status, set_failure_count,
}
use edp_codebase_operator.BranchController.Reconcile.{
  after_chain, on_chain_error, serve_branch_chain,
}
use edp_codebase_operator.BranchController.Released.{last_request, last_request-append}

abbrev or_none : Result ℕ → ℕ
or_none (ok t) = t
or_none (err e) = 0

-- What `Reconcile` promises of the branch after a run of the chain without an error.
abbrev pub Finished : CodebaseBranch → CodebaseBranch → Type 0
Finished fetched stored =
    (stored.status.status ≡ "created")
    × (stored.status.git ≡ branch_created)
    × (stored.status.failure_count ≡ 0)
    × (stored.status.conditions ≡ fetched.status.conditions)
    × (stored.spec ≡ fetched.spec)
    × (stored.meta ≡ fetched.meta)

-- An error of the chain that is counted.
abbrev pub Counted : ℕ → CodebaseBranch → CodebaseBranch → Type 0
Counted n fetched stored =
    (stored.status.failure_count ≡ n + 1)
    × (stored.status.conditions ≡ fetched.status.conditions)
    × (stored.spec ≡ fetched.spec)
    × (stored.meta ≡ fetched.meta)

module _ (c : BranchCluster) where
  -- The last request stores the branch of this name, as the API server held it at some time of the run.
  unfoldable pub Stores :
      (namespace name : String) → (CodebaseBranch → CodebaseBranch → Type 0) → List Request → Type 0
  Stores namespace name Holds sent =
      (before : List Request) × (fetched stored : CodebaseBranch) × (c.get_branch before namespace
          name
        ≡ ok fetched)
      × (last_request sent ≡ some (update_status stored))
      × Holds fetched stored

  update-Stores :
      (s : State) (fetched : CodebaseBranch)
      → c.get_branch s.sent s.branch.namespace s.branch.name ≡ ok fetched
      → Stores s.branch.namespace s.branch.name
          (λ f stored. stored ≡ stored_with s.branch.status f)
          (update_branch_status c s).1.sent
  unfolding update_branch_status Stores
  update-Stores s fetched e =
      let stored : CodebaseBranch = stored_with s.branch.status fetched in
      rw (e, or_wrap, continue)
        (s.sent, fetched, stored, e, last_request-append s.sent (update_status stored), refl)

  -- A status is stored only where the branch could be read.
  fetched_of_updated :
      (s : State)
      → (update_branch_status c s).0 ≡ ok tt
      → (fetched : CodebaseBranch) × (c.get_branch s.sent s.branch.namespace s.branch.name
          ≡ ok fetched)
  unfolding update_branch_status
  fetched_of_updated s h =
      elim (Result-cases (c.get_branch s.sent s.branch.namespace s.branch.name)) [
        | inl found ↦ found
        | inr (e, q) ↦ cc (rw (q, or_wrap, continue) at h)
      ]

  Stores-mono :
      (namespace name : String) (P Q : CodebaseBranch → CodebaseBranch → Type 0)
      (sent : List Request)
      → ((fetched stored : CodebaseBranch) → P fetched stored → Q fetched stored)
      → Stores namespace name P sent
      → Stores namespace name Q sent
  unfolding Stores
  Stores-mono namespace name P Q sent f (before, fetched, stored, e, l, p) =
      (before, fetched, stored, e, l, f fetched stored p)

  success-Stores :
      (s : State)
      → s.branch.status.git ≡ branch_created
      → (set_success_status c "ci_configuration" s).0 ≡ ok tt
      → Stores s.branch.namespace s.branch.name Finished
          (set_success_status c "ci_configuration" s).1.sent
  unfolding set_success_status success_status stored_with
  success-Stores s g h =
      let after : State = (modify (set_branch_status (success_status c "ci_configuration")) s).1 in
      Stores-mono _ _ (λ fetched stored. stored ≡ stored_with after.branch.status fetched) Finished
        (update_branch_status c after).1.sent
        (λ fetched stored q. rw q (refl, g, refl, refl, refl, refl))
        (let (fetched, e) = fetched_of_updated after h in update-Stores after fetched e)

  pub serve-Finished :
      (s : State)
      → (serve_branch_chain c s).0 ≡ ok 0
      → Stores s.branch.namespace s.branch.name Finished (serve_branch_chain c s).1.sent
  unfolding serve_branch_chain on_chain_error set_failure_count
  serve-Finished s h = elim (Result-cases (get_chain c.chain_client s).0) [
    | inl (tt, e) ↦
        let after : State = (get_chain c.chain_client s).1 in
        let git : after.branch.status.git ≡ branch_created =
          success_means_created c.chain_client s e in
        elim (Result-cases (set_success_status c "ci_configuration" after).0) [
          | inl (tt, q) ↦
              rw (e, after_chain, q, or_wrap, continue)
                (subst
                  (λ m.
                    Stores m.namespace m.name Finished
                      (set_success_status c "ci_configuration" after).1.sent)
                  (chain-meta c.chain_client s) (success-Stores after git q))
          | inr (x, q) ↦ cc (rw (e, after_chain, q, or_wrap, continue) at h)
        ]
    | inr (e, q) ↦ elim (Bool-cases (is_reconcile_error e)) [
      | inl r ↦
          let later : 5 * second ≡ 0 = ap or_none (rw (q, after_chain, r, branch) at h) in
          let absurd : ⊥ = omega arith in elim absurd [ ]
      | inr r ↦ cc (rw (q, after_chain, r, branch) at h)
    ]
  ]

  -- An error of the chain, unless it says that the codebase is not available, is the error of the
  -- reconciliation. Where the branch can be read after the chain, the last request stores it with the
  -- count of failures that the chain has left, which the handler of the image stream may have reset, and
  -- one more; its conditions, its spec and its metadata stay those of a branch that was read.
  pub chain_error-Counted :
      (s : State) (e : Error) (fetched : CodebaseBranch)
      → let failed = (get_chain c.chain_client s).1 in
        (get_chain c.chain_client s).0 ≡ err e
        → is_reconcile_error e ≡ false
        → c.get_branch failed.sent s.branch.namespace s.branch.name ≡ ok fetched
        → ((serve_branch_chain c s).0 ≡ err (wrap "failed to process default chain" e))
          × Stores s.branch.namespace s.branch.name
              (Counted failed.branch.status.failure_count)
              (serve_branch_chain c s).1.sent
  unfolding serve_branch_chain on_chain_error set_failure_count stored_with
  chain_error-Counted s e fetched h r g =
      let failed : State = (get_chain c.chain_client s).1 in
      let counted : State = (set_failure_count c failed).1 in
      let meta = chain-meta c.chain_client s in
      let read : c.get_branch failed.sent failed.branch.namespace failed.branch.name ≡ ok fetched =
        rw meta g in
      let stored =
        Stores-mono _ _ (λ f stored. stored ≡ stored_with counted.branch.status f)
          (Counted failed.branch.status.failure_count) (update_branch_status c counted).1.sent
          (λ f stored q. rw q (refl, refl, refl, refl)) (update-Stores counted fetched read) in
      (
        rw (h, after_chain, r, branch) refl,
        rw (h, after_chain, r, branch)
            (subst
              (λ m.
                Stores m.namespace m.name (Counted failed.branch.status.failure_count)
                  (update_branch_status c counted).1.sent)
              meta stored),
      )

-- ===== src/BranchController/Finished.antt =====
-- codebasebranch_controller.go: a whole reconciliation that finishes.
use edp_codebase_operator.Prelude.{
  String, true, is_nil, ◌≡◌, subst, inl, inr, ◌||◌, ◌∙◌, arith, Bool-cases,
}
use edp_codebase_operator.Effects.{ok, is_not_found, Result-cases, continue, or_wrap, branch}
use edp_codebase_operator.Api.Codebase.{Codebase}
use edp_codebase_operator.BranchChain.{State}
use edp_codebase_operator.BranchController.{BranchCluster}
use edp_codebase_operator.BranchController.Parts.{
  pipelines_is_set, add_codebase_label, set_default_values,
}
use edp_codebase_operator.BranchController.Removal.{
  add_missing_finalizer, try_to_delete_codebase_branch,
}
use edp_codebase_operator.BranchController.Reconcile.{
  or_result, set_owner_ref, on_codebase, init_build, serve_branch_chain, delete_or_serve,
  serve_branch, reconcile_orphan, reconcile_with_codebase, reconcile_fetched_branch,
}
use edp_codebase_operator.BranchController.Released.{label-deletion, KeepsObject}
use edp_codebase_operator.BranchController.Kept.{IsAt, label-IsAt, finalizer-IsAt, init-IsAt}
use edp_codebase_operator.BranchController.Outcome.{Stores, Finished, serve-Finished}

module _ (c : BranchCluster) where
  init-ok : (codebase : Codebase) (s : State) → (init_build c codebase s).0 ≡ ok tt
  unfolding init_build
  init-ok codebase s = ground arith

  deliver-Finished :
      (namespace name : String) (codebase : Codebase) (s : State)
      → IsAt namespace name s.branch
      → is_nil s.branch.meta.deletion_timestamp ≡ true
      → (delete_or_serve c codebase s).0 ≡ ok 0
      → Stores c namespace name Finished (delete_or_serve c codebase s).1.sent
  unfolding delete_or_serve try_to_delete_codebase_branch
  deliver-Finished namespace name codebase s at d h =
      elim (Result-cases (add_missing_finalizer c s).0) [
        | inl (tt, e) ↦
            let added : State = (add_missing_finalizer c s).1 in
            let ready : State = (init_build c codebase added).1 in
            let i = init-ok codebase added in
            let (ns, n) =
              init-IsAt c namespace name codebase added (finalizer-IsAt c namespace name s at) in
            let finished =
              serve-Finished c ready (rw (d, branch, e, or_wrap, continue, or_result, i) at h) in
            rw (d, branch, e, or_wrap, continue, or_result, i)
              (subst (λ x. Stores c x name Finished (serve_branch_chain c ready).1.sent) ns
                (subst
                  (λ x.
                    Stores c ready.branch.namespace x Finished (serve_branch_chain c ready).1.sent)
                  n finished))
        | inr (x, q) ↦ cc (rw (d, branch, q, or_wrap, continue) at h)
      ]

module _ (c : BranchCluster) (owns : KeepsObject c) where
  owned-Finished :
      (codebase : Codebase) (s : State)
      → is_nil s.branch.meta.deletion_timestamp ≡ true
      → (serve_branch c codebase s).0 ≡ ok 0
      → Stores c s.branch.namespace s.branch.name Finished (serve_branch c codebase s).1.sent
  unfolding serve_branch
  owned-Finished codebase s d h =
      elim (Result-cases (c.set_controller_reference codebase s.branch)) [
        | inl (b, e) ↦
            let s' : State = record s { branch = b } in
            let labelled : State = (add_codebase_label c codebase.name s').1 in
            let kept : labelled.branch.meta.deletion_timestamp ≡ s.branch.meta.deletion_timestamp =
              label-deletion c codebase.name s' ∙ (owns codebase s.branch b e).0 in
            let at =
              label-IsAt c s.branch.namespace s.branch.name codebase.name s'
                (owns codebase s.branch b e).1 in
            rw (e, set_owner_ref, continue)
              (deliver-Finished c s.branch.namespace s.branch.name codebase labelled at (rw kept d)
                (rw (e, set_owner_ref, continue) at h))
        | inr (e, q) ↦ cc (rw (q, set_owner_ref, continue) at h)
      ]

  -- Where a branch that has its pipelines and is not being deleted is reconciled without an error and
  -- without a delay, its last request stores the branch, as it was read from the cluster by its name and
  -- namespace, with a status that says that it is created, also in git, and that starts the count of
  -- failures over; the conditions, the spec and the metadata are those that were read.
  pub reconciled_branch-Finished :
      (s : State)
      → is_nil s.branch.meta.deletion_timestamp ≡ true
      → pipelines_is_set s.branch.spec.pipelines ≡ true
      → (reconcile_fetched_branch c s).0 ≡ ok 0
      → Stores c s.branch.namespace s.branch.name Finished (reconcile_fetched_branch c s).1.sent
  unfolding reconcile_fetched_branch reconcile_with_codebase reconcile_orphan set_default_values
  reconciled_branch-Finished s d p h =
      elim (Result-cases
        (c.chain_client.get_codebase s.branch.namespace s.branch.spec.codebase_name)) [
          | inl (codebase, e) ↦
              rw (e, on_codebase, p, ◌||◌, branch, continue)
                (owned-Finished codebase s d
                  (rw (e, on_codebase, p, ◌||◌, branch, or_wrap, continue) at h))
          | inr (e, q) ↦ elim (Bool-cases (is_not_found e)) [
            | inl n ↦ cc (rw (q, n, d, branch) at h)
            | inr n ↦ cc (rw (q, n, branch) at h)
          ]
        ]

-- ===== src/BranchController/Released.antt =====
-- codebasebranch_controller.go, tryToDeleteCodebaseBranch: the finalizer of a branch that is deleted.
use edp_codebase_operator.Prelude.{
  ℕ, String, List, [], ◌∷◌, ◌++◌ as append, true, false, not, Option, none, some, select, contains,
  any, is_nil, ◌≡◌, refl, ◌==◌, inl, inr, arith, Bool-cases, ◌∙◌, ◌||◌,
}
use edp_codebase_operator.Effects.{
  Result, ok, is_not_found, Result-cases, continue, or_wrap, branch,
}
use edp_codebase_operator.Api.Codebase.{Codebase, CodebaseBranch}
use edp_codebase_operator.BranchChain.{State, Request, update, Handler}
use edp_codebase_operator.BranchController.{BranchCluster}
use edp_codebase_operator.BranchController.Kept.{IsAt, label-IsAt}
use edp_codebase_operator.BranchController.Parts.{
  pipelines_is_set, add_codebase_label, set_default_values,
}
use edp_codebase_operator.BranchController.Removal.{
  finalizer_name, remove_attempt, Retried, release_branch, try_to_delete_codebase_branch,
  get_deletion_chain, empty_chain, remove_finalizer,
}
use edp_codebase_operator.BranchController.Reconcile.{
  or_result, set_owner_ref, on_codebase, delete_orphan, delete_or_serve, serve_branch,
  reconcile_orphan, reconcile_with_codebase, reconcile_fetched_branch,
}

-- The request that was sent last.
abbrev pub last_request : List Request → Option Request
last_request [] = none
last_request (q ∷ []) = some q
last_request (q ∷ qs) = last_request qs

pub last_request-append :
    (qs : List Request) (q : Request) → last_request (append qs (q ∷ [])) ≡ some q
last_request-append [] q = refl
last_request-append (p ∷ []) q = refl
last_request-append (p ∷ r ∷ qs) q = last_request-append (r ∷ qs) q

-- The last request stores the branch of this name without the finalizer of the operator.
unfoldable pub IsReleased : (namespace name : String) → List Request → Type 0
IsReleased namespace name sent =
    (b : CodebaseBranch) × (last_request sent ≡ some (update b))
    × IsAt namespace name b
    × (contains b.meta.finalizers finalizer_name ≡ false)

-- The API server answers with the branch that it is asked for.
abbrev pub AnswersAsked : BranchCluster → Type 0
AnswersAsked c =
    (before : List Request) (namespace name : String) (b : CodebaseBranch)
    → c.get_branch before namespace name ≡ ok b
    → IsAt namespace name b

-- `controllerutil.SetControllerReference` changes the owner and nothing else that is looked at here.
abbrev pub KeepsObject : BranchCluster → Type 0
KeepsObject c =
    (codebase : Codebase) (b owned : CodebaseBranch)
    → c.set_controller_reference codebase b ≡ ok owned
    → (owned.meta.deletion_timestamp ≡ b.meta.deletion_timestamp) × IsAt b.namespace b.name owned

select-contains :
    (xs : List String) (t : String) → contains (select xs (λ x. not (x == t))) t ≡ false
unfolding contains any select
select-contains [] t = refl
select-contains (x ∷ xs) t = grind (arith, select-contains xs t)

module _ (c : BranchCluster) (asked : AnswersAsked c) (namespace name : String) where
  attempt-IsReleased :
      (s : State)
      → IsAt namespace name s.branch
      → (remove_attempt c s).0 ≡ ok tt
      → IsReleased namespace name (remove_attempt c s).1.sent
  unfolding IsReleased remove_attempt
  attempt-IsReleased s (ns, n) h =
      elim (Result-cases (c.get_branch s.sent s.branch.namespace s.branch.name)) [
        | inl (fetched, e) ↦
            rw (e, continue)
              (
                remove_finalizer fetched,
                last_request-append s.sent (update (remove_finalizer fetched)),
                (let (a, b) = asked s.sent s.branch.namespace s.branch.name fetched e in
                    (a ∙ ns, b ∙ n)),
                select-contains fetched.meta.finalizers finalizer_name,
              )
        | inr (e, q) ↦ cc (rw (q, continue) at h)
      ]

  attempt-IsAt :
      (s : State) → IsAt namespace name s.branch → IsAt namespace name (remove_attempt c s).1.branch
  unfolding remove_attempt
  attempt-IsAt s (ns, n) =
      elim (Result-cases (c.get_branch s.sent s.branch.namespace s.branch.name)) [
        | inl (fetched, e) ↦
            let (a, b) = asked s.sent s.branch.namespace s.branch.name fetched e in
            rw (e, continue) (a ∙ ns, b ∙ n)
        | inr (e, q) ↦ rw (q, continue) (ns, n)
      ]

  Retried-IsReleased :
      {s : State} {r : Result Unit × State}
      → Retried (remove_attempt c) s r
      → IsAt namespace name s.branch
      → r.0 ≡ ok tt
      → IsReleased namespace name r.1.sent
  Retried-IsReleased {s} Retried.last_run at h = attempt-IsReleased s at h
  Retried-IsReleased {s} (Retried.run_again e more) at h =
      Retried-IsReleased more (attempt-IsAt s at) h

-- `retry.RetryOnConflict` runs its function until an answer is no conflict, or to the last attempt.
module _ (c : BranchCluster) (asked : AnswersAsked c)
    (retries : (f : Handler) (s : State) → Retried f s (c.retry_on_conflict f s))
    (namespace name : String) where
  release-IsReleased :
      (s : State) {result : Option ℕ}
      → IsAt namespace name s.branch
      → (release_branch c s).0 ≡ ok result
      → (result ≡ some 0) × IsReleased namespace name (release_branch c s).1.sent
  unfolding release_branch
  release-IsReleased s at h = elim (Result-cases (c.retry_on_conflict (remove_attempt c) s).0) [
    | inl (tt, e) ↦ (
      cc (rw (e, or_wrap, continue) at h),
      rw (e, or_wrap, continue)
          (Retried-IsReleased c asked namespace name (retries (remove_attempt c) s) at e),
    )
    | inr (e, q) ↦ cc (rw (q, or_wrap, continue) at h)
  ]

  delete-IsReleased :
      (s : State) {result : Option ℕ}
      → IsAt namespace name s.branch
      → is_nil s.branch.meta.deletion_timestamp ≡ false
      → (try_to_delete_codebase_branch c get_deletion_chain s).0 ≡ ok result
      → (result ≡ some 0)
        × IsReleased namespace name (try_to_delete_codebase_branch c get_deletion_chain s).1.sent
  unfolding try_to_delete_codebase_branch get_deletion_chain empty_chain
  delete-IsReleased s at d h = rw (d, branch) (release-IsReleased s at (rw (d, branch) at h))

  orphan-IsReleased :
      (s : State) {t : ℕ}
      → IsAt namespace name s.branch
      → is_nil s.branch.meta.deletion_timestamp ≡ false
      → (delete_orphan c s).0 ≡ ok t
      → IsReleased namespace name (delete_orphan c s).1.sent
  unfolding delete_orphan
  orphan-IsReleased s at d h =
      elim (Result-cases (try_to_delete_codebase_branch c get_deletion_chain s).0) [
        | inl (r, e) ↦ rw (e, or_wrap, continue) (delete-IsReleased s at d e).1
        | inr (e, q) ↦ cc (rw (q, or_wrap, continue) at h)
      ]

  serve-IsReleased :
      (codebase : Codebase) (s : State) {t : ℕ}
      → IsAt namespace name s.branch
      → is_nil s.branch.meta.deletion_timestamp ≡ false
      → (delete_or_serve c codebase s).0 ≡ ok t
      → IsReleased namespace name (delete_or_serve c codebase s).1.sent
  unfolding delete_or_serve
  serve-IsReleased codebase s at d h =
      elim (Result-cases (try_to_delete_codebase_branch c get_deletion_chain s).0) [
        | inl (r, e) ↦
            let (q, released) = delete-IsReleased s at d e in
            rw (e, or_wrap, continue, q, or_result) released
        | inr (e, q) ↦ cc (rw (q, or_wrap, continue) at h)
      ]

pub label-deletion :
    (c : BranchCluster) (name : String) (s : State)
    → (add_codebase_label c name s).1.branch.meta.deletion_timestamp
      ≡ s.branch.meta.deletion_timestamp
unfolding add_codebase_label
label-deletion c name s = ground arith

module _ (c : BranchCluster) (asked : AnswersAsked c)
    (retries : (f : Handler) (s : State) → Retried f s (c.retry_on_conflict f s))
    (owns : KeepsObject c) where
  owned-IsReleased :
      (codebase : Codebase) (s : State) {t : ℕ}
      → is_nil s.branch.meta.deletion_timestamp ≡ false
      → (serve_branch c codebase s).0 ≡ ok t
      → IsReleased s.branch.namespace s.branch.name (serve_branch c codebase s).1.sent
  unfolding serve_branch
  owned-IsReleased codebase s d h =
      elim (Result-cases (c.set_controller_reference codebase s.branch)) [
        | inl (b, e) ↦
            let s' : State = record s { branch = b } in
            let labelled : State = (add_codebase_label c codebase.name s').1 in
            let kept : labelled.branch.meta.deletion_timestamp ≡ s.branch.meta.deletion_timestamp =
              label-deletion c codebase.name s' ∙ (owns codebase s.branch b e).0 in
            let at =
              label-IsAt c s.branch.namespace s.branch.name codebase.name s'
                (owns codebase s.branch b e).1 in
            rw (e, set_owner_ref, continue)
              (serve-IsReleased c asked retries s.branch.namespace s.branch.name codebase labelled
                at (rw kept d) (rw (e, set_owner_ref, continue) at h))
        | inr (e, q) ↦ cc (rw (q, set_owner_ref, continue) at h)
      ]

  -- Where the reconciliation of a branch that is being deleted and has its pipelines succeeds, its last
  -- request stores the branch, by its name and namespace, without the finalizer of the operator, be the
  -- codebase there or gone.
  pub deleted_branch-IsReleased :
      (s : State) {t : ℕ}
      → is_nil s.branch.meta.deletion_timestamp ≡ false
      → pipelines_is_set s.branch.spec.pipelines ≡ true
      → (reconcile_fetched_branch c s).0 ≡ ok t
      → IsReleased s.branch.namespace s.branch.name (reconcile_fetched_branch c s).1.sent
  unfolding reconcile_fetched_branch reconcile_with_codebase reconcile_orphan set_default_values
  deleted_branch-IsReleased s d p h =
      elim (Result-cases
        (c.chain_client.get_codebase s.branch.namespace s.branch.spec.codebase_name)) [
          | inl (codebase, e) ↦
              rw (e, on_codebase, p, ◌||◌, branch, continue)
                (owned-IsReleased codebase s d
                  (rw (e, on_codebase, p, ◌||◌, branch, or_wrap, continue) at h))
          | inr (e, q) ↦ elim (Bool-cases (is_not_found e)) [
            | inl n ↦
                rw (q, n, d, branch)
                  (orphan-IsReleased c asked retries s.branch.namespace s.branch.name s (refl, refl)
                    d (rw (q, n, d, branch) at h))
            | inr n ↦ cc (rw (q, n, branch) at h)
          ]
        ]

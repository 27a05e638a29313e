-- ===== src/CodebaseChain/Project/Adopted.antt =====
-- chain/put_project.go: the status of git after a run, and a push that was interrupted.
use edp_codebase_operator.Prelude.{
  ℕ, String, List, [], ◌∷◌, ◌++◌, true, false, ◌≡◌, ◌≢◌, ◌+◌, refl, eq_iff, arith, contains, any,
  Bool-cases, inl, inr,
}
use edp_codebase_operator.Effects.{ok, branch}
use edp_codebase_operator.Api.Codebase.{Codebase}
use edp_codebase_operator.CodebaseChain.{World, State, Action, push, resolve_remote_reference}
use edp_codebase_operator.CodebaseChain.Status.{
  set_codebase_success_fields, codebase_intermediate_fields, update_git_status_with_patch,
}
use edp_codebase_operator.CodebaseChain.Repository.{GitRepositoryContext}
use edp_codebase_operator.CodebaseChain.Project.{
  push_in_progress, pushed, provisioning, skip_put_project, adopt_present, adopt_pushed_project,
  provision_and_push, adopt_or_provision, put_missing_project, put_project,
}
use edp_codebase_operator.CodebaseChain.Project.Remote.{
  remote_default_branch_absent, set_third_party_default_branch, set_remote_default_branch,
}

-- How often something was pushed.
abbrev pub pushes : Action → ℕ
pushes (push directory tags) = 1
pushes _ = 0

unfoldable pub push_count : List Action → ℕ
push_count [] = 0
push_count (a ∷ actions) = pushes a + push_count actions

module _ (w : World) (ctx : GitRepositoryContext) (c : Codebase) where
  patch-git :
      (g : String) (s : State)
      → let (r, after) = update_git_status_with_patch w provisioning g s in
        r ≡ ok tt → after.codebase.status.git ≡ g
  unfolding update_git_status_with_patch
  patch-git g s h = grind (arith, eq_iff s.codebase.status.git g)

  provision-git :
      (s : State)
      → (provision_and_push w ctx c s).0 ≡ ok tt
      → (provision_and_push w ctx c s).1.codebase.status.git ≡ pushed
  unfolding provision_and_push
  provision-git s h = grind (arith, patch-git)

  adopt-git :
      (s : State)
      → (adopt_pushed_project w ctx c s).0 ≡ ok true
      → (adopt_pushed_project w ctx c s).1.codebase.status.git ≡ pushed
  unfolding adopt_pushed_project adopt_present
  adopt-git s h = grind (arith, patch-git)

  adopt_or_provision-git :
      (s : State)
      → (adopt_or_provision w ctx c s).0 ≡ ok tt
      → (adopt_or_provision w ctx c s).1.codebase.status.git ≡ pushed
  unfolding adopt_or_provision
  adopt_or_provision-git s h = grind (arith, adopt-git, provision-git)

skip_pushed : (c : Codebase) → c.status.git ≡ pushed → skip_put_project c ≡ true
unfolding skip_put_project contains any
skip_pushed c h = rw h (ground arith)

module _ (w : World) (s : State) where
  pub put_missing-git :
      (put_missing_project w s).0 ≡ ok tt → (put_missing_project w s).1.codebase.status.git ≡ pushed
  unfolding put_missing_project
  put_missing-git h = grind (arith, adopt_or_provision-git)

  -- A handler that has succeeded has nothing left to do.
  pub project_put_once :
      let (r, after) = put_project w s in r ≡ ok tt → put_project w after ≡ (ok tt, after)
  unfolding put_project
  project_put_once h = elim (Bool-cases (skip_put_project s.codebase)) [
    | inl e ↦ rw (e, branch, e, branch) refl
    | inr e ↦
        let p : (put_missing_project w s).0 ≡ ok tt = rw (e, branch) at h in
        let q = skip_pushed (put_missing_project w s).1.codebase (put_missing-git p) in
        rw (e, branch, q, branch) refl
  ]

push_count-append :
    (xs : List Action) (a : Action) → push_count (xs ++ a ∷ []) ≡ pushes a + push_count xs
unfolding push_count
push_count-append [] a = omega arith
push_count-append (x ∷ xs) a = let rest = push_count-append xs a in omega arith

-- The remote repository answers that it has every branch it is asked for.
module _ (w : World)
    (present : (before : List Action) (url reference : String)
      → w.answer before (resolve_remote_reference url reference) ≡ ok tt) where
  default-count :
      (ctx : GitRepositoryContext) (c : Codebase) (s : State)
      → push_count (set_remote_default_branch w ctx c s).1.done ≡ push_count s.done
  unfolding set_remote_default_branch set_third_party_default_branch
  default-count ctx c s = grind (arith, push_count-append)

  patch-count :
      (g : String) (s : State)
      → push_count (update_git_status_with_patch w provisioning g s).1.done ≡ push_count s.done
  unfolding update_git_status_with_patch
  patch-count g s = grind (arith, push_count-append)

  present-absent :
      (ctx : GitRepositoryContext) (c : Codebase) (s : State)
      → let (r, after) = remote_default_branch_absent w ctx c s in
        (r ≡ ok false) × (push_count after.done ≡ push_count s.done)
  unfolding remote_default_branch_absent
  present-absent ctx c s = (grind (arith, present), grind (arith, push_count-append))

  present-count :
      (ctx : GitRepositoryContext) (c : Codebase) (s : State)
      → c.status.git ≡ push_in_progress
      → push_count (adopt_pushed_project w ctx c s).1.done ≡ push_count s.done
  unfolding adopt_pushed_project adopt_present
  present-count ctx c s g =
      grind
        (arith, present-absent, default-count, patch-count, eq_iff c.status.git push_in_progress)

  present-adopts :
      (ctx : GitRepositoryContext) (c : Codebase) (s : State)
      → c.status.git ≡ push_in_progress
      → (adopt_pushed_project w ctx c s).0 ≢ ok false
  unfolding adopt_pushed_project adopt_present
  present-adopts ctx c s g h = grind (arith, present-absent, eq_iff c.status.git push_in_progress)

  adopt_or_provision-count :
      (ctx : GitRepositoryContext) (c : Codebase) (s : State)
      → c.status.git ≡ push_in_progress
      → push_count (adopt_or_provision w ctx c s).1.done ≡ push_count s.done
  unfolding adopt_or_provision
  adopt_or_provision-count ctx c s g = grind (arith, present-count, present-adopts)

  intermediate-count :
      (s : State)
      → let after = (set_codebase_success_fields w provisioning s).1 in
        (push_count after.done ≡ push_count s.done)
        × (after.codebase.status.git ≡ s.codebase.status.git)
  unfolding set_codebase_success_fields codebase_intermediate_fields
  intermediate-count s = (grind (arith, push_count-append), grind arith)

  put_missing-count :
      (s : State)
      → s.codebase.status.git ≡ push_in_progress
      → push_count (put_missing_project w s).1.done ≡ push_count s.done
  unfolding put_missing_project
  put_missing-count s g = grind (arith, intermediate-count, adopt_or_provision-count)

  -- A codebase whose push is in progress, and whose default branch the remote repository has, is not
  -- pushed again.
  pub interrupted_push_adopted :
      (s : State)
      → s.codebase.status.git ≡ push_in_progress
      → push_count (put_project w s).1.done ≡ push_count s.done
  unfolding put_project
  interrupted_push_adopted s g = grind (arith, put_missing-count)

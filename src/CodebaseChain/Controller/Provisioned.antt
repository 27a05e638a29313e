-- ===== src/CodebaseChain/Controller/Provisioned.antt =====
-- chain/put_project.go keeps the stored git statuses to the state machine.
use edp_codebase_operator.Prelude.{String, false, Bool-cases, ◌≡◌, eq_iff, arith, inl, inr}
use edp_codebase_operator.Effects.{ok, branch}
use edp_codebase_operator.Api.Codebase.{Codebase}
use edp_codebase_operator.CodebaseChain.{World, State}
use edp_codebase_operator.CodebaseChain.Status.{
  set_codebase_success_fields, codebase_intermediate_fields, codebase_failed_fields,
}
use edp_codebase_operator.CodebaseChain.Repository.{GitRepositoryContext}
use edp_codebase_operator.CodebaseChain.Project.{
  push_in_progress, skip_put_project, put_project, put_missing_project, adopt_or_provision,
  adopt_pushed_project, adopt_present, provision_and_push, create_project_in_git, push_absent,
  provisioning,
}
use edp_codebase_operator.CodebaseChain.Project.Remote.{
  push_project, set_remote_default_branch, set_third_party_default_branch,
  remote_default_branch_absent,
}
use edp_codebase_operator.CodebaseChain.Project.Guarded.{initial-git, for_push-git, remote-git}
use edp_codebase_operator.CodebaseChain.Controller.Available.{is_in_git}
use edp_codebase_operator.CodebaseChain.Controller.Ledger.{
  may_intend, initial-ledger, for_push-ledger, remote-ledger, default-ledger, absent-ledger,
  push-ledger,
}
use edp_codebase_operator.CodebaseChain.Controller.Steps.{
  InStep, Sound, IsSound, success-IsSound, patch-Sound, complete-Sound, patch-git,
}

module _ (w : World) (ctx : GitRepositoryContext) (c : Codebase) where
  default-git :
      (s : State)
      → (set_remote_default_branch w ctx c s).1.codebase.status.git ≡ s.codebase.status.git
  unfolding set_remote_default_branch set_third_party_default_branch
  default-git s = grind arith

  absent-git :
      (s : State)
      → (remote_default_branch_absent w ctx c s).1.codebase.status.git ≡ s.codebase.status.git
  unfolding remote_default_branch_absent
  absent-git s = grind arith

  push-git : (s : State) → (push_project w ctx c s).1.codebase.status.git ≡ s.codebase.status.git
  unfolding push_project
  push-git s = grind arith

module _ (w : World) (first : String) (ctx : GitRepositoryContext) (c : Codebase) where
  push_absent-Sound :
      (s : State)
      → InStep w first s
      → is_in_git s.codebase.status.git ≡ false
      → Sound w first (push_absent w ctx c s)
  unfolding push_absent
  push_absent-Sound s i n =
      let m = may_intend s.codebase.status.git n in
      let (a, b) = patch-Sound w first provisioning push_in_progress s i m in
      (
        grind (arith, push-ledger, default-ledger),
        λ t h. grind (arith, push-ledger, default-ledger, push-git, default-git),
      )

  push_absent-git : (s : State) → (push_absent w ctx c s).1.codebase.status.git ≡ push_in_progress
  unfolding push_absent
  push_absent-git s = grind (arith, patch-git, push-git, default-git)

  create-Sound :
      (s : State)
      → InStep w first s
      → is_in_git s.codebase.status.git ≡ false
      → Sound w first (create_project_in_git w ctx c s)
  unfolding create_project_in_git
  create-Sound s (a, b) n = (
    grind (arith, remote-ledger, remote-git, absent-ledger, absent-git, push_absent-Sound),
    λ t h. grind (arith, remote-ledger, remote-git, absent-ledger, absent-git, push_absent-Sound),
  )

  created-git :
      (s : State)
      → (create_project_in_git w ctx c s).0 ≡ ok tt
      → (create_project_in_git w ctx c s).1.codebase.status.git ≡ push_in_progress
  unfolding create_project_in_git
  created-git s h = grind (arith, push_absent-git)

  provision-Sound :
      (s : State)
      → InStep w first s
      → is_in_git s.codebase.status.git ≡ false
      → Sound w first (provision_and_push w ctx c s)
  unfolding provision_and_push codebase_failed_fields
  provision-Sound s (a, b) n = (
    grind (
      arith, initial-ledger, initial-git, for_push-ledger, for_push-git, create-Sound, created-git,
      complete-Sound,
    ),
    λ t h. grind (
      arith, initial-ledger, initial-git, for_push-ledger, for_push-git, create-Sound, created-git,
      complete-Sound,
    ),
  )

  adopt-Sound :
      (s : State)
      → InStep w first s
      → c.status.git ≡ s.codebase.status.git
      → Sound w first (adopt_pushed_project w ctx c s)
  unfolding adopt_pushed_project adopt_present
  adopt-Sound s (a, b) same = (
    grind (
      arith,
      absent-ledger,
      absent-git,
      default-ledger,
      default-git,
      complete-Sound,
      eq_iff c.status.git push_in_progress,
    ),
    λ t h. grind (
      arith,
      absent-ledger,
      absent-git,
      default-ledger,
      default-git,
      complete-Sound,
      eq_iff c.status.git push_in_progress,
    ),
  )

  adopt-stays :
      (s : State)
      → (adopt_pushed_project w ctx c s).0 ≡ ok false
      → (adopt_pushed_project w ctx c s).1.codebase.status.git ≡ s.codebase.status.git
  unfolding adopt_pushed_project adopt_present
  adopt-stays s h = grind (arith, absent-git)

  adopt_or_provision-Sound :
      (s : State)
      → InStep w first s
      → c.status.git ≡ s.codebase.status.git
      → is_in_git s.codebase.status.git ≡ false
      → Sound w first (adopt_or_provision w ctx c s)
  unfolding adopt_or_provision codebase_failed_fields
  adopt_or_provision-Sound s (a, b) same n = (
    grind (arith, adopt-Sound, adopt-stays, provision-Sound),
    λ t h. grind (arith, adopt-Sound, adopt-stays, provision-Sound),
  )

module _ (w : World) (first : String) where
  success-git :
      (action : String) (s : State)
      → (set_codebase_success_fields w action s).1.codebase.status.git ≡ s.codebase.status.git
  unfolding set_codebase_success_fields codebase_intermediate_fields
  success-git action s = grind arith

  put_missing-Sound :
      (s : State)
      → InStep w first s
      → is_in_git s.codebase.status.git ≡ false
      → Sound w first (put_missing_project w s)
  unfolding put_missing_project codebase_failed_fields
  put_missing-Sound s (a, b) n = (
    grind (arith, success-IsSound, success-git, adopt_or_provision-Sound),
    λ t h. grind (arith, success-IsSound, success-git, adopt_or_provision-Sound),
  )

  missing_not_in_git : (c : Codebase) → skip_put_project c ≡ false → is_in_git c.status.git ≡ false
  unfolding skip_put_project is_in_git
  missing_not_in_git c h = ground arith

  pub project-IsSound : IsSound w first (put_project w)
  unfolding put_project
  project-IsSound s i = elim (Bool-cases (skip_put_project s.codebase)) [
    | inl e ↦ rw (e, branch) (i.0, λ t h. i.1)
    | inr e ↦ rw (e, branch) (put_missing-Sound s i (missing_not_in_git s.codebase e))
  ]

-- ===== src/CodebaseChain/Project/Guarded.antt =====
-- chain/put_project.go: nothing is pushed over a branch that somebody else has pushed.
use edp_codebase_operator.Prelude.{String, true, false, ◌≡◌, eq_iff, eq_refl, arith}
use edp_codebase_operator.Effects.{ok}
use edp_codebase_operator.Api.Codebase.{Codebase}
use edp_codebase_operator.CodebaseChain.{World, State}
use edp_codebase_operator.CodebaseChain.Status.{
  set_codebase_success_fields, codebase_intermediate_fields, codebase_failed_fields,
  update_git_status_with_patch,
}
use edp_codebase_operator.CodebaseChain.Repository.{
  GitRepositoryContext, checkout_branch, checkout_by_strategy, checkout_clone,
}
use edp_codebase_operator.CodebaseChain.Project.{
  push_in_progress, provisioning, push_absent, create_project_in_git, adopt_present,
  adopt_pushed_project, provision_and_push, adopt_or_provision, put_missing_project, put_project,
}
use edp_codebase_operator.CodebaseChain.Project.Provision.{
  empty_project_provisioning, try_to_clone_repo, squash_commits, not_empty_project_provisioning,
  initial_project_provisioning, replace_default_branch, copy_branch, checkout_default,
  checkout_for_push,
}
use edp_codebase_operator.CodebaseChain.Project.Remote.{
  put_gerrit_project, put_third_party_project, put_remote_project, remote_default_branch_absent,
  push_project, project_url,
}
use edp_codebase_operator.CodebaseChain.Project.Watch.{
  watch, known, known-append, initial-known, for_push-known, remote-known, default-known,
}

module _ (w : World) (ctx : GitRepositoryContext) (c : Codebase) where
  checkout-git :
      (name : String) (s : State)
      → (checkout_branch w name ctx c s).1.codebase.status.git ≡ s.codebase.status.git
  unfolding checkout_branch checkout_by_strategy checkout_clone
  checkout-git name s = grind arith

  pub initial-git :
      (s : State)
      → (initial_project_provisioning w ctx c s).1.codebase.status.git ≡ s.codebase.status.git
  unfolding initial_project_provisioning empty_project_provisioning not_empty_project_provisioning
      try_to_clone_repo squash_commits codebase_failed_fields
  initial-git s = grind arith

  pub for_push-git :
      (s : State) → (checkout_for_push w ctx c s).1.codebase.status.git ≡ s.codebase.status.git
  unfolding checkout_for_push copy_branch checkout_default replace_default_branch
  for_push-git s = grind (arith, checkout-git)

  pub remote-git :
      (s : State) → (put_remote_project w ctx c s).1.codebase.status.git ≡ s.codebase.status.git
  unfolding put_remote_project put_gerrit_project put_third_party_project
  remote-git s = grind arith

module _ (w : World) (trunk : String) (ctx : GitRepositoryContext) (c : Codebase)
    (at_trunk : c.spec.default_branch ≡ trunk) where
  -- The status that a push is in progress is known to be stored wherever the codebase has it.
  abbrev HasIntent : State → Type 0
  HasIntent s = s.codebase.status.git ≡ push_in_progress → (known w trunk s.done).intended ≡ true

  absent-known :
      (s : State)
      → let after = (remote_default_branch_absent w ctx c s).1 in
        ((known w trunk after.done).intended ≡ (known w trunk s.done).intended)
        × ((known w trunk after.done).guarded ≡ (known w trunk s.done).guarded)
        × (after.codebase ≡ s.codebase)
  unfolding remote_default_branch_absent watch
  absent-known s = (grind (arith, known-append), grind (arith, known-append), grind arith)

  absent_verified :
      (s : State)
      → (remote_default_branch_absent w ctx c s).0 ≡ ok true
      → let k = known w trunk (remote_default_branch_absent w ctx c s).1.done in
        (k.absent ≡ true) × (k.asked ≡ project_url w ctx c)
  unfolding remote_default_branch_absent watch
  absent_verified s h = (grind (arith, known-append, eq_refl trunk), grind (arith, known-append))

  patch-known :
      (g : String) (s : State)
      → let after = (update_git_status_with_patch w provisioning g s).1 in
        ((known w trunk after.done).absent ≡ (known w trunk s.done).absent)
        × ((known w trunk after.done).guarded ≡ (known w trunk s.done).guarded)
        × ((known w trunk after.done).asked ≡ (known w trunk s.done).asked)
  unfolding update_git_status_with_patch watch
  patch-known g s =
      (grind (arith, known-append), grind (arith, known-append), grind (arith, known-append))

  patch_intends :
      (s : State)
      → HasIntent s
      → (update_git_status_with_patch w provisioning push_in_progress s).0 ≡ ok tt
      → (known w trunk
          (update_git_status_with_patch w provisioning push_in_progress s).1.done).intended
        ≡ true
  unfolding update_git_status_with_patch watch
  patch_intends s i h = grind (arith, known-append, eq_iff s.codebase.status.git push_in_progress)

  push-guarded :
      (s : State)
      → (known w trunk s.done).absent ≡ true
      → (known w trunk s.done).asked ≡ project_url w ctx c
      → (known w trunk s.done).guarded ≡ true
      → (known w trunk s.done).intended ≡ true
      → (known w trunk (push_project w ctx c s).1.done).guarded ≡ true
  unfolding push_project watch
  push-guarded s a q g i = grind (arith, known-append, eq_refl (project_url w ctx c))

  push_absent-guarded :
      (s : State)
      → HasIntent s
      → (known w trunk s.done).absent ≡ true
      → (known w trunk s.done).asked ≡ project_url w ctx c
      → (known w trunk s.done).guarded ≡ true
      → (known w trunk (push_absent w ctx c s).1.done).guarded ≡ true
  unfolding push_absent
  push_absent-guarded s i a q g =
      grind (arith, patch-known, patch_intends, push-guarded, default-known)

  create-guarded :
      (s : State)
      → HasIntent s
      → (known w trunk s.done).guarded ≡ true
      → (known w trunk (create_project_in_git w ctx c s).1.done).guarded ≡ true
  unfolding create_project_in_git
  create-guarded s i g =
      grind (arith, remote-known, remote-git, absent-known, absent_verified, push_absent-guarded)

  provision-guarded :
      (s : State)
      → HasIntent s
      → (known w trunk s.done).guarded ≡ true
      → (known w trunk (provision_and_push w ctx c s).1.done).guarded ≡ true
  unfolding provision_and_push
  provision-guarded s i g =
      grind (
        arith, initial-known, initial-git, for_push-known, for_push-git, create-guarded,
        patch-known,
      )

  adopt-known :
      (s : State)
      → let after = (adopt_pushed_project w ctx c s).1 in
        (known w trunk after.done).guarded ≡ (known w trunk s.done).guarded
  unfolding adopt_pushed_project adopt_present
  adopt-known s = grind (arith, absent-known, default-known, patch-known)

  adopt-intent :
      (s : State)
      → HasIntent s
      → (adopt_pushed_project w ctx c s).0 ≡ ok false
      → HasIntent (adopt_pushed_project w ctx c s).1
  unfolding adopt_pushed_project adopt_present
  adopt-intent s i h q = grind (arith, absent-known)

module _ (w : World) (trunk : String) where
  intermediate-known :
      (s : State)
      → (known w trunk (set_codebase_success_fields w provisioning s).1.done).guarded
        ≡ (known w trunk s.done).guarded
  unfolding set_codebase_success_fields watch
  intermediate-known s = grind (arith, known-append)

  intermediate-spec :
      (s : State) → (set_codebase_success_fields w provisioning s).1.codebase.spec ≡ s.codebase.spec
  unfolding set_codebase_success_fields
  intermediate-spec s = grind arith

  intermediate-intent :
      (s : State)
      → (set_codebase_success_fields w provisioning s).0 ≡ ok tt
      → let after = (set_codebase_success_fields w provisioning s).1 in
        after.codebase.status.git ≡ push_in_progress → (known w trunk after.done).intended ≡ true
  unfolding set_codebase_success_fields codebase_intermediate_fields watch
  intermediate-intent s h q =
      grind (arith, known-append, eq_iff s.codebase.status.git push_in_progress)

  adopt_or_provision-guarded :
      (ctx : GitRepositoryContext) (c : Codebase) (at_trunk : c.spec.default_branch ≡ trunk)
      (s : State)
      → HasIntent w trunk ctx c at_trunk s
      → (known w trunk s.done).guarded ≡ true
      → (known w trunk (adopt_or_provision w ctx c s).1.done).guarded ≡ true
  unfolding adopt_or_provision codebase_failed_fields
  adopt_or_provision-guarded ctx c at_trunk s i g =
      grind (arith, adopt-known, adopt-intent, provision-guarded)

  put_missing-guarded :
      (s : State)
      → s.codebase.spec.default_branch ≡ trunk
      → (known w trunk s.done).guarded ≡ true
      → (known w trunk (put_missing_project w s).1.done).guarded ≡ true
  unfolding put_missing_project
  put_missing-guarded s at_trunk g = grind (
    arith, intermediate-known, intermediate-intent, intermediate-spec, adopt_or_provision-guarded,
  )

  -- Where every push so far was guarded, so is every push of the handler.
  pub pushes_guarded :
      (s : State)
      → s.codebase.spec.default_branch ≡ trunk
      → (known w trunk s.done).guarded ≡ true
      → (known w trunk (put_project w s).1.done).guarded ≡ true
  unfolding put_project
  pushes_guarded s at_trunk g = grind (arith, put_missing-guarded)

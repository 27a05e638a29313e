-- ===== src/CodebaseChain/Project.antt =====
-- chain/put_project.go: the project of a codebase in git.
pub mod Provision
pub mod Remote
pub mod Watch
pub mod Guarded
pub mod Runs
pub mod Adopted
use Prim.Native.String.{◌++◌}
use edp_codebase_operator.Prelude.{String, Bool, true, false, not, ◌||◌, [], ◌∷◌, contains, ◌==◌}
use edp_codebase_operator.Effects.{
  Error, error_text, Result, ok, err, new, wrap, is, reference_not_found, Exec, pure, fail, lift,
  gets, modify, wrapping, branch, continue, ◌>>=◌, ◌>>◌,
}
use edp_codebase_operator.Api.Codebase.{Codebase}
use edp_codebase_operator.CodebaseChain.{World, State, Handler}
use edp_codebase_operator.CodebaseChain.Status.{
  set_codebase_success_fields, failing_codebase, update_git_status_with_patch,
}
use edp_codebase_operator.CodebaseChain.Repository.{
  GitRepositoryContext, get_git_repository_context,
}
use edp_codebase_operator.CodebaseChain.Project.Provision.{
  initial_project_provisioning, checkout_for_push,
}
use edp_codebase_operator.CodebaseChain.Project.Remote.{
  put_remote_project, remote_default_branch_absent, push_project, set_remote_default_branch,
}

-- The values of `status.git`.
abbrev pub pushed : String
pushed = "pushed"

abbrev pub push_in_progress : String
push_in_progress = "push_in_progress"

abbrev pub provisioning : String
provisioning = "repository_provisioning"

-- `PutProject.skip`
unfoldable pub skip_put_project : Codebase → Bool
skip_put_project c =
    not (contains ("clone" ∷ "create" ∷ []) c.spec.strategy)
    || contains ("pushed" ∷ "gitlab_ci_pushed" ∷ "templates_pushed" ∷ []) c.status.git

-- The text of the error with which `createProject` refuses a remote branch that it has not pushed.
abbrev pub refusal : Codebase → String
refusal c =
    "remote repository already contains default branch " ++ c.spec.default_branch
    ++ " with history not pushed by this provisioning; "
    ++ "refusing to overwrite it - remove the remote branch or onboard the repository with the import strategy"

-- `handleError`
abbrev pub handling : {A : Type 0} → World → (message : String) → Exec State A → Exec State A
handling w message m = wrapping message (failing_codebase w provisioning m)

module _ (w : World) where
  -- `createProject` behind the check of the remote branch
  unfoldable pub push_absent : GitRepositoryContext → Codebase → Handler
  push_absent ctx c = do
    update_git_status_with_patch w provisioning push_in_progress
    push_project w ctx c
    set_remote_default_branch w ctx c

  -- `createProject`
  unfoldable pub create_project_in_git : GitRepositoryContext → Codebase → Handler
  create_project_in_git ctx c = do
    put_remote_project w ctx c
    absent ← remote_default_branch_absent w ctx c
    branch absent (push_absent ctx c) (fail (new (refusal c)))

  unfoldable pub adopt_present : GitRepositoryContext → Codebase → Exec State Bool
  adopt_present ctx c = do
    set_remote_default_branch w ctx c
    update_git_status_with_patch w provisioning pushed
    pure true

  -- `adoptPushedProject`
  unfoldable pub adopt_pushed_project : GitRepositoryContext → Codebase → Exec State Bool
  adopt_pushed_project ctx c = branch (not (c.status.git == push_in_progress)) (pure false) do
    absent ← remote_default_branch_absent w ctx c
    branch absent (pure false) (adopt_present ctx c)

  -- From the provisioning of the work directory to the final status.
  unfoldable pub provision_and_push : GitRepositoryContext → Codebase → Handler
  provision_and_push ctx c = do
    handling w ("failed to perform initial provisioning of codebase " ++ c.name)
        (initial_project_provisioning w ctx c)
    handling w "failed to checkout branch" (checkout_for_push w ctx c)
    handling w "failed to create project" (create_project_in_git ctx c)
    update_git_status_with_patch w provisioning pushed

  unfoldable pub adopt_or_provision : GitRepositoryContext → Codebase → Handler
  adopt_or_provision ctx c = do
    adopted ← handling w "failed to adopt already pushed project" (adopt_pushed_project ctx c)
    branch adopted (pure tt) (provision_and_push ctx c)

  unfoldable pub put_missing_project : Handler
  put_missing_project = do
    c ← gets (λ s. s.codebase)
    wrapping ("failed to update codebase " ++ c.name ++ " status")
        (set_codebase_success_fields w provisioning)
    c' ← gets (λ s. s.codebase)
    ctx ← handling w "failed to get git repository context" (lift (get_git_repository_context w c'))
    adopt_or_provision ctx c'

  -- `PutProject.ServeRequest`
  unfoldable pub put_project : Handler
  put_project = do
    c ← gets (λ s. s.codebase)
    branch (skip_put_project c) (pure tt) put_missing_project

-- ===== src/CodebaseChain/Project/Remote.antt =====
-- chain/put_project.go: the project on the git server, by Gerrit's commands or by a web API.
use Prim.Native.String.{◌++◌}
use edp_codebase_operator.Prelude.{String, Bool, true, false, ◌==◌}
use edp_codebase_operator.Effects.{
  Result, ok, err, wrap, is, reference_not_found, api_not_supported, Exec, attempt, pure, fail,
  lift, gets, wrapping, branch, ◌>>=◌, ◌>>◌,
}
use edp_codebase_operator.Api.Codebase.{Codebase}
use edp_codebase_operator.Url.{get_project_git_url, get_project_id}
use edp_codebase_operator.CodebaseChain.{
  World, State, Handler, act, resolve_remote_reference, add_remote_link, push,
  create_gerrit_project, set_gerrit_head, create_project, set_default_branch,
}
use edp_codebase_operator.CodebaseChain.Repository.{GitRepositoryContext}

-- What the answer to the question for the remote default branch says.
abbrev pub absent_of : Result Unit → Exec State Bool
absent_of (ok found) = pure false
absent_of (err e) =
    branch (is reference_not_found e) (pure true)
      (fail (wrap "failed to check remote default branch" e))

-- An error of a web API that does not support the call is logged.
abbrev pub unless_unsupported : Result Unit → Handler
unless_unsupported (ok done) = pure tt
unless_unsupported (err e) =
    branch (is api_not_supported e) (pure tt) (fail (wrap "failed to set default branch" e))

module _ (w : World) where
  -- `createGerritProject`
  unfoldable pub put_gerrit_project : GitRepositoryContext → Codebase → Handler
  put_gerrit_project ctx c = do
    before ← gets (λ s. s.done)
    exists ←
        wrapping "failed to check if project exist in Gerrit"
          (lift (w.gerrit_project_exists before (get_project_id c.spec)))
    branch exists (pure tt) (
        wrapping "failed to create gerrit project"
          (act w (create_gerrit_project (get_project_id c.spec))))

  -- `createGitThirdPartyProject`
  unfoldable pub put_third_party_project : GitRepositoryContext → Codebase → Handler
  put_third_party_project ctx c = do
    wrapping "failed to create git provider" (lift (w.new_git_provider ctx.git_server ctx.token))
    before ← gets (λ s. s.done)
    exists ←
        wrapping "failed to check if project exists"
          (lift (w.project_exists before ctx.token (get_project_id c.spec)))
    branch exists (pure tt) (
        wrapping "failed to create project"
          (act w (create_project ctx.token (get_project_id c.spec) c.spec.is_private)))

  unfoldable pub put_remote_project : GitRepositoryContext → Codebase → Handler
  put_remote_project ctx c =
      branch (ctx.git_server.spec.git_provider == "gerrit")
        (wrapping ("failed to create project in Gerrit for codebase " ++ c.name)
          (put_gerrit_project ctx c))
        (put_third_party_project ctx c)

  unfoldable pub project_url : GitRepositoryContext → Codebase → String
  project_url ctx c =
      get_project_git_url w.decimal ctx.git_server ctx.git_server_secret (get_project_id c.spec)

  -- `remoteDefaultBranchAbsent`
  unfoldable pub remote_default_branch_absent : GitRepositoryContext → Codebase → Exec State Bool
  remote_default_branch_absent ctx c = do
    answer ← attempt (act w (resolve_remote_reference (project_url ctx c) c.spec.default_branch))
    absent_of answer

  -- `pushProject`
  unfoldable pub push_project : GitRepositoryContext → Codebase → Handler
  push_project ctx c = do
    wrapping "failed to add remote link" (act w (add_remote_link ctx.work_dir (project_url ctx c)))
    wrapping "failed to push changes and tags into git" (act w (push ctx.work_dir true))

  unfoldable pub set_third_party_default_branch : GitRepositoryContext → Codebase → Handler
  set_third_party_default_branch ctx c = do
    wrapping "failed to create git provider" (lift (w.new_git_provider ctx.git_server ctx.token))
    answer ←
        attempt (act w (set_default_branch ctx.token (get_project_id c.spec) c.spec.default_branch))
    unless_unsupported answer

  -- `PutProject.setDefaultBranch`
  unfoldable pub set_remote_default_branch : GitRepositoryContext → Codebase → Handler
  set_remote_default_branch ctx c =
      branch (ctx.git_server.spec.git_provider == "gerrit")
        (wrapping
          ("set remote HEAD for codebase "
            ++ get_project_id c.spec
            ++ " to default branch "
            ++ c.spec.default_branch
            ++ " has been failed")
          (act w (set_gerrit_head (get_project_id c.spec) c.spec.default_branch)))
        (set_third_party_default_branch ctx c)

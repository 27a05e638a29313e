-- ===== src/CodebaseChain/Cleaning.antt =====
-- chain/cleaner.go and put_default_codebasebranch.go.
use Prim.Native.String.{◌++◌}
use edp_codebase_operator.Prelude.{
  String, [], Bool, false, not, Option, none, some, ◌==◌, if◌then◌else◌,
}
use edp_codebase_operator.Effects.{
  error_text, Result, ok, err, new, wrap, is_not_found, attempt, pure, fail, lift, gets, wrapping,
  branch, ◌>>=◌,
}
use edp_codebase_operator.Api.{ObjectMeta}
use edp_codebase_operator.Api.Codebase.{Codebase, CodebaseBranch, CloneRepositoryCredentials}
use edp_codebase_operator.StreamDeploy.Labels.{replace_slashes}
use edp_codebase_operator.CodebaseChain.{
  World, Handler, act, delete_secret, remove_directory, create_codebase_branch,
}
use edp_codebase_operator.CodebaseChain.Status.{failing_codebase}
use edp_codebase_operator.CodebaseChain.Repository.{
  get_work_dir, get_clone_repository_credential_secret,
}

-- Whether the codebase asks to keep the secret with which it was cloned.
abbrev pub keeps_secret : Option CloneRepositoryCredentials → Bool
keeps_secret none = false
keeps_secret (some r) = not r.clear_secret_after_use

-- `errors.Join` of the two errors of `clean`, and the text of what it joins
abbrev pub join_results : Result Unit → Result Unit → Result Unit
join_results (ok a) r = r
join_results (err e) (ok a) = err (new (error_text e))
join_results (err e) (err f) = err (new (error_text e ++ "\n" ++ error_text f))

-- A secret that is not there needs no deletion.
abbrev pub unless_missing : Result Unit → Handler
unless_missing (ok gone) = pure tt
unless_missing (err e) =
    branch (is_not_found e) (pure tt)
      (fail (wrap "failed to delete secret with repository credentials for clone" e))

-- The metadata of a resource with a name in a namespace.
abbrev pub named_in : (namespace name : String) → ObjectMeta
named_in namespace name = record {
  name = name;
  generate_name = "";
  namespace = namespace;
  labels = [];
  annotations = [];
  creation_timestamp = 0;
  deletion_timestamp = none;
  finalizers = [];
  generation = 0;
  controller = none;
}

-- The branch of `PutDefaultCodeBaseBranch`, of which the version is set unless the versioning is the
-- default one.
unfoldable pub default_branch_of : (name : String) → Codebase → CodebaseBranch
default_branch_of name c = record {
  meta = named_in c.namespace name;
  spec = record {
    codebase_name = c.name;
    branch_name = c.spec.default_branch;
    from_commit = "";
    version = if c.spec.versioning.type_ == "default" then none else c.spec.versioning.start_from;
    release = false;
    pipelines = [];
  };
  status = record {
    last_time_updated = 0;
    version_history = [];
    last_successful_build = none;
    build = none;
    status = "";
    username = "";
    action = "";
    result = "";
    detailed_message = "";
    value = "";
    failure_count = 0;
    git = "";
    conditions = [];
  };
}

module _ (w : World) where
  -- `Cleaner.deleteSecret`
  unfoldable pub delete_clone_secret : Codebase → Handler
  delete_clone_secret c = branch (keeps_secret c.spec.clone_repository_credentials) (pure tt) do
    answer ← attempt (act w (delete_secret c.namespace (get_clone_repository_credential_secret c)))
    unless_missing answer

  -- `Cleaner.clean`
  unfoldable pub clean : Codebase → Handler
  clean c = do
    deleted ← attempt (delete_clone_secret c)
    removed ← attempt (
        wrapping ("failed to delete directory " ++ get_work_dir w c)
          (act w (remove_directory (get_work_dir w c))))
    lift (join_results deleted removed)

  -- `Cleaner.ServeRequest`
  unfoldable pub clean_data : Handler
  clean_data = do c ← gets (λ s. s.codebase); failing_codebase w "clean_data" (clean c)

  -- By the answer to the question for the default branch: it is created where it is not found.
  abbrev pub create_if_missing : (name : String) → Codebase → Result CodebaseBranch → Handler
  create_if_missing name c (ok found) = pure tt
  create_if_missing name c (err e) =
      branch (is_not_found e)
        (wrapping "failed to create codebase branch"
          (act w (create_codebase_branch (default_branch_of name c))))
        (fail (wrap "failed to get codebase branch" e))

  -- `PutDefaultCodeBaseBranch.ServeRequest`
  unfoldable pub put_default_codebase_branch : Handler
  unfolding replace_slashes
  put_default_codebase_branch = do
    c ← gets (λ s. s.codebase)
    create_if_missing (c.name ++ "-" ++ replace_slashes c.spec.default_branch) c
        (w.get_codebase_branch c.namespace (c.name ++ "-" ++ replace_slashes c.spec.default_branch))

-- ===== src/CodebaseChain/Controller/Ledger.antt =====
-- controllers/codebase: the git statuses of a codebase that the API server has stored, one after the
-- other, as a state machine over the actions of a run.
use edp_codebase_operator.Prelude.{
  String, List, [], ◌∷◌, ◌++◌, Bool, true, false, not, ◌&&◌, ◌||◌, ◌≡◌, refl, ap, ◌∙◌, ◌==◌,
  eq_refl, arith,
}
use mathlib.Core.List.{append-nil, append_assoc}
use edp_codebase_operator.Effects.{Result, ok, err}
use edp_codebase_operator.Api.Codebase.{Codebase, Secret}
use edp_codebase_operator.CodebaseChain.{
  World, State, Action, update_codebase_status, patch_codebase_status,
}
use edp_codebase_operator.CodebaseChain.Repository.{
  GitRepositoryContext, checkout_branch, checkout_by_strategy, checkout_clone, clone_missing,
  prepare_git_repository,
}
use edp_codebase_operator.CodebaseChain.Project.Provision.{
  empty_project_provisioning, try_to_clone_repo, squash_commits, not_empty_project_provisioning,
  initial_project_provisioning, replace_default_branch, copy_branch, checkout_default,
  checkout_for_push,
}
use edp_codebase_operator.CodebaseChain.Project.Remote.{
  put_gerrit_project, put_third_party_project, put_remote_project, set_third_party_default_branch,
  set_remote_default_branch, remote_default_branch_absent, push_project,
}
use edp_codebase_operator.CodebaseChain.Configs.{
  add_commit_hooks, add_gerrit_hooks, commit_and_push,
}
use edp_codebase_operator.CodebaseChain.WebHooks.{
  get_token_secret, store_secret_string, get_web_hook_secret, has_web_hook,
}
use edp_codebase_operator.CodebaseChain.Cleaning.{
  delete_clone_secret, clean, clean_data, put_default_codebase_branch,
}
use edp_codebase_operator.CodebaseChain.Controller.Available.{is_in_git}

-- The status stays; or the intent to push is stored while the history is not in git, it is stored that
-- what was intended is pushed, or that files are added, those of GitLab CI not after the templates.
unfoldable pub may_follow : (git next : String) → Bool
may_follow git next =
    git == next
    || next == "push_in_progress" && not (is_in_git git)
    || git == "push_in_progress" && next == "pushed"
    || next == "gitlab_ci_pushed" && not (git == "templates_pushed")
    || next == "templates_pushed"

pub may_stay : (git : String) → may_follow git git ≡ true
unfolding may_follow
may_stay git = ground (arith, eq_refl git)

pub may_intend : (git : String) → is_in_git git ≡ false → may_follow git "push_in_progress" ≡ true
unfolding may_follow
may_intend git h = ground arith

pub may_complete : may_follow "push_in_progress" "pushed" ≡ true
unfolding may_follow
may_complete = refl

pub may_add_gitlab_ci :
    (git : String) → (git == "templates_pushed") ≡ false → may_follow git "gitlab_ci_pushed" ≡ true
unfolding may_follow
may_add_gitlab_ci git h = ground arith

pub may_add_templates : (git : String) → may_follow git "templates_pushed" ≡ true
unfolding may_follow
may_add_templates git = ground arith

-- The status that is stored, and whether every one that was stored could follow the one before.
pub record Ledger : Type 0 where
  pub stored : String
  pub lawful : Bool

abbrev enter : Result Unit → String → Ledger → Ledger
enter (ok taken) git l = record { stored = git; lawful = l.lawful && may_follow l.stored git }
enter (err e) git l = l

unfoldable pub enter_action : World → (before : List Action) → Action → Ledger → Ledger
enter_action w before (update_codebase_status c) l =
    enter (w.answer before (update_codebase_status c)) c.status.git l
enter_action w before (patch_codebase_status c) l =
    enter (w.answer before (patch_codebase_status c)) c.status.git l
enter_action w before _ l = l

unfoldable pub enter_all : World → (before actions : List Action) → Ledger → Ledger
enter_all w before [] l = l
enter_all w before (a ∷ actions) l =
    enter_all w (before ++ a ∷ []) actions (enter_action w before a l)

-- The ledger after the actions of a run, where the first status is stored at its start.
unfoldable pub ledger : World → (first : String) → List Action → Ledger
ledger w first actions = enter_all w [] actions (record { stored = first; lawful = true })

enter_all-append :
    (w : World) (before actions : List Action) (a : Action) (l : Ledger)
    → enter_all w before (actions ++ a ∷ []) l
      ≡ enter_action w (before ++ actions) a (enter_all w before actions l)
unfolding enter_all
enter_all-append w before [] a l = rw (append-nil before) refl
enter_all-append w before (b ∷ actions) a l =
    let rest = enter_all w (before ++ b ∷ []) actions (enter_action w before b l) in
    enter_all-append w (before ++ b ∷ []) actions a (enter_action w before b l)
    ∙ ap (λ t. enter_action w t a rest) (append_assoc before (b ∷ []) actions)

pub ledger-append :
    (w : World) (first : String) (actions : List Action) (a : Action)
    → ledger w first (actions ++ a ∷ []) ≡ enter_action w actions a (ledger w first actions)
unfolding ledger
ledger-append w first actions a = enter_all-append w [] actions a _

-- What the handlers do between the writes of the status.
module _ (w : World) (first : String) where
  module _ (ctx : GitRepositoryContext) (c : Codebase) where
    pub checkout-ledger :
        (name : String) (s : State)
        → ledger w first (checkout_branch w name ctx c s).1.done ≡ ledger w first s.done
    unfolding checkout_branch checkout_by_strategy checkout_clone enter_action
    checkout-ledger name s = grind (arith, ledger-append)

    empty-ledger :
        (s : State)
        → ledger w first (empty_project_provisioning w ctx s).1.done ≡ ledger w first s.done
    unfolding empty_project_provisioning enter_action
    empty-ledger s = grind (arith, ledger-append)

    squash-ledger :
        (s : State)
        → ledger w first (squash_commits w ctx.work_dir c.spec.strategy s).1.done
          ≡ ledger w first s.done
    unfolding squash_commits enter_action
    squash-ledger s = grind (arith, ledger-append)

    not_empty-ledger :
        (s : State)
        → ledger w first (not_empty_project_provisioning w ctx c s).1.done ≡ ledger w first s.done
    unfolding not_empty_project_provisioning try_to_clone_repo enter_action
    not_empty-ledger s = grind (arith, ledger-append, squash-ledger)

    pub initial-ledger :
        (s : State)
        → ledger w first (initial_project_provisioning w ctx c s).1.done ≡ ledger w first s.done
    unfolding initial_project_provisioning enter_action
    initial-ledger s = grind (arith, ledger-append, empty-ledger, not_empty-ledger)

    pub for_push-ledger :
        (s : State) → ledger w first (checkout_for_push w ctx c s).1.done ≡ ledger w first s.done
    unfolding checkout_for_push copy_branch checkout_default replace_default_branch enter_action
    for_push-ledger s = grind (arith, ledger-append, checkout-ledger)

    pub remote-ledger :
        (s : State) → ledger w first (put_remote_project w ctx c s).1.done ≡ ledger w first s.done
    unfolding put_remote_project put_gerrit_project put_third_party_project enter_action
    remote-ledger s = grind (arith, ledger-append)

    pub default-ledger :
        (s : State)
        → ledger w first (set_remote_default_branch w ctx c s).1.done ≡ ledger w first s.done
    unfolding set_remote_default_branch set_third_party_default_branch enter_action
    default-ledger s = grind (arith, ledger-append)

    pub absent-ledger :
        (s : State)
        → ledger w first (remote_default_branch_absent w ctx c s).1.done ≡ ledger w first s.done
    unfolding remote_default_branch_absent enter_action
    absent-ledger s = grind (arith, ledger-append)

    pub push-ledger :
        (s : State) → ledger w first (push_project w ctx c s).1.done ≡ ledger w first s.done
    unfolding push_project enter_action
    push-ledger s = grind (arith, ledger-append)

  pub prepare-ledger :
      (c : Codebase) (s : State)
      → ledger w first (prepare_git_repository w c s).1.done ≡ ledger w first s.done
  unfolding prepare_git_repository clone_missing enter_action
  prepare-ledger c s = grind (arith, ledger-append, checkout-ledger)

  pub hooks-ledger :
      (ctx : GitRepositoryContext) (s : State)
      → ledger w first (add_gerrit_hooks w ctx s).1.done ≡ ledger w first s.done
  unfolding add_gerrit_hooks add_commit_hooks enter_action
  hooks-ledger ctx s = grind (arith, ledger-append)

  pub commit-ledger :
      (work_dir message : String) (s : State)
      → ledger w first (commit_and_push w work_dir message s).1.done ≡ ledger w first s.done
  unfolding commit_and_push enter_action
  commit-ledger work_dir message s = grind (arith, ledger-append)

  pub secret-ledger :
      (namespace name : String) (s : State)
      → ledger w first (get_web_hook_secret w namespace name s).1.done ≡ ledger w first s.done
  unfolding get_web_hook_secret get_token_secret store_secret_string enter_action
  secret-ledger namespace name s = grind (arith, ledger-append)

  pub has_web_hook-ledger :
      (secret : Secret) (c : Codebase) (s : State)
      → ledger w first (has_web_hook w secret c s).1.done ≡ ledger w first s.done
  unfolding has_web_hook enter_action
  has_web_hook-ledger secret c s = grind (arith, ledger-append)

  pub default_branch-ledger :
      (s : State) → ledger w first (put_default_codebase_branch w s).1.done ≡ ledger w first s.done
  unfolding put_default_codebase_branch enter_action
  default_branch-ledger s = grind (arith, ledger-append)

  pub clean-ledger : (s : State) → ledger w first (clean_data w s).1.done ≡ ledger w first s.done
  unfolding clean_data clean delete_clone_secret enter_action
  clean-ledger s = grind (arith, ledger-append)

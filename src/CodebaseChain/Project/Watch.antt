-- ===== src/CodebaseChain/Project/Watch.antt =====
-- chain/put_project.go: what a run has learnt about the remote repository.
use edp_codebase_operator.Prelude.{
  String, List, [], ◌∷◌, ◌++◌, Bool, true, false, ◌&&◌, ◌≡◌, refl, ap, ◌∙◌, ◌==◌, arith,
}
use mathlib.Core.List.{append-nil, append_assoc}
use edp_codebase_operator.Effects.{Result, ok, err, is, reference_not_found}
use edp_codebase_operator.Api.Codebase.{Codebase}
use edp_codebase_operator.CodebaseChain.{
  World, State, Action, update_codebase_status, patch_codebase_status, resolve_remote_reference,
  push, add_remote_link,
}
use edp_codebase_operator.CodebaseChain.Repository.{
  GitRepositoryContext, checkout_branch, checkout_by_strategy, checkout_clone,
}
use edp_codebase_operator.CodebaseChain.Project.Provision.{
  empty_project_provisioning, try_to_clone_repo, squash_commits, not_empty_project_provisioning,
  initial_project_provisioning, replace_default_branch, copy_branch, checkout_default,
  checkout_for_push,
}
use edp_codebase_operator.CodebaseChain.Project.Remote.{
  put_gerrit_project, put_third_party_project, put_remote_project, set_third_party_default_branch,
  set_remote_default_branch,
}

-- What is known of the remote repositories while a run goes on, where the default branch of the codebase
-- is `trunk`: the last question for a reference was about this branch at the URL `asked`, it was found
-- absent, and nothing has been pushed since; the remote link of the work directory goes to the URL
-- `linked`; the cluster holds the status that a push is in progress; and at every push all this was so,
-- with one URL.
pub record Watch : Type 0 where
  pub absent : Bool
  pub asked : String
  pub linked : String
  pub intended : Bool
  pub guarded : Bool

abbrev pub is_absent : Result Unit → Bool
is_absent (ok found) = false
is_absent (err e) = is reference_not_found e

abbrev pub intends : Codebase → Result Unit → Bool → Bool
intends c (ok stored) known = c.status.git == "push_in_progress"
intends c (err e) known = known

unfoldable pub watch : World → (trunk : String) → (before : List Action) → Action → Watch → Watch
watch w trunk before (resolve_remote_reference url reference) k = record k {
  absent =
      reference == trunk && is_absent (w.answer before (resolve_remote_reference url reference));
  asked = url;
}
watch w trunk before (add_remote_link directory url) k = record k { linked = url }
watch w trunk before (update_codebase_status c) k = record k {
  intended = intends c (w.answer before (update_codebase_status c)) k.intended;
}
watch w trunk before (patch_codebase_status c) k = record k {
  intended = intends c (w.answer before (patch_codebase_status c)) k.intended;
}
watch w trunk before (push directory tags) k = record k {
  absent = false;
  guarded = k.guarded && k.absent && k.asked == k.linked && k.intended;
}
watch w trunk before _ k = k

unfoldable pub watch_all : World → (trunk : String) → (before actions : List Action) → Watch → Watch
watch_all w trunk before [] k = k
watch_all w trunk before (a ∷ actions) k =
    watch_all w trunk (before ++ a ∷ []) actions (watch w trunk before a k)

-- What is known after the actions of a run.
unfoldable pub known : World → (trunk : String) → List Action → Watch
known w trunk actions =
    watch_all w trunk [] actions
      (record { absent = false; asked = ""; linked = ""; intended = false; guarded = true })

watch_all-append :
    (w : World) (trunk : String) (before actions : List Action) (a : Action) (k : Watch)
    → watch_all w trunk before (actions ++ a ∷ []) k
      ≡ watch w trunk (before ++ actions) a (watch_all w trunk before actions k)
unfolding watch_all
watch_all-append w trunk before [] a k = rw (append-nil before) refl
watch_all-append w trunk before (b ∷ actions) a k =
    let rest = watch_all w trunk (before ++ b ∷ []) actions (watch w trunk before b k) in
    watch_all-append w trunk (before ++ b ∷ []) actions a (watch w trunk before b k)
    ∙ ap (λ t. watch w trunk t a rest) (append_assoc before (b ∷ []) actions)

pub known-append :
    (w : World) (trunk : String) (actions : List Action) (a : Action)
    → known w trunk (actions ++ a ∷ []) ≡ watch w trunk actions a (known w trunk actions)
unfolding known
known-append w trunk actions a =
    watch_all-append w trunk [] actions a
      (record { absent = false; asked = ""; linked = ""; intended = false; guarded = true })

-- What makes the history in the work directory neither asks the remote repository nor pushes.
module _ (w : World) (trunk : String) (ctx : GitRepositoryContext) (c : Codebase) where
  pub checkout-known :
      (name : String) (s : State)
      → known w trunk (checkout_branch w name ctx c s).1.done ≡ known w trunk s.done
  unfolding checkout_branch checkout_by_strategy checkout_clone watch
  checkout-known name s = grind (arith, known-append)

  empty-known :
      (s : State) → known w trunk (empty_project_provisioning w ctx s).1.done ≡ known w trunk s.done
  unfolding empty_project_provisioning watch
  empty-known s = grind (arith, known-append)

  squash-known :
      (s : State)
      → known w trunk (squash_commits w ctx.work_dir c.spec.strategy s).1.done
        ≡ known w trunk s.done
  unfolding squash_commits watch
  squash-known s = grind (arith, known-append)

  not_empty-known :
      (s : State)
      → known w trunk (not_empty_project_provisioning w ctx c s).1.done ≡ known w trunk s.done
  unfolding not_empty_project_provisioning try_to_clone_repo watch
  not_empty-known s = grind (arith, known-append, squash-known)

  pub initial-known :
      (s : State)
      → known w trunk (initial_project_provisioning w ctx c s).1.done ≡ known w trunk s.done
  unfolding initial_project_provisioning watch
  initial-known s = grind (arith, known-append, empty-known, not_empty-known)

  pub for_push-known :
      (s : State) → known w trunk (checkout_for_push w ctx c s).1.done ≡ known w trunk s.done
  unfolding checkout_for_push copy_branch checkout_default replace_default_branch watch
  for_push-known s = grind (arith, known-append, checkout-known)

  pub remote-known :
      (s : State) → known w trunk (put_remote_project w ctx c s).1.done ≡ known w trunk s.done
  unfolding put_remote_project put_gerrit_project put_third_party_project watch
  remote-known s = grind (arith, known-append)

  pub default-known :
      (s : State)
      → known w trunk (set_remote_default_branch w ctx c s).1.done ≡ known w trunk s.done
  unfolding set_remote_default_branch set_third_party_default_branch watch
  default-known s = grind (arith, known-append)

-- ===== src/CodebaseChain/Project/Runs.antt =====
-- chain/put_project.go, over the runs of the operator: a run may stop after any action, and the next one
-- starts from whatever codebase the cluster then holds.
use edp_codebase_operator.Prelude.{String, List, [], ◌∷◌, ◌++◌, true, ◌≡◌, refl, arith}
use edp_codebase_operator.Api.Codebase.{Codebase}
use edp_codebase_operator.CodebaseChain.{World, Action}
use edp_codebase_operator.CodebaseChain.Project.{put_project}
use edp_codebase_operator.CodebaseChain.Project.Watch.{Watch, watch, watch_all, known, known-append}
use edp_codebase_operator.CodebaseChain.Project.Guarded.{pushes_guarded}

-- The actions that a series of runs can leave, all of a codebase with the default branch `trunk`.
pub data Runs (w : World) (trunk : String) : List Action → Type 0 where
  first : Runs w trunk []
  next_run :
      {actions : List Action} (c : Codebase)
      → c.spec.default_branch ≡ trunk
      → Runs w trunk actions
      → Runs w trunk (put_project w (record { codebase = c; done = actions })).1.done
  -- the operator stops before its last action
  crash :
      {actions : List Action} (a : Action) → Runs w trunk (actions ++ a ∷ []) → Runs w trunk actions

watch-guarded :
    (w : World) (trunk : String) (before : List Action) (a : Action) (k : Watch)
    → (watch w trunk before a k).guarded ≡ true
    → k.guarded ≡ true
unfolding watch
watch-guarded w trunk before a k h = ground arith

-- However often the operator stops and starts again, and whatever codebase with this default branch it
-- then finds: at every push the default branch had been found absent at the URL that is pushed to,
-- nothing had been pushed since, and the status that a push is in progress was stored.
pub runs_guarded :
    (w : World) (trunk : String) (actions : List Action)
    → Runs w trunk actions
    → (known w trunk actions).guarded ≡ true
unfolding known watch_all
runs_guarded w trunk actions Runs.first = refl
runs_guarded w trunk actions (Runs.next_run {actions = before} c at_trunk earlier) =
    pushes_guarded w trunk (record { codebase = c; done = before }) at_trunk
      (runs_guarded w trunk before earlier)
runs_guarded w trunk actions (Runs.crash a later) =
    let g = runs_guarded w trunk (actions ++ a ∷ []) later in
    watch-guarded w trunk actions a (known w trunk actions)
      (rw (known-append w trunk actions a) at g)

-- ===== src/CodebaseChain/Controller/Steps.antt =====
-- controllers/codebase: a handler that keeps the stored git statuses to the state machine.
use edp_codebase_operator.Prelude.{String, List, [], ◌∷◌, true, ◌≡◌, eq_iff, arith, inl, inr}
use edp_codebase_operator.Effects.{Result, ok, for_each, continue, Result-cases, wrapping, ◌>>◌}
use edp_codebase_operator.CodebaseChain.{World, State, Handler}
use edp_codebase_operator.CodebaseChain.Status.{
  set_codebase_success_fields, codebase_intermediate_fields, codebase_failed_fields,
  update_git_status_with_patch,
}
use edp_codebase_operator.CodebaseChain.Project.{push_in_progress, pushed, provisioning}
use edp_codebase_operator.CodebaseChain.WebHooks.{put_git_web_repo_url}
use edp_codebase_operator.CodebaseChain.Controller.{serve_handlers}
use edp_codebase_operator.CodebaseChain.Controller.Ledger.{
  ledger, enter_action, may_follow, may_stay, may_complete, ledger-append,
}

-- Every git status that was stored could follow the one before, and the last one is that in memory.
abbrev pub InStep : World → (first : String) → State → Type 0
InStep w first s =
    ((ledger w first s.done).lawful ≡ true)
    × ((ledger w first s.done).stored ≡ s.codebase.status.git)

-- After a handler, that in memory may be another one only where the handler has failed.
abbrev pub Sound : {A : Type 0} → World → (first : String) → Result A × State → Type 0
Sound {A} w first (r, s) =
    ((ledger w first s.done).lawful ≡ true)
    × ((a : A) → r ≡ ok a → (ledger w first s.done).stored ≡ s.codebase.status.git)

module _ (w : World) (first : String) where
  abbrev pub IsSound : Handler → Type 0
  IsSound m = (s : State) → InStep w first s → Sound w first (m s)

  then-IsSound : (m n : Handler) → IsSound m → IsSound n → IsSound (m >> n)
  then-IsSound m n f g s i = elim (Result-cases (m s).0) [
    | inl (tt, e) ↦ rw (e, continue) (g (m s).1 ((f s i).0, (f s i).1 tt e))
    | inr (e, q) ↦ rw (q, continue) ((f s i).0, λ a h. cc h)
  ]

  wrapping-IsSound : (text : String) (m : Handler) → IsSound m → IsSound (wrapping text m)
  wrapping-IsSound text m f s i = elim (Result-cases (m s).0) [
    | inl (tt, e) ↦ ((f s i).0, λ a h. (f s i).1 tt e)
    | inr (e, q) ↦ ((f s i).0, λ a h. cc (rw q at h))
  ]

  abbrev pub AllSound : List Handler → Type 0
  AllSound [] = Unit
  AllSound (m ∷ handlers) = IsSound m × AllSound handlers

  pub serve-IsSound :
      (handlers : List Handler) → AllSound handlers → IsSound (serve_handlers w handlers)
  unfolding serve_handlers for_each
  serve-IsSound [] all s (a, b) = (a, λ t h. b)
  serve-IsSound (m ∷ handlers) (f, all) s i =
      let text : String = "failed to serve handler" in
      then-IsSound (wrapping text m) (serve_handlers w handlers) (wrapping-IsSound text m f)
        (serve-IsSound handlers all) s i

  pub success-IsSound : (action : String) → IsSound (set_codebase_success_fields w action)
  unfolding set_codebase_success_fields codebase_intermediate_fields enter_action
  success-IsSound action s (a, b) = (
    grind (arith, ledger-append, may_stay s.codebase.status.git),
    λ t h. grind (arith, ledger-append, may_stay s.codebase.status.git),
  )

  pub patch-Sound :
      (action git : String) (s : State)
      → InStep w first s
      → may_follow s.codebase.status.git git ≡ true
      → Sound w first (update_git_status_with_patch w action git s)
  unfolding update_git_status_with_patch codebase_failed_fields enter_action
  patch-Sound action git s (a, b) m = (
    grind (arith, ledger-append, eq_iff s.codebase.status.git git),
    λ t h. grind (arith, ledger-append, eq_iff s.codebase.status.git git),
  )

  pub complete-Sound :
      (s : State)
      → InStep w first s
      → s.codebase.status.git ≡ push_in_progress
      → Sound w first (update_git_status_with_patch w provisioning pushed s)
  complete-Sound s i q = patch-Sound provisioning pushed s i (rw q may_complete)

  pub patch-git :
      (action git : String) (s : State)
      → (update_git_status_with_patch w action git s).1.codebase.status.git ≡ git
  unfolding update_git_status_with_patch codebase_failed_fields
  patch-git action git s = grind (arith, eq_iff s.codebase.status.git git)

  pub url-IsSound : IsSound (put_git_web_repo_url w)
  unfolding put_git_web_repo_url codebase_failed_fields
  url-IsSound s (a, b) = (grind (arith, success-IsSound), λ t h. grind (arith, success-IsSound))

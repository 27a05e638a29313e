-- ===== src/BranchChain/Versions/Once.antt =====
-- chain/process_new_version.go: a version is started once.
use edp_codebase_operator.Prelude.{
  String, List, [], ◌∷◌, ◌++◌, true, some, contains, any, ◌≡◌, arith, eq_refl, Memᴰ,
  mem_of_contains,
}
use edp_codebase_operator.Effects.{ok}
use edp_codebase_operator.Api.Codebase.{Codebase, is_version_type_semver}
use edp_codebase_operator.BranchChain.{BranchClient, State}
use edp_codebase_operator.BranchChain.Versions.{has_new_version, process_new_version}

contains-append_last : (vs : List String) (v : String) → contains (vs ++ v ∷ []) v ≡ true
unfolding contains any
contains-append_last [] v = ground (arith, eq_refl v)
contains-append_last (x ∷ vs) v = ground (arith, contains-append_last vs v)

-- Where the version of a semver branch has been processed without an error, the history holds it, and
-- processing it again succeeds, changes nothing and sends nothing.
pub version_started_once :
    (client : BranchClient) (c : Codebase) (v : String) (s : State)
    → is_version_type_semver c.spec ≡ true
    → s.branch.spec.version ≡ some v
    → (process_new_version client c s).0 ≡ ok tt
    → let after = (process_new_version client c s).1 in
      Memᴰ v after.branch.status.version_history
      × (process_new_version client c after ≡ (ok tt, after))
unfolding process_new_version has_new_version
version_started_once client c v s semver version done =
    let after = (process_new_version client c s).1 in
    let held : contains after.branch.status.version_history v ≡ true =
      ground (arith, contains-append_last s.branch.status.version_history v) in
    let same : after.branch.spec.version ≡ some v = ground arith in
    (mem_of_contains after.branch.status.version_history v held, ground arith)

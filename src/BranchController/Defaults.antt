-- ===== src/BranchController/Defaults.antt =====
-- codebasebranch_controller.go, setDefaultValues: what it sets, and that it sets it once.
use edp_codebase_operator.Prelude.{
  String, Bool, true, false, some, none, Option, Dict, lookup, ◌≡◌, ◌==◌, lookup-insert, eq_iff,
  arith, if◌then◌else◌,
}
use edp_codebase_operator.Effects.{ok}
use edp_codebase_operator.Api.Codebase.{Codebase, GitServer, CodebaseSpec}
use edp_codebase_operator.BranchChain.{State}
use edp_codebase_operator.BranchController.{BranchCluster}
use edp_codebase_operator.BranchController.Parts.{
  pipelines_is_set, insert_missing, with_pipelines, set_default_values,
}

abbrev or_default : String → Option String → String
or_default value none = value
or_default value (some v) = v

lookup-insert_missing :
    (key value read : String) (m : Dict String)
    → lookup read (insert_missing key value m)
      ≡ (if key == read then some (or_default value (lookup key m)) else lookup read m)
unfolding insert_missing
lookup-insert_missing key value read m = grind (arith, lookup-insert, eq_iff key read)

with_pipelines-is_set :
    (g : GitServer) (spec : CodebaseSpec) (m : Dict String)
    → pipelines_is_set (with_pipelines g spec m) ≡ true
unfolding pipelines_is_set with_pipelines
with_pipelines-is_set g spec m = grind (arith, lookup-insert_missing)

with_pipelines-keeps :
    (g : GitServer) (spec : CodebaseSpec) (m : Dict String) (key value : String)
    → lookup key m ≡ some value
    → lookup key (with_pipelines g spec m) ≡ some value
unfolding with_pipelines
with_pipelines-keeps g spec m key value h =
    grind (arith, lookup-insert_missing, eq_iff "build" key, eq_iff "review" key)

module _ (c : BranchCluster) (codebase : Codebase) (s : State) where
  -- Where the default values have been set without an error, setting them again changes nothing.
  pub defaults_set_once :
      {updated : Bool}
      → let (r, after) = set_default_values c codebase s in
        r ≡ ok updated → set_default_values c codebase after ≡ (ok false, after)
  unfolding set_default_values
  defaults_set_once h = grind (arith, with_pipelines-is_set)

  -- A pipeline that the branch names already is kept.
  pub defaults_overwrite_nothing :
      (key value : String)
      → lookup key s.branch.spec.pipelines ≡ some value
      → lookup key (set_default_values c codebase s).1.branch.spec.pipelines ≡ some value
  unfolding set_default_values
  defaults_overwrite_nothing key value h = grind (arith, with_pipelines-keeps)

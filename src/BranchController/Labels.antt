-- ===== src/BranchController/Labels.antt =====
-- pkg/codebasebranch/labels.go: the labels of a branch after AddCodebaseLabel.
use edp_codebase_operator.Prelude.{
  String, true, Dict, lookup, get_or_empty, ◌≡◌, ◌==◌, lookup-insert, eq_iff, arith, if◌then◌else◌,
  text_or_empty,
}
use edp_codebase_operator.Effects.{ok}
use edp_codebase_operator.BranchChain.{State}
use edp_codebase_operator.BranchController.{BranchCluster}
use edp_codebase_operator.BranchController.Parts.{
  set_label, with_codebase_labels, has_codebase_labels, add_codebase_label,
}

get-set_label :
    (key value read : String) (m : Dict String)
    → get_or_empty read (set_label key value m)
      ≡ (if key == read then value else get_or_empty read m)
unfolding set_label get_or_empty
get-set_label key value read m =
    grind (arith, lookup-insert, eq_iff key read, eq_iff (text_or_empty (lookup key m)) value)

module _ (c : BranchCluster) where
  labels_set :
      (codebase branch_name : String) (m : Dict String)
      → has_codebase_labels c codebase branch_name (with_codebase_labels c codebase branch_name m)
        ≡ true
  unfolding has_codebase_labels with_codebase_labels
  labels_set codebase branch_name m = grind (
    arith,
    get-set_label,
    eq_iff codebase codebase,
    eq_iff (c.branch_hash branch_name) (c.branch_hash branch_name),
  )

  -- However the update ends, the branch in memory has the labels of its codebase, so a second run sends
  -- nothing.
  pub labels_set_once :
      (codebase : String) (s : State)
      → let after = (add_codebase_label c codebase s).1 in
        add_codebase_label c codebase after ≡ (ok tt, after)
  unfolding add_codebase_label
  labels_set_once codebase s = grind (arith, labels_set)

-- ===== src/StaleCheck/Checker/Deletion.antt =====
-- Which branches a sweep of stalecheck/checker.go deletes.
use edp_codebase_operator.Prelude.{
  List, [], ◌∷◌, ◌++◌, Bool, true, false, not, ◌&&◌, ◌||◌, none, Memᴰ, mem-append_cases, contains,
  contains_of_mem, string_key, Bool-cases, ◌≡◌, refl, ap, sym, ◌≢◌, inl, inr, arith, subst, ◌==◌,
  eq_iff, if◌then◌else◌,
}
use edp_codebase_operator.Api.Codebase.{Codebase, CodebaseBranch, branch_created}
use edp_codebase_operator.DeploymentUsage.{join}
use edp_codebase_operator.DeploymentUsage.Text.{join-eq-empty}
use edp_codebase_operator.DeploymentUsage.Branches.{BranchUsageIndex, find}
use edp_codebase_operator.StaleCheck.Action.{
  Verdict, ConditionsPackage, Client, Request, patch_status, patch, delete, emit, mark, cleanup,
  update_status_condition, update_stale_label, emit_transition_event,
}
use edp_codebase_operator.StaleCheck.Checker.{
  Snapshot, auto_cleanup, eligible_for_check, verdict_of, apply_action, check_branches,
}

-- The branches that the requests delete.
unfoldable pub deletes : List Request → List CodebaseBranch
deletes [] = []
deletes (delete b ∷ rs) = b ∷ deletes rs
deletes (patch_status b ∷ rs) = deletes rs
deletes (patch b ∷ rs) = deletes rs
deletes (emit e b ∷ rs) = deletes rs

pub deletes-append : (xs ys : List Request) → deletes (xs ++ ys) ≡ deletes xs ++ deletes ys
unfolding deletes
deletes-append [] ys = refl
deletes-append (delete b ∷ rs) ys = ap (λ (l : List CodebaseBranch). b ∷ l) (deletes-append rs ys)
deletes-append (patch_status b ∷ rs) ys = deletes-append rs ys
deletes-append (patch b ∷ rs) ys = deletes-append rs ys
deletes-append (emit e b ∷ rs) ys = deletes-append rs ys

module _ (conditions : ConditionsPackage) (client : Client) where
  deletes-mark :
      (v : Verdict) (b : CodebaseBranch)
      → deletes (mark conditions client v (record { branch = b; sent = [] })).1.sent ≡ []
  unfolding mark update_status_condition update_stale_label emit_transition_event deletes
  deletes-mark v b = ground arith

  deletes-cleanup :
      (v : Verdict) (b : CodebaseBranch)
      → deletes (cleanup conditions client v (record { branch = b; sent = [] })).1.sent
        ≡ (if v.exists_in_git || not (v.retained_by == "") then [] else b ∷ [])
  unfolding cleanup deletes
  deletes-cleanup v b = ground (arith, deletes-mark v b)

  deletes-apply_action :
      (c : Codebase) (v : Verdict) (b : CodebaseBranch)
      → deletes (apply_action conditions client c v b) ≡ (
          if auto_cleanup c && not (v.exists_in_git || not (v.retained_by == ""))
          then b ∷ []
          else [])
  unfolding apply_action
  deletes-apply_action c v b = ground (arith, deletes-mark v b, deletes-cleanup v b)

mem-if :
    {x b : CodebaseBranch} (t : Bool) → Memᴰ x (if t then b ∷ [] else []) → (t ≡ true) × (x ≡ b)
mem-if true (Memᴰ.head e) = (refl, e)
mem-if true (Memᴰ.tail m) = elim m [ ]
mem-if false m = elim m [ ]

-- The branch may be deleted: the operator created it in git, it is neither terminating nor the default
-- branch, the cleanup strategy is on, git no longer has it, and no deployment resource uses it.
pub record IsDeletable (snap : Snapshot) (usage : BranchUsageIndex) (b : CodebaseBranch)
    : Type 0 where
  pub auto : auto_cleanup snap.codebase ≡ true
  pub alive : b.deletion_timestamp ≡ none
  pub created : b.status.git ≡ branch_created
  pub not_default : b.spec.branch_name ≢ snap.codebase.spec.default_branch
  pub gone : ¬ Memᴰ b.spec.branch_name snap.remote
  pub unused : find usage b ≡ []

module _ (snap : Snapshot) (usage : BranchUsageIndex) (b : CodebaseBranch) where
  eligible_lem :
      eligible_for_check b snap.codebase ≡ true
      → (b.deletion_timestamp ≡ none)
        × (b.status.git ≡ branch_created)
        × (b.spec.branch_name ≢ snap.codebase.spec.default_branch)
  unfolding eligible_for_check
  eligible_lem h = ground (
    arith,
    eq_iff b.status.git branch_created,
    eq_iff b.spec.branch_name snap.codebase.spec.default_branch,
  )

  unretained :
      auto_cleanup snap.codebase ≡ true
      → let v = verdict_of snap.codebase snap.remote usage b in
        (v.exists_in_git || not (v.retained_by == "")) ≡ false
        → (contains snap.remote b.spec.branch_name ≡ false) × (join (find usage b) ≡ "")
  unfolding verdict_of
  unretained auto h = ground (arith, eq_iff (join (find usage b)) "")

  verdict-IsDeletable :
      eligible_for_check b snap.codebase ≡ true
      → let v = verdict_of snap.codebase snap.remote usage b in
        (auto_cleanup snap.codebase && not (v.exists_in_git || not (v.retained_by == ""))) ≡ true
        → IsDeletable snap usage b
  verdict-IsDeletable eligible h =
      let (alive, created, not_default) = eligible_lem eligible in
      let auto : auto_cleanup snap.codebase ≡ true = ground arith in
      let (missing, empty) = unretained auto (ground arith) in
      record {
        auto = auto;
        alive = alive;
        created = created;
        not_default = not_default;
        gone = λ m. cc (contains_of_mem snap.remote b.spec.branch_name m);
        unused = join-eq-empty (find usage b) empty;
      }

module _ (conditions : ConditionsPackage) (client : Client) where
  pub deletes-check_branches :
      (snap : Snapshot) (usage : BranchUsageIndex) (bs : List CodebaseBranch) (b : CodebaseBranch)
      → Memᴰ b (deletes (check_branches conditions client snap usage bs))
      → Memᴰ b bs × IsDeletable snap usage b
  unfolding check_branches deletes
  deletes-check_branches snap usage [] b m = elim m [ ]
  deletes-check_branches snap usage (x ∷ bs) b m =
      let v = verdict_of snap.codebase snap.remote usage x in
      let rest = check_branches conditions client snap usage bs in
      elim (Bool-cases (eligible_for_check x snap.codebase)) [
        | inl e ↦
            elim (mem-append_cases (deletes (apply_action conditions client snap.codebase v x))
              (deletes rest)
              (subst (Memᴰ b)
                (deletes-append (apply_action conditions client snap.codebase v x) rest)
                (rw (e, if◌then◌else◌) at m))) [
                  | inl n ↦
                      let (test, same) =
                        mem-if
                          (auto_cleanup snap.codebase
                            && not (v.exists_in_git || not (v.retained_by == "")))
                          (subst (Memᴰ b) (deletes-apply_action conditions client snap.codebase v x)
                            n) in
                      (
                        Memᴰ.head same,
                        subst (IsDeletable snap usage) (sym same)
                            (verdict-IsDeletable snap usage x e test),
                      )
                  | inr n ↦
                      let (k, d) = deletes-check_branches snap usage bs b n in (Memᴰ.tail k, d)
                ]
        | inr e ↦
            let (n, d) = deletes-check_branches snap usage bs b (rw (e, if◌then◌else◌) at m) in
            (Memᴰ.tail n, d)
      ]

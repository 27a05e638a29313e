-- ===== src/StaleCheck/Checker/Sweep.antt =====
-- stalecheck/checker.go: what a whole sweep of a namespace deletes.
use edp_codebase_operator.Prelude.{
  String, List, [], ◌∷◌, Memᴰ, mem-cons_cases, mem-append_cases, MultiMap, string_key, append_at,
  Bool-cases, ◌≡◌, refl, ap, sym, ◌∙◌, inl, inr, subst, ◌==◌, eq_iff, if◌then◌else◌,
}
use edp_codebase_operator.Effects.{ok, Result-cases}
use edp_codebase_operator.Api.Codebase.{CodebaseBranch}
use edp_codebase_operator.DeploymentUsage.Branches.{BranchUsageIndex, new_branch_usage_index}
use edp_codebase_operator.StaleCheck.Action.{ConditionsPackage, Client}
use edp_codebase_operator.StaleCheck.Checker.{
  Reader, Snapshot, read_snapshot, check_codebase_branches, check_groups, group_by_codebase, sweep,
}
use edp_codebase_operator.StaleCheck.Checker.Deletion.{
  deletes, deletes-append, deletes-check_branches, IsDeletable,
}

-- Every branch of an entry belongs to the codebase of its key and satisfies the predicate.
IsGrouped : (CodebaseBranch → Type 0) → MultiMap String CodebaseBranch → Type 0
IsGrouped Good groups =
    (k : String) (vs : List CodebaseBranch) (b : CodebaseBranch)
    → Memᴰ (k, vs) groups
    → Memᴰ b vs
    → (b.spec.codebase_name ≡ k) × Good b

mem-entry :
    {k j : String} {vs ws : List CodebaseBranch} {x : CodebaseBranch}
    → ◌≡◌ {A = String × List CodebaseBranch} (k, vs) (j, ws)
    → Memᴰ x vs
    → (k ≡ j) × Memᴰ x ws
mem-entry {x = x} e m = (
  ap (λ (p : String × List CodebaseBranch). p.0) e,
  subst (λ (p : String × List CodebaseBranch). Memᴰ x p.1) e m,
)

module _ (Good : CodebaseBranch → Type 0) where
  -- Adding a good branch under its own codebase keeps the entries right.
  append_at-IsGrouped :
      (b : CodebaseBranch) (groups : MultiMap String CodebaseBranch)
      → Good b
      → IsGrouped Good groups
      → IsGrouped Good (append_at b.spec.codebase_name b groups)
  unfolding append_at IsGrouped
  append_at-IsGrouped b [] good h k vs x m n = elim (mem-cons_cases m) [
    | inl e ↦
        let (same, here) = mem-entry e n in
        elim (mem-cons_cases here) [ inl i ↦ (cc, subst Good (sym i) good) | inr q ↦ elim q [ ] ]
    | inr q ↦ elim q [ ]
  ]
  append_at-IsGrouped b ((j, ws) ∷ groups) good h k vs x m n =
      elim (Bool-cases (j == b.spec.codebase_name)) [
        | inl e ↦ elim (mem-cons_cases (rw (e, if◌then◌else◌) at m)) [
          | inl q ↦
              let (same, both) = mem-entry q n in
              elim (mem-append_cases ws (b ∷ []) both) [
                | inl i ↦ let (own, g) = h j ws x (Memᴰ.head refl) i in (own ∙ sym same, g)
                | inr i ↦ elim (mem-cons_cases i) [
                  | inl i' ↦ (cc ((eq_iff j b.spec.codebase_name).0 e), subst Good (sym i') good)
                  | inr q' ↦ elim q' [ ]
                ]
              ]
          | inr q ↦ h k vs x (Memᴰ.tail q) n
        ]
        | inr e ↦ elim (mem-cons_cases (rw (e, if◌then◌else◌) at m)) [
          | inl q ↦
              let (same, i) = mem-entry q n in
              let (own, g) = h j ws x (Memᴰ.head refl) i in (own ∙ sym same, g)
          | inr q ↦
              append_at-IsGrouped b groups good (λ i us y r. h i us y (Memᴰ.tail r)) k vs x q n
        ]
      ]

  group_by_codebase-IsGrouped :
      (bs : List CodebaseBranch) (groups : MultiMap String CodebaseBranch)
      → ((b : CodebaseBranch) → Memᴰ b bs → Good b)
      → IsGrouped Good groups
      → IsGrouped Good (group_by_codebase bs groups)
  unfolding group_by_codebase IsGrouped
  group_by_codebase-IsGrouped [] groups good h = h
  group_by_codebase-IsGrouped (b ∷ bs) groups good h =
      group_by_codebase-IsGrouped bs (append_at b.spec.codebase_name b groups)
        (λ x m. good x (Memᴰ.tail m)) (append_at-IsGrouped b groups (good b (Memᴰ.head refl)) h)

module _ (conditions : ConditionsPackage) (client : Client) (reader : Reader) where
  deletes-check_codebase_branches :
      (k : String) (bs : List CodebaseBranch) (usage : BranchUsageIndex) (b : CodebaseBranch)
      → Memᴰ b (deletes (check_codebase_branches conditions client reader k bs usage))
      → (snap : Snapshot) × (read_snapshot reader k ≡ ok snap)
        × Memᴰ b bs
        × IsDeletable snap usage b
  unfolding check_codebase_branches deletes
  deletes-check_codebase_branches k bs usage b m = elim (Result-cases (read_snapshot reader k)) [
    | inl (snap, e) ↦
        let (n, d) = deletes-check_branches conditions client snap usage bs b (rw e at m) in
        (snap, e, n, d)
    | inr (x, e) ↦ elim (rw e at m) [ ]
  ]

  deletes-check_groups :
      (usage : BranchUsageIndex) (groups : MultiMap String CodebaseBranch) (b : CodebaseBranch)
      → Memᴰ b (deletes (check_groups conditions client reader usage groups))
      → (k : String) × (bs : List CodebaseBranch) × Memᴰ (k, bs) groups
        × Memᴰ b (deletes (check_codebase_branches conditions client reader k bs usage))
  unfolding check_groups deletes
  deletes-check_groups usage [] b m = elim m [ ]
  deletes-check_groups usage ((k, bs) ∷ groups) b m =
      elim (mem-append_cases (deletes (check_codebase_branches conditions client reader k bs usage))
        _
        (subst (Memᴰ b)
          (deletes-append (check_codebase_branches conditions client reader k bs usage)
            (check_groups conditions client reader usage groups))
          m)) [
            | inl n ↦ (k, bs, Memᴰ.head refl, n)
            | inr n ↦
                let (j, cs, i, d) = deletes-check_groups usage groups b n in (j, cs, Memᴰ.tail i, d)
          ]

  -- A branch that a sweep deletes was listed, and at the sweep its codebase had the cleanup strategy
  -- on, git had the branch no more, no active deployment resource of the namespace used it, the
  -- operator had created it in git, and it was neither terminating nor the default branch.
  pub only_unused_deleted :
      (b : CodebaseBranch)
      → Memᴰ b (deletes (sweep conditions client reader))
      → (bs : List CodebaseBranch) × (snap : Snapshot) × (usage : BranchUsageIndex)
        × (reader.list_codebase_branches reader.namespace ≡ ok bs)
        × (read_snapshot reader b.spec.codebase_name ≡ ok snap)
        × (new_branch_usage_index reader.usage reader.namespace ≡ ok usage)
        × Memᴰ b bs
        × IsDeletable snap usage b
  unfolding sweep deletes IsGrouped
  only_unused_deleted b m = elim (Result-cases (reader.list_codebase_branches reader.namespace)) [
    | inr (x, e) ↦ elim (rw e at m) [ ]
    | inl (bs, e) ↦ elim (Result-cases (new_branch_usage_index reader.usage reader.namespace)) [
      | inr (x, e₁) ↦ elim (rw (e, e₁) at m) [ ]
      | inl (usage, e₁) ↦
          let (k, vs, i, d) =
            deletes-check_groups usage (group_by_codebase bs []) b (rw (e, e₁) at m) in
          let (snap, read, n, deletable) = deletes-check_codebase_branches k vs usage b d in
          let (own, listed) =
            group_by_codebase-IsGrouped (λ x. Memᴰ x bs) bs [] (λ x q. q) (λ j ws x q. elim q [ ]) k
              vs b i n in
          (
            bs,
            snap,
            usage,
            e,
            subst (λ name. read_snapshot reader name ≡ ok snap) (sym own) read,
            e₁,
            listed,
            deletable,
          )
    ]
  ]

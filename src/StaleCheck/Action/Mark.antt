-- ===== src/StaleCheck/Action/Mark.antt =====
-- `MarkAction` of stalecheck/action.go: the marks agree with the verdict, and are written once.
use edp_codebase_operator.Prelude.{
  String, List, [], ◌∷◌, ◌++◌, Bool, true, false, not, ◌&&◌, ◌||◌, Option, none, some, is_nil,
  lookup, Dict, lookup-insert_self, lookup-remove, get_or_empty, text_or_empty, ap, subst, sym,
  Bool-cases, inl, inr, ◌≡◌, ◌∙◌, refl, ◌==◌, eq_iff, arith, if◌then◌else◌,
}
use edp_codebase_operator.Effects.{ok}
use edp_codebase_operator.Api.{stale_label}
use edp_codebase_operator.Api.Codebase.{
  CodebaseBranch, Condition, ConditionStatus, condition_true, condition_false, condition_unknown,
}
use edp_codebase_operator.StaleCheck.Action.{
  Verdict, ConditionsPackage, Client, State, Request, patch_status, patch, delete, emit,
  branch_stale, stale_branch_retained, branch_stale_resolved, condition_stale, stale_condition,
  with_conditions, with_stale_label, label_up_to_date, update_status_condition, update_stale_label,
  emit_transition_event, mark,
}

abbrev pub is_true : ConditionStatus → Bool
is_true condition_true = true
is_true condition_false = false
is_true condition_unknown = false

-- What the documentation of the package says: a condition that was set is found, setting it again
-- changes nothing, and the answer says whether the conditions have changed.
pub record ConditionLaws (p : ConditionsPackage) : Type 0 where
  pub set_true :
      (cs : List Condition) (c : Condition)
      → p.is_status_condition_true (p.set_status_condition cs c).0 c.type_ ≡ is_true c.status
  pub set_again :
      (cs : List Condition) (c : Condition)
      → p.set_status_condition (p.set_status_condition cs c).0 c
        ≡ ((p.set_status_condition cs c).0, false)
  pub set_unchanged :
      (cs : List Condition) (c : Condition)
      → (p.set_status_condition cs c).1 ≡ false
      → (p.set_status_condition cs c).0 ≡ cs

-- The Stale condition and the stale label say what the verdict says.
pub record Agrees (p : ConditionsPackage) (v : Verdict) (b : CodebaseBranch) : Type 0 where
  pub condition :
      p.is_status_condition_true b.status.conditions condition_stale ≡ not v.exists_in_git
  pub label : lookup stale_label b.labels ≡ (if v.exists_in_git then none else some "true")
  pub settled :
      p.set_status_condition b.status.conditions (stale_condition b v)
      ≡ (b.status.conditions, false)

settled_label :
    (exists_ : Bool) (o : Option String)
    → ((exists_ && is_nil o) || (not exists_ && text_or_empty o == "true")) ≡ true
    → o ≡ (if exists_ then none else some "true")
settled_label true none h = refl
settled_label true (some t) h = cc
settled_label false none h = cc
settled_label false (some t) h = ap some ((eq_iff t "true").0 h)

label_settles :
    (exists_ : Bool) (o : Option String)
    → o ≡ (if exists_ then none else some "true")
    → ((exists_ && is_nil o) || (not exists_ && text_or_empty o == "true")) ≡ true
label_settles true none h = refl
label_settles true (some t) h = cc
label_settles false none h = cc
label_settles false (some t) h = (eq_iff t "true").1 (cc h)

up_to_date-label :
    (b : CodebaseBranch) (v : Verdict)
    → label_up_to_date b v ≡ true
    → lookup stale_label b.labels ≡ (if v.exists_in_git then none else some "true")
unfolding label_up_to_date get_or_empty
up_to_date-label b v h = settled_label v.exists_in_git (lookup stale_label b.labels) h

label-with_stale_label :
    (exists_ : Bool) (b : CodebaseBranch)
    → lookup stale_label (with_stale_label exists_ b).labels
      ≡ (if exists_ then none else some "true")
unfolding with_stale_label
label-with_stale_label true b = rw lookup-remove refl
label-with_stale_label false b = lookup-insert_self stale_label "true" b.labels

abbrev with_held_conditions : List Condition → CodebaseBranch → CodebaseBranch
with_held_conditions cs b = record b { status = record (b.status) { conditions = cs } }

abbrev with_labels : Dict String → CodebaseBranch → CodebaseBranch
with_labels labels b = record b { meta = record (b.meta) { labels = labels } }

-- The branch that the API server holds after patches that it has taken: a patch of the status brings the
-- conditions, and a patch of the object brings the labels.
unfoldable pub held : List Request → CodebaseBranch → CodebaseBranch
held [] b = b
held (patch_status p ∷ qs) b = held qs (with_held_conditions p.status.conditions b)
held (patch p ∷ qs) b = held qs (with_labels p.meta.labels b)
held (q ∷ qs) b = held qs b

held-append :
    (qs : List Request) (q : Request) (b : CodebaseBranch)
    → held (qs ++ q ∷ []) b ≡ held (q ∷ []) (held qs b)
unfolding held
held-append [] q b = refl
held-append (patch_status p ∷ qs) q b = held-append qs q _
held-append (patch p ∷ qs) q b = held-append qs q _
held-append (delete p ∷ qs) q b = held-append qs q b
held-append (emit event p ∷ qs) q b = held-append qs q b

module _ (conditions : ConditionsPackage) (client : Client) where
  emit-branch :
      (was_stale : Bool) (v : Verdict) (s : State)
      → (emit_transition_event conditions client was_stale v s).1.branch ≡ s.branch
  unfolding emit_transition_event
  emit-branch was_stale v s = ground arith

  -- The branch after the condition is set.
  abbrev conditioned : Verdict → CodebaseBranch → CodebaseBranch
  conditioned v b =
      with_conditions (conditions.set_status_condition b.status.conditions (stale_condition b v)).0
        b

  status-branch :
      (v : Verdict) (s : State)
      → (update_status_condition conditions client v s).1.branch ≡ conditioned v s.branch
  unfolding update_status_condition
  status-branch v s = ground arith

  label-branch :
      (v : Verdict) (s : State)
      → (update_stale_label conditions client v s).1.branch ≡ (
          if label_up_to_date s.branch v
          then s.branch
          else with_stale_label v.exists_in_git s.branch)
  unfolding update_stale_label
  label-branch v s = ground arith

  -- The branch after marking, where no patch is refused.
  abbrev marked : Verdict → CodebaseBranch → CodebaseBranch
  marked v b =
      if label_up_to_date (conditioned v b) v
      then conditioned v b
      else with_stale_label v.exists_in_git (conditioned v b)

  mark-branch :
      (v : Verdict) (s : State)
      → (mark conditions client v s).0 ≡ ok tt
      → (mark conditions client v s).1.branch ≡ marked v s.branch
  unfolding mark
  mark-branch v s h =
      let s₁ = (update_status_condition conditions client v s).1 in
      let s₂ = (update_stale_label conditions client v s₁).1 in
      let was = conditions.is_status_condition_true s.branch.status.conditions condition_stale in
      ground (arith, status-branch v s, label-branch v s₁, emit-branch was v s₂)

module _ (conditions : ConditionsPackage) (laws : ConditionLaws conditions) (client : Client) where
  conditioned-Agrees :
      (v : Verdict) (b : CodebaseBranch)
      → let b' = marked conditions client v b in
        (conditions.is_status_condition_true b'.status.conditions condition_stale
          ≡ not v.exists_in_git)
        × (conditions.set_status_condition b'.status.conditions (stale_condition b' v)
            ≡ (b'.status.conditions, false))
  unfolding with_conditions with_stale_label stale_condition
  conditioned-Agrees v b = ground (
    arith,
    laws.set_true b.status.conditions (stale_condition b v),
    laws.set_again b.status.conditions (stale_condition b v),
  )

  marked-label :
      (v : Verdict) (b : CodebaseBranch)
      → lookup stale_label (marked conditions client v b).labels
        ≡ (if v.exists_in_git then none else some "true")
  marked-label v b =
      let b' = conditioned conditions client v b in
      elim (Bool-cases (label_up_to_date b' v)) [
        | inl e ↦ rw (e, if◌then◌else◌) (up_to_date-label b' v e)
        | inr e ↦ rw (e, if◌then◌else◌) (label-with_stale_label v.exists_in_git b')
      ]

  status-held :
      (v : Verdict) (b : CodebaseBranch) (s : State)
      → held s.sent b ≡ s.branch
      → let after = (update_status_condition conditions client v s).1 in
        held after.sent b ≡ after.branch
  unfolding update_status_condition with_conditions held
  status-held v b s k =
      let set =
        conditions.set_status_condition s.branch.status.conditions (stale_condition s.branch v) in
      elim (Bool-cases set.1) [
        | inl e ↦ rw e (held-append s.sent _ b ∙ ap (λ x. with_conditions set.0 x) k)
        | inr e ↦
            rw (e, laws.set_unchanged s.branch.status.conditions (stale_condition s.branch v) e) k
      ]

  label-held :
      (v : Verdict) (b : CodebaseBranch) (s : State)
      → held s.sent b ≡ s.branch
      → let after = (update_stale_label conditions client v s).1 in held after.sent b ≡ after.branch
  unfolding update_stale_label with_stale_label held
  label-held v b s k = elim (Bool-cases (label_up_to_date s.branch v)) [
    | inl e ↦ rw e k
    | inr e ↦ rw e (
        held-append s.sent _ b
        ∙ ap (with_labels (with_stale_label v.exists_in_git s.branch).labels) k)
  ]

  emit-held :
      (was_stale : Bool) (v : Verdict) (b : CodebaseBranch) (s : State)
      → held (emit_transition_event conditions client was_stale v s).1.sent b ≡ held s.sent b
  unfolding emit_transition_event held
  emit-held was_stale v b s = ground (
    arith,
    held-append s.sent (emit branch_stale s.branch) b,
    held-append s.sent (emit stale_branch_retained s.branch) b,
    held-append s.sent (emit branch_stale_resolved s.branch) b,
  )

  agreed :
      (v : Verdict) (s : State)
      → (mark conditions client v s).0 ≡ ok tt
      → Agrees conditions v (mark conditions client v s).1.branch
  agreed v s h =
      let (condition, settled) = conditioned-Agrees v s.branch in
      subst (Agrees conditions v) (sym (mark-branch conditions client v s h))
        (record { condition = condition; label = marked-label v s.branch; settled = settled })

  mark-held :
      (v : Verdict) (b : CodebaseBranch)
      → let s : State = record { branch = b; sent = [] } in
        (mark conditions client v s).0 ≡ ok tt
        → held (mark conditions client v s).1.sent b ≡ (mark conditions client v s).1.branch
  unfolding mark held
  mark-held v b h =
      let s : State = record { branch = b; sent = [] } in
      let s₁ = (update_status_condition conditions client v s).1 in
      let s₂ = (update_stale_label conditions client v s₁).1 in
      let was = conditions.is_status_condition_true b.status.conditions condition_stale in
      let kept : held s₂.sent b ≡ s₂.branch = label-held v b s₁ (status-held v b s refl) in
      ground (arith, kept, emit-held was v b s₂, emit-branch conditions client was v s₂)

  -- Where marking a branch succeeds, the patches that were sent bring the branch that the API server
  -- held to the one in memory, and its condition and label agree with the verdict.
  pub mark-Agrees :
      (v : Verdict) (b : CodebaseBranch)
      → let (r, after) = mark conditions client v (record { branch = b; sent = [] }) in
        r ≡ ok tt → (held after.sent b ≡ after.branch) × Agrees conditions v (held after.sent b)
  mark-Agrees v b h =
      let kept = mark-held v b h in
      (kept, subst (Agrees conditions v) (sym kept) (agreed v (record { branch = b; sent = [] }) h))

  status_settled :
      (v : Verdict) (s : State)
      → Agrees conditions v s.branch
      → update_status_condition conditions client v s ≡ (ok tt, s)
  unfolding update_status_condition with_conditions
  status_settled v s a = rw a.settled refl

  label_settled :
      (v : Verdict) (s : State)
      → Agrees conditions v s.branch
      → update_stale_label conditions client v s ≡ (ok tt, s)
  unfolding update_stale_label label_up_to_date get_or_empty
  label_settled v s a =
      rw (label_settles v.exists_in_git (lookup stale_label s.branch.labels) a.label) refl

  event_settled :
      (v : Verdict) (s : State)
      → emit_transition_event conditions client (not v.exists_in_git) v s ≡ (ok tt, s)
  unfolding emit_transition_event
  event_settled v s = ground arith

  -- On a branch that agrees with the verdict, marking succeeds, changes nothing and sends nothing:
  -- no patch and no event.
  pub mark_settled :
      (v : Verdict) (s : State)
      → Agrees conditions v s.branch
      → mark conditions client v s ≡ (ok tt, s)
  unfolding mark
  mark_settled v s a =
      rw (a.condition, status_settled v s a, label_settled v s a, event_settled v s) refl

-- ===== src/DeploymentUsage/Branches/Index.antt =====
-- The index of pkg/codebasebranch/usage.go answers as a scan of the resources would.
use mathlib.Core.List.{append-nil, append_assoc}
use mathlib.Core.Path.{ap₂}
use edp_codebase_operator.Prelude.{
  String, List, [], ◌∷◌, ◌++◌, Bool, ◌&&◌, not, contains, select, map, is_empty, string_key,
  MultiMap, values_at, append_at, values_at-append_at, Bool-cases, ◌≡◌, refl, ap, sym, ◌∙◌, arith,
  ◌==◌, eq_iff, inl, inr, if◌then◌else◌,
}
use edp_codebase_operator.Effects.{ok}
use edp_codebase_operator.Api.Codebase.{CodebaseBranch}
use edp_codebase_operator.PipelineApi.{CdPipeline}
use edp_codebase_operator.DeploymentUsage.{
  UsageClient, Reference, AutotestGate, list_active_cd_pipelines, find_autotest_gates,
}
use edp_codebase_operator.DeploymentUsage.Branches.{
  GateKey, gate_key, stream_reference, add_streams, add_pipelines, add_gates,
  new_branch_usage_index, find, branch_key, find_branch_usage,
}

-- A pipeline that lists a stream once or more adds one reference to it.
values_at-add_streams :
    (n : String) (ref : Reference) (seen ss : List String) (m : MultiMap String Reference)
    → values_at n (add_streams ref seen ss m) ≡ (
        if contains ss n && not (contains seen n) then values_at n m ++ ref ∷ [] else values_at n m)
unfolding add_streams contains
values_at-add_streams n ref seen [] m = refl
values_at-add_streams n ref seen (s ∷ ss) m = elim (Bool-cases (contains seen s)) [
  | inl dup ↦
      rw (dup, if◌then◌else◌)
        (ground (arith, dup, values_at-add_streams n ref seen ss m, eq_iff s n))
  | inr fresh ↦
      rw (fresh, if◌then◌else◌)
        (ground (
          arith,
          values_at-add_streams n ref (s ∷ seen) ss (append_at s ref m),
          values_at-append_at s n ref m,
          eq_iff s n,
          fresh,
        ))
]

abbrev lists : String → CdPipeline → Bool
lists n p = contains p.spec.input_docker_streams n

values_at-add_pipeline :
    (n : String) (p : CdPipeline) (m : MultiMap String Reference)
    → values_at n (add_streams (stream_reference p) [] p.spec.input_docker_streams m)
      ≡ (if lists n p then values_at n m ++ stream_reference p ∷ [] else values_at n m)
unfolding contains
values_at-add_pipeline n p m =
    ground (arith, values_at-add_streams n (stream_reference p) [] p.spec.input_docker_streams m)

values_at-add_pipelines :
    (n : String) (ps : List CdPipeline) (m : MultiMap String Reference)
    → values_at n (add_pipelines ps m) ≡ values_at n m ++ map stream_reference (select ps (lists n))
unfolding add_pipelines select
values_at-add_pipelines n [] m = sym (append-nil _)
values_at-add_pipelines n (p ∷ ps) m = elim (Bool-cases (lists n p)) [
  | inl e ↦
      rw (values_at-add_pipelines n ps, values_at-add_pipeline n p m, e, if◌then◌else◌)
        (append_assoc (values_at n m) (stream_reference p ∷ [])
          (map stream_reference (select ps (lists n))))
  | inr e ↦ rw (values_at-add_pipelines n ps, values_at-add_pipeline n p m, e, if◌then◌else◌) refl
]

abbrev runs : CodebaseBranch → AutotestGate → Bool
runs b g = g.autotest_name == b.spec.codebase_name && g.branch_name == b.spec.branch_name

values_at-add_gates :
    (b : CodebaseBranch) (gs : List AutotestGate) (m : MultiMap GateKey Reference)
    → values_at (branch_key b) (add_gates gs m)
      ≡ values_at (branch_key b) m ++ map (λ g. g.reference) (select gs (runs b))
unfolding add_gates select
values_at-add_gates b [] m = sym (append-nil _)
values_at-add_gates b (g ∷ gs) m =
    let key : GateKey = record { codebase_name = g.autotest_name; branch_name = g.branch_name } in
    elim (Bool-cases (runs b g)) [
      | inl e ↦
          rw
            (
              values_at-add_gates b gs,
              values_at-append_at key (branch_key b) g.reference m,
              e,
              if◌then◌else◌,
            )
            (append_assoc (values_at (branch_key b) m) (g.reference ∷ [])
              (map (λ x. x.reference) (select gs (runs b))))
      | inr e ↦
          rw
            (
              values_at-add_gates b gs,
              values_at-append_at key (branch_key b) g.reference m,
              e,
              if◌then◌else◌,
            )
            refl
    ]

-- The references that a scan of the pipelines and of the gates finds for a branch, in their order.
pub scan : List CdPipeline → List AutotestGate → CodebaseBranch → List Reference
scan pipelines gates branch =
    map stream_reference (select pipelines (lists branch.name))
    ++ map (λ g. g.reference) (select gates (runs branch))

append-or_nil :
    (xs ys : List Reference) → (if is_empty xs && is_empty ys then [] else xs ++ ys) ≡ xs ++ ys
append-or_nil [] [] = refl
append-or_nil [] (y ∷ ys) = refl
append-or_nil (x ∷ xs) ys = refl

find-scan :
    (pipelines : List CdPipeline) (gates : List AutotestGate) (branch : CodebaseBranch)
    → find
        (record { by_stream_name = add_pipelines pipelines []; by_autotest = add_gates gates [] })
        branch
      ≡ scan pipelines gates branch
unfolding find scan values_at
find-scan pipelines gates branch =
    append-or_nil (values_at branch.name (add_pipelines pipelines []))
      (values_at (branch_key branch) (add_gates gates []))
    ∙ ap₂ ◌++◌ (values_at-add_pipelines branch.name pipelines [])
        (values_at-add_gates branch gates [])

-- The usage that the index answers for a branch is the one that a scan of the active pipelines and of
-- the autotest gates finds: the same references in the same order, with one reference for a pipeline
-- however often it lists the stream of the branch, and one for each gate.
pub find_branch_usage-scan :
    (client : UsageClient) (branch : CodebaseBranch) (pipelines : List CdPipeline)
    (gates : List AutotestGate)
    → list_active_cd_pipelines client branch.namespace ≡ ok pipelines
    → find_autotest_gates client branch.namespace ≡ ok gates
    → find_branch_usage client branch ≡ ok (scan pipelines gates branch)
unfolding find_branch_usage new_branch_usage_index
find_branch_usage-scan client branch pipelines gates ps gs =
    rw (ps, gs) (ap ok (find-scan pipelines gates branch))

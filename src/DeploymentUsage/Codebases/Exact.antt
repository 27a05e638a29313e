-- ===== src/DeploymentUsage/Codebases/Exact.antt =====
-- When pkg/codebase/usage.go finds no usage of a codebase.
use edp_codebase_operator.Prelude.{
  String, List, [], ◌∷◌, ◌++◌, false, none, Memᴰ, contains, map, select, mem-cons_cases,
  contains_of_mem, ne_of_eq_false, Bool-cases, ◌≡◌, refl, ◌≢◌, inl, inr, ◌==◌, arith, if◌then◌else◌,
}
use edp_codebase_operator.Effects.{ok, and_then-ok}
use edp_codebase_operator.Api.Codebase.{Codebase}
use edp_codebase_operator.PipelineApi.{CdPipeline}
use edp_codebase_operator.DeploymentUsage.{
  UsageClient, Reference, AutotestGate, list_active_cd_pipelines, find_autotest_gates,
}
use edp_codebase_operator.DeploymentUsage.Codebases.{
  match_streams, match_pipeline, list_branch_names, pipeline_refs, find_codebase_usage,
}

-- A pipeline uses a codebase: it lists it, promotes it, or takes one of its branches as input.
pub data Uses (name : String) (branch_names : List String) (p : CdPipeline) : Type 0 where
  application : Memᴰ name p.spec.applications → Uses name branch_names p
  promoted : Memᴰ name p.spec.applications_to_promote → Uses name branch_names p
  input :
      (s : String)
      → Memᴰ s p.spec.input_docker_streams
      → Memᴰ s branch_names
      → Uses name branch_names p

match_streams-none :
    (streams branch_names : List String) (s : String)
    → match_streams streams branch_names ≡ none
    → Memᴰ s streams
    → contains branch_names s ≡ false
unfolding match_streams
match_streams-none [] branch_names s h m = elim m [ ]
match_streams-none (x ∷ streams) branch_names s h m = elim (mem-cons_cases m) [
  | inl e ↦ rw e (ground arith)
  | inr n ↦ match_streams-none streams branch_names s (ground arith) n
]

match_pipeline-none :
    (p : CdPipeline) (name : String) (branch_names : List String)
    → match_pipeline p name branch_names ≡ none
    → ¬ Uses name branch_names p
unfolding match_pipeline
match_pipeline-none p name branch_names h (application m) =
    ground (arith, contains_of_mem p.spec.applications name m)
match_pipeline-none p name branch_names h (promoted m) =
    ground (arith, contains_of_mem p.spec.applications_to_promote name m)
match_pipeline-none p name branch_names h (input s m n) = cc (
  contains_of_mem branch_names s n,
  match_streams-none p.spec.input_docker_streams branch_names s (ground arith) m,
)

pipeline_refs-nil :
    (name : String) (branch_names : List String) (ps : List CdPipeline) (p : CdPipeline)
    → pipeline_refs name branch_names ps ≡ []
    → Memᴰ p ps
    → ¬ Uses name branch_names p
unfolding pipeline_refs
pipeline_refs-nil name branch_names [] p h m = elim m [ ]
pipeline_refs-nil name branch_names (q ∷ ps) p h m = elim (mem-cons_cases m) [
  | inl e ↦ rw e (match_pipeline-none q name branch_names (ground arith))
  | inr n ↦ pipeline_refs-nil name branch_names ps p (ground arith) n
]

append-eq-nil : (xs ys : List Reference) → xs ++ ys ≡ [] → (xs ≡ []) × (ys ≡ [])
append-eq-nil [] ys h = (refl, h)
append-eq-nil (x ∷ xs) ys h = cc

gate_refs-nil :
    (name : String) (gs : List AutotestGate) (g : AutotestGate)
    → map (λ x. x.reference) (select gs (λ x. x.autotest_name == name)) ≡ []
    → Memᴰ g gs
    → g.autotest_name ≢ name
unfolding select
gate_refs-nil name [] g h m = elim m [ ]
gate_refs-nil name (x ∷ gs) g h m = elim (Bool-cases (x.autotest_name == name)) [
  | inl e ↦ cc (rw (e, if◌then◌else◌) at h)
  | inr e ↦ elim (mem-cons_cases m) [
    | inl q ↦ rw q (ne_of_eq_false x.autotest_name name e)
    | inr n ↦ gate_refs-nil name gs g (rw (e, if◌then◌else◌) at h) n
  ]
]

-- Where no usage of a codebase is found, no active pipeline uses it and no autotest gate runs it.
pub unused-codebase :
    (client : UsageClient) (codebase : Codebase)
    → find_codebase_usage client codebase ≡ ok []
    → (pipelines : List CdPipeline) × (branch_names : List String) × (gates : List AutotestGate)
      × (list_active_cd_pipelines client codebase.namespace ≡ ok pipelines)
      × (list_branch_names client codebase ≡ ok branch_names)
      × (find_autotest_gates client codebase.namespace ≡ ok gates)
      × ((p : CdPipeline) → Memᴰ p pipelines → ¬ Uses codebase.name branch_names p)
      × ((g : AutotestGate) → Memᴰ g gates → g.autotest_name ≢ codebase.name)
unfolding find_codebase_usage
unused-codebase client codebase h =
    let (pipelines, ps, h₁) =
      and_then-ok (list_active_cd_pipelines client codebase.namespace) _ h in
    let (names, ns, h₂) = and_then-ok (list_branch_names client codebase) _ h₁ in
    let (gates, gs, h₃) = and_then-ok (find_autotest_gates client codebase.namespace) _ h₂ in
    let (none_p, none_g) =
      append-eq-nil (pipeline_refs codebase.name names pipelines)
        (map (λ (x : AutotestGate). x.reference)
          (select gates (λ (x : AutotestGate). x.autotest_name == codebase.name)))
        (cc h₃) in
    (
      pipelines,
      names,
      gates,
      ps,
      ns,
      gs,
      λ p m. pipeline_refs-nil codebase.name names pipelines p none_p m,
      λ g m. gate_refs-nil codebase.name gates g none_g m,
    )

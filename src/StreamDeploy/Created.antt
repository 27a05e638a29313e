-- ===== src/StreamDeploy/Created.antt =====
-- controllers/codebaseimagestream/chain: which CDStageDeploys an image stream creates.
use edp_codebase_operator.Prelude.{
  ℕ, String, List, [], ◌∷◌, false, Option, some, Memᴰ, mem-cons_cases, mem-append_cases, Bool-cases,
  Option-cases, ◌≡◌, sym, ◌⊎◌, inl, inr, ◌==◌, eq_iff, is_empty, ap, refl, length, ◌≤◌, ◌≢◌, arith,
}
use edp_codebase_operator.Effects.{ok, Result-cases, for_each}
use edp_codebase_operator.Api.{
  Tag, CdStageDeploy, CodebaseImageStream, CodebaseImageStreamSpec, dashed,
}
use edp_codebase_operator.PipelineApi.{Stage, PipelinePackage}
use edp_codebase_operator.ImageStream.{get_last_tag}
use edp_codebase_operator.ImageStream.LastTag.{IsNewest, get_last_tag-IsNewest}
use edp_codebase_operator.StreamDeploy.{
  StreamClient, DeployCommand, Created, stage_deploy_of, get_create_command,
  skip_cd_stage_deploy_creation, create, create_unless_skipped, put_cd_stage_deploy, put_label,
  handle_env_labels, validate_cbis, serve_image_stream,
}
use edp_codebase_operator.StreamDeploy.Labels.{env_of, replace_slashes}

module _ (package_ : PipelinePackage) (parse_time : String → Option ℕ) (client : StreamClient) where
  -- The command that a label makes of the newest tag.
  abbrev pub command_of :
      (label pipeline stage namespace : String)
      → CodebaseImageStreamSpec
      → Stage
      → Tag
      → DeployCommand
  command_of label pipeline stage namespace spec stage_cr last = record {
    name = replace_slashes label;
    namespace = namespace;
    pipeline = pipeline;
    stage = stage;
    trigger_type = stage_cr.spec.trigger_type;
    tag = record { codebase = spec.codebase; tag = last.name; digest = last.digest };
  }

  -- The stage does not limit its deployments, or at most one was listed for it.
  abbrev pub MayTakeOne : (pipeline namespace : String) → Stage → Type 0
  MayTakeOne pipeline namespace stage_cr =
      (package_.is_auto_deploy_trigger_type stage_cr ≡ false)
      ⊎ ((deploys : List CdStageDeploy) × (client.list_cd_stage_deploys namespace pipeline
              stage_cr.name
            ≡ ok deploys)
          × (length deploys ≤ 1))

  unskipped-MayTakeOne :
      (pipeline namespace : String) (stage_cr : Stage)
      → skip_cd_stage_deploy_creation package_ parse_time client pipeline namespace stage_cr
        ≡ ok false
      → MayTakeOne pipeline namespace stage_cr
  unfolding skip_cd_stage_deploy_creation
  unskipped-MayTakeOne pipeline namespace stage_cr h =
      elim (Bool-cases (package_.is_auto_deploy_trigger_type stage_cr)) [
        | inr free ↦ inl free
        | inl limited ↦
            elim (Result-cases (client.list_cd_stage_deploys namespace pipeline stage_cr.name)) [
              | inl (deploys, e) ↦ inr (deploys, e, ground arith)
              | inr (x, e) ↦ absurd (ground arith)
            ]
      ]

  -- The deployment is the one that a label asks for: the label names an existing stage that may take
  -- one more, and the deployment carries the newest tag and belongs to the stage.
  pub record IsRequested (label namespace : String) (spec : CodebaseImageStreamSpec)
      (d : CdStageDeploy) : Type 0 where
    pub pipeline : String
    pub stage : String
    pub env : env_of label ≡ some (pipeline, stage)
    pub stage_cr : Stage
    pub found : client.get_stage namespace (dashed pipeline stage) ≡ ok stage_cr
    pub allowed : MayTakeOne pipeline namespace stage_cr
    pub last : Tag
    pub named : last.name ≢ ""
    pub newest : IsNewest parse_time last spec.tags
    pub object : CdStageDeploy
    pub object_namespace : object.namespace ≡ namespace
    pub object_pipeline : object.spec.pipeline ≡ pipeline
    pub object_stage : object.spec.stage ≡ stage
    pub object_tag :
        object.spec.tag ≡ record { codebase = spec.codebase; tag = last.name; digest = last.digest }
    pub object_tags :
        object.spec.tags
        ≡ record { codebase = spec.codebase; tag = last.name; digest = last.digest } ∷ []
    pub object_labels :
        object.labels
        ≡ ("app.edp.epam.com/cdpipeline", pipeline)
          ∷ ("app.edp.epam.com/cdstage", dashed pipeline stage)
          ∷ []
    pub owned : client.set_controller_reference stage_cr object ≡ ok d

  create-sent :
      (command : DeployCommand) (stage : Stage) (sent : Created) (d : CdStageDeploy)
      → Memᴰ d (create package_ parse_time client command stage sent).1
      → Memᴰ d sent ⊎ (client.set_controller_reference stage (stage_deploy_of command) ≡ ok d)
  unfolding create
  create-sent command stage sent d m =
      elim (Result-cases (client.set_controller_reference stage (stage_deploy_of command))) [
        | inr (x, e) ↦ inl (rw e at m)
        | inl (d', e) ↦ elim (mem-append_cases sent (d' ∷ []) (rw e at m)) [
          | inl n ↦ inl n
          | inr n ↦ elim (mem-cons_cases n) [ inl q ↦ inr (rw q e) | inr q ↦ elim q [ ] ]
        ]
      ]

  module _ (label pipeline stage namespace : String) (spec : CodebaseImageStreamSpec) where
    unless_skipped-sent :
        (stage_cr : Stage) (sent : Created) (d : CdStageDeploy)
        → env_of label ≡ some (pipeline, stage)
        → client.get_stage namespace (dashed pipeline stage) ≡ ok stage_cr
        → Memᴰ d
            (create_unless_skipped package_ parse_time client
              (replace_slashes label)
              pipeline
              stage
              namespace
              spec
              stage_cr
              sent).1
        → Memᴰ d sent ⊎ IsRequested label namespace spec d
    unfolding create_unless_skipped get_create_command stage_deploy_of
    unless_skipped-sent stage_cr sent d env found m =
        elim (Result-cases
          (skip_cd_stage_deploy_creation package_ parse_time client pipeline namespace stage_cr)) [
            | inr (x, e) ↦ inl (rw e at m)
            | inl (skip, e) ↦ elim (Bool-cases skip) [
              | inl t ↦ inl (rw (e, t) at m)
              | inr f ↦ elim (Result-cases (get_last_tag parse_time spec.tags)) [
                | inr (x, n) ↦ inl (rw (e, f, n) at m)
                | inl (last, n) ↦
                    elim (create-sent (command_of label pipeline stage namespace spec stage_cr last)
                      stage_cr sent d (rw (e, f, n) at m)) [
                        | inl k ↦ inl k
                        | inr owned ↦ inr (record {
                          pipeline = pipeline;
                          stage = stage;
                          env = env;
                          stage_cr = stage_cr;
                          found = found;
                          allowed = unskipped-MayTakeOne pipeline namespace stage_cr (rw f at e);
                          last = last;
                          named = (get_last_tag-IsNewest parse_time spec.tags last n).0;
                          newest = (get_last_tag-IsNewest parse_time spec.tags last n).2;
                          object =
                              stage_deploy_of
                                (command_of label pipeline stage namespace spec stage_cr last);
                          object_namespace = refl;
                          object_pipeline = refl;
                          object_stage = refl;
                          object_tag = refl;
                          object_tags = refl;
                          object_labels = refl;
                          owned = owned;
                        })
                      ]
              ]
            ]
          ]

    put-sent :
        (sent : Created) (d : CdStageDeploy)
        → env_of label ≡ some (pipeline, stage)
        → Memᴰ d
            (put_cd_stage_deploy package_ parse_time client label
              (pipeline, stage)
              namespace
              spec
              sent).1
        → Memᴰ d sent ⊎ IsRequested label namespace spec d
    unfolding put_cd_stage_deploy
    put-sent sent d env m =
        elim (Result-cases (client.get_stage namespace (dashed pipeline stage))) [
          | inr (x, e) ↦ inl (rw e at m)
          | inl (stage_cr, e) ↦ unless_skipped-sent stage_cr sent d env e (rw e at m)
        ]

  put_label-sent :
      (namespace : String) (spec : CodebaseImageStreamSpec) (label value : String) (sent : Created)
      (d : CdStageDeploy)
      → Memᴰ d (put_label package_ parse_time client namespace spec (label, value) sent).1
      → Memᴰ d sent ⊎ ((value ≡ "") × IsRequested label namespace spec d)
  unfolding put_label
  put_label-sent namespace spec label value sent d m = elim (Bool-cases (value == "")) [
    | inr e ↦ inl (rw e at m)
    | inl e ↦ elim (Option-cases (env_of label)) [
      | inl n ↦ inl (rw (e, n) at m)
      | inr (env, n) ↦
          elim (put-sent label (env.0) (env.1) namespace spec sent d n (rw (e, n) at m)) [
            | inl k ↦ inl k
            | inr r ↦ inr ((eq_iff value "").0 e, r)
          ]
    ]
  ]

  labels-sent :
      (namespace : String) (spec : CodebaseImageStreamSpec) (labels : List (String × String))
      (sent : Created) (d : CdStageDeploy)
      → Memᴰ d (for_each labels (put_label package_ parse_time client namespace spec) sent).1
      → Memᴰ d sent
        ⊎ ((label : String) × Memᴰ (label, "") labels × IsRequested label namespace spec d)
  unfolding for_each
  labels-sent namespace spec [] sent d m = inl m
  labels-sent namespace spec ((label, value) ∷ labels) sent d m =
      let step = put_label package_ parse_time client namespace spec (label, value) sent in
      let here : Memᴰ d step.1
          → Memᴰ d sent
            ⊎ ((l : String) × Memᴰ (l, "") ((label, value) ∷ labels)
                × IsRequested l namespace spec d) =
        λ k. elim (put_label-sent namespace spec label value sent d k) [
          | inl n ↦ inl n
          | inr (empty, r) ↦ inr (label, Memᴰ.head (ap (λ v. (label, v)) (sym empty)), r)
        ] in
      elim (Result-cases (step.0)) [
        | inr (x, e) ↦ here (rw e at m)
        | inl (u, e) ↦ elim (labels-sent namespace spec labels (step.1) d (rw e at m)) [
          | inl k ↦ here k
          | inr (l, listed, r) ↦ inr (l, Memᴰ.tail listed, r)
        ]
      ]

  -- A deployment that an image stream creates is asked for by one of its labels, whose value is empty:
  -- the label names a pipeline and a stage that exists, the stage does not limit its deployments or has at
  -- most one listed, and what is created carries the newest tag of the stream, as its tag and as its only
  -- one, the names and labels of the pipeline and the stage, and the stage as its owner.
  pub created_on_request :
      (cis : CodebaseImageStream) (d : CdStageDeploy)
      → Memᴰ d (serve_image_stream package_ parse_time client cis []).1
      → (label : String) × Memᴰ (label, "") cis.labels × IsRequested label cis.namespace cis.spec d
  unfolding serve_image_stream handle_env_labels
  created_on_request cis d m = elim (Bool-cases (is_empty cis.labels)) [
    | inl e ↦ elim (rw e at m) [ ]
    | inr e ↦ elim (Bool-cases (is_empty (validate_cbis cis.spec))) [
      | inr f ↦ elim (rw (e, f) at m) [ ]
      | inl t ↦ elim (labels-sent cis.namespace cis.spec cis.labels [] d (rw (e, t) at m)) [
        | inl k ↦ elim k [ ]
        | inr r ↦ r
      ]
    ]
  ]

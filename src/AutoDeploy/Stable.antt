-- ===== src/AutoDeploy/Stable.antt =====
-- The payload of the "stable" strategy: what the later steps keep of the earlier ones.
use Prim.Native.String.{◌++◌}
use edp_codebase_operator.Prelude.{
  ℕ, String, List, [], ◌∷◌, false, Option, none, some, Memᴰ, mem-cons_cases, Bool-cases, lookup,
  insert, lookup-insert, lookup-insert_self, subst, ◌∙◌, Dict, ◌≡◌, refl, sym, ◌≢◌, ◌⊎◌, inl, inr,
  ◌==◌, eq_iff, arith, if◌then◌else◌,
}
use edp_codebase_operator.Effects.{Result, ok, Result-cases}
use edp_codebase_operator.Api.{Tag, CodebaseTag, CodebaseImageStream}
use edp_codebase_operator.PipelineApi.{CdPipeline, Stage}
use edp_codebase_operator.CdStageDeploy.Cluster.{ApplicationPayload, AppPayload}
use edp_codebase_operator.AutoDeploy.{
  stream_tag, payload_of, fill, remaining, annotated, stable_apps,
  get_app_payload_for_current_with_stable_strategy,
}

-- The payload deploys the codebase with the tag, and with the digest unless that is empty.
pub record Pins (codebase tag digest : String) (payload : AppPayload) : Type 0 where
  pub app : ApplicationPayload
  pub found : lookup codebase payload ≡ some app
  pub tag_eq : app.image_tag ≡ tag
  pub digest_eq : digest ≢ "" → app.image_digest ≡ digest

fill-other :
    (codebase : String) (payload : AppPayload) (cbis : CodebaseImageStream) (t : Tag)
    (existing : Option ApplicationPayload)
    → (cbis.spec.codebase == codebase) ≡ false
    → lookup codebase (fill cbis t payload existing) ≡ lookup codebase payload
fill-other codebase payload cbis t none h =
    ground (arith, lookup-insert cbis.spec.codebase codebase (payload_of t) payload)
fill-other codebase payload cbis t (some e) h = elim (Bool-cases (e.image_digest == "")) [
  | inl empty ↦ rw (empty, if◌then◌else◌, lookup-insert, h)
  | inr full ↦ rw (full, if◌then◌else◌)
]

Pins-fill_self :
    (tag digest : String) (payload : AppPayload) (cbis : CodebaseImageStream) (t : Tag)
    (p : Pins cbis.spec.codebase tag digest payload)
    → Pins cbis.spec.codebase tag digest (fill cbis t payload (some p.app))
Pins-fill_self tag digest payload cbis t p = elim (Bool-cases (p.app.image_digest == "")) [
  | inl empty ↦
      let none_pinned : digest ≢ "" → ⊥ =
        λ h. h (sym (p.digest_eq h) ∙ (eq_iff p.app.image_digest "").0 empty) in
      rw (empty, if◌then◌else◌)
        (record {
          app = _;
          found = lookup-insert_self cbis.spec.codebase _ payload;
          tag_eq = p.tag_eq;
          digest_eq = λ h. absurd (none_pinned h);
        })
  | inr full ↦ rw (full, if◌then◌else◌) p
]

Pins-fill :
    (codebase tag digest : String) (payload : AppPayload) (cbis : CodebaseImageStream) (t : Tag)
    → Pins codebase tag digest payload
    → Pins codebase tag digest (fill cbis t payload (lookup cbis.spec.codebase payload))
Pins-fill codebase tag digest payload cbis t p =
    elim (Bool-cases (cbis.spec.codebase == codebase)) [
      | inl same ↦ at_key (sym ((eq_iff cbis.spec.codebase codebase).0 same)) p
      | inr other ↦ record {
        app = p.app;
        found =
            fill-other codebase payload cbis t (lookup cbis.spec.codebase payload) other ∙ p.found;
        tag_eq = p.tag_eq;
        digest_eq = p.digest_eq;
      }
    ]
  where
    at_key :
        codebase ≡ cbis.spec.codebase
        → Pins codebase tag digest payload
        → Pins codebase tag digest (fill cbis t payload (lookup cbis.spec.codebase payload))
    at_key e q =
        subst
          (λ (k : String).
            Pins k tag digest payload
            → Pins k tag digest (fill cbis t payload (lookup cbis.spec.codebase payload)))
          (sym e) (λ r. rw r.found (Pins-fill_self tag digest payload cbis t r)) q

module _ (parse_time : String → Option ℕ)
    (list : (branch namespace : String) → Result (List CodebaseImageStream)) where
  remaining-Pins :
      (namespace : String) (streams : List String) (start payload : AppPayload)
      (codebase tag digest : String)
      → remaining parse_time list namespace streams start ≡ ok payload
      → Pins codebase tag digest start
      → Pins codebase tag digest payload
  unfolding remaining
  remaining-Pins namespace [] start payload codebase tag digest h p =
      let same : start ≡ payload = ground arith in subst (Pins codebase tag digest) same p
  remaining-Pins namespace (s ∷ streams) start payload codebase tag digest h p =
      elim (Result-cases (stream_tag parse_time list s namespace)) [
        | inl ((cbis, t), e) ↦
            remaining-Pins namespace streams _ payload codebase tag digest (rw e at h)
              (Pins-fill codebase tag digest start cbis t p)
        | inr (x, e) ↦ absurd (ground arith)
      ]

  abbrev strategy : CodebaseTag → CdPipeline → Stage → Result AppPayload
  strategy = get_app_payload_for_current_with_stable_strategy parse_time list

  Pins-insert_self :
      (codebase tag digest : String) (payload : AppPayload)
      → Pins codebase tag digest
          (insert codebase (record { image_tag = tag; image_digest = digest }) payload)
  Pins-insert_self codebase tag digest payload = record {
    app = record { image_tag = tag; image_digest = digest };
    found = lookup-insert_self codebase _ payload;
    tag_eq = refl;
    digest_eq = λ _. refl;
  }

  -- The application that triggered the deployment is deployed with the tag that triggered it, and
  -- with its digest unless that is empty, whatever the stage's annotations and the image streams say.
  pub stable_keeps_current :
      (current : CodebaseTag) (pipeline : CdPipeline) (stage : Stage) (payload : AppPayload)
      → strategy current pipeline stage ≡ ok payload
      → Pins current.codebase current.tag current.digest payload
  unfolding get_app_payload_for_current_with_stable_strategy
  stable_keeps_current current pipeline stage payload h =
      remaining-Pins pipeline.namespace pipeline.spec.input_docker_streams _ payload _ _ _ h
        (Pins-insert_self current.codebase current.tag current.digest _)

-- The tag that an annotation gives, with the digest still open.
abbrev open_digest : String → Option ApplicationPayload
open_digest t = some (record { image_tag = t; image_digest = "" })

lookup-annotated :
    (annotations : Dict String) (payload : AppPayload) (x app t : String)
    → lookup ("app.edp.epam.com/" ++ app) annotations ≡ some t
    → (app ≡ x) ⊎ (lookup app payload ≡ open_digest t)
    → lookup app (annotated x (lookup ("app.edp.epam.com/" ++ x) annotations) payload)
      ≡ open_digest t
lookup-annotated annotations payload x app t a (inl e) =
    rw (← e) (rw a (lookup-insert_self app _ payload))
lookup-annotated annotations payload x app t a (inr l) = elim (Bool-cases (x == app)) [
  | inl same ↦ rw ((eq_iff x app).0 same) (rw a (lookup-insert_self app _ payload))
  | inr other ↦ other_key (lookup ("app.edp.epam.com/" ++ x) annotations) other
]
  where
    other_key :
        (v : Option String)
        → (x == app) ≡ false
        → lookup app (annotated x v payload) ≡ open_digest t
    other_key none h = l
    other_key (some u) h = rw (lookup-insert, h) l

stable_apps-keeps :
    (annotations : Dict String) (apps : List String) (payload : AppPayload) (app t : String)
    → lookup ("app.edp.epam.com/" ++ app) annotations ≡ some t
    → Memᴰ app apps ⊎ (lookup app payload ≡ open_digest t)
    → lookup app (stable_apps annotations apps payload) ≡ open_digest t
unfolding stable_apps
stable_apps-keeps annotations [] payload app t a (inl m) = elim m [ ]
stable_apps-keeps annotations [] payload app t a (inr l) = l
stable_apps-keeps annotations (x ∷ apps) payload app t a (inl m) =
    stable_apps-keeps annotations apps _ app t a (elim (mem-cons_cases m) [
      | inl e ↦ inr (lookup-annotated annotations payload x app t a (inl e))
      | inr n ↦ inl n
    ])
stable_apps-keeps annotations (x ∷ apps) payload app t a (inr l) =
    stable_apps-keeps annotations apps _ app t a
      (inr (lookup-annotated annotations payload x app t a (inr l)))

module _ (parse_time : String → Option ℕ)
    (list : (branch namespace : String) → Result (List CodebaseImageStream)) where
  -- An application of the pipeline that did not trigger the deployment, and that the stage annotates
  -- with a stable tag, is deployed with that tag.
  stable_keeps_annotated :
      (current : CodebaseTag) (pipeline : CdPipeline) (stage : Stage) (payload : AppPayload)
      (app t : String)
      → strategy parse_time list current pipeline stage ≡ ok payload
      → Memᴰ app pipeline.spec.applications
      → app ≢ current.codebase
      → lookup ("app.edp.epam.com/" ++ app) stage.annotations ≡ some t
      → Pins app t "" payload
  unfolding get_app_payload_for_current_with_stable_strategy
  stable_keeps_annotated current pipeline stage payload app t h m ne a =
      remaining-Pins parse_time list pipeline.namespace pipeline.spec.input_docker_streams _ payload
        app t "" h
        (record {
          app = record { image_tag = t; image_digest = "" };
          found = ground (
            arith,
            lookup-insert current.codebase app
                (record { image_tag = current.tag; image_digest = current.digest })
                (stable_apps stage.annotations pipeline.spec.applications []),
            eq_iff current.codebase app,
            stable_apps-keeps stage.annotations pipeline.spec.applications [] app t a (inl m),
          );
          tag_eq = refl;
          digest_eq = λ _. refl;
        })

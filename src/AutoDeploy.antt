-- ===== src/AutoDeploy.antt =====
-- pkg/autodeploy/autodeploy.go: which image tag and digest each application of a pipeline is deployed
-- with, under the two strategies.
pub mod Stable
pub mod Latest
use edp_codebase_operator.Prelude.{
  ℕ, String, List, [], ◌∷◌, Bool, Option, none, some, Dict, lookup, insert, ◌==◌, if◌then◌else◌,
}
use Prim.Native.String.{◌++◌}
use edp_codebase_operator.Effects.{Result, ok, err, sentinel, last_tag_not_found, and_then, or_wrap}
use edp_codebase_operator.Api.{Tag, CodebaseTag, CodebaseImageStream}
use edp_codebase_operator.PipelineApi.{CdPipeline, Stage}
use edp_codebase_operator.CdStageDeploy.Cluster.{ApplicationPayload, AppPayload, AutoDeployManager}
use edp_codebase_operator.ImageStream.{
  get_last_tag, get_codebase_image_stream_by_codebase_base_branch_name,
}

-- `findDigestByTagName`
find_digest : List Tag → String → String
find_digest [] name = ""
find_digest (t ∷ ts) name = if t.name == name then t.digest else find_digest ts name

unfoldable pub find_digest_by_tag_name : CodebaseImageStream → String → String
unfolding find_digest
find_digest_by_tag_name cbis name = find_digest cbis.spec.tags name

abbrev pub payload_of : Tag → ApplicationPayload
payload_of t = record { image_tag = t.name; image_digest = t.digest }

-- Step 1 of the stable strategy: the applications with an annotation on the stage.
abbrev pub annotated : String → Option String → AppPayload → AppPayload
annotated app none payload = payload
annotated app (some t) payload = insert app (record { image_tag = t; image_digest = "" }) payload

unfoldable pub stable_apps : Dict String → List String → AppPayload → AppPayload
stable_apps annotations [] payload = payload
stable_apps annotations (app ∷ apps) payload =
    stable_apps annotations apps
      (annotated app (lookup ("app.edp.epam.com/" ++ app) annotations) payload)

-- Step 3 of the stable strategy, for the image stream of one branch and its newest tag.
abbrev pub fill : CodebaseImageStream → Tag → AppPayload → Option ApplicationPayload → AppPayload
fill cbis t payload none = insert cbis.spec.codebase (payload_of t) payload
fill cbis t payload (some existing) =
    if existing.image_digest == ""
    then insert cbis.spec.codebase
        (record existing { image_digest = find_digest_by_tag_name cbis existing.image_tag }) payload
    else payload

module _ (parse_time : String → Option ℕ)
    (list : (branch namespace : String) → Result (List CodebaseImageStream)) where
  unfoldable pub get_latest_tag : CodebaseImageStream → Result Tag
  get_latest_tag cbis = elim (get_last_tag parse_time cbis.spec.tags) [
    | ok t ↦ ok t
    | err e ↦ err (sentinel last_tag_not_found "last tag not found")
  ]

  -- The image stream of a branch and its newest tag.
  unfoldable pub stream_tag : (stream namespace : String) → Result (CodebaseImageStream × Tag)
  unfolding get_latest_tag
  stream_tag stream namespace =
      and_then
        (or_wrap ("failed to get codebase image stream for stream " ++ stream)
          (get_codebase_image_stream_by_codebase_base_branch_name list stream namespace))
        λ cbis. and_then (get_latest_tag cbis) λ t. ok (cbis, t)

  unfoldable pub all_latest : (namespace : String) → List String → AppPayload → Result AppPayload
  all_latest namespace [] payload = ok payload
  all_latest namespace (stream ∷ streams) payload =
      and_then (stream_tag stream namespace)
        λ (cbis, t). all_latest namespace streams (insert cbis.spec.codebase (payload_of t) payload)

  unfoldable pub get_app_payload_for_all_latest_strategy : CdPipeline → Result AppPayload
  get_app_payload_for_all_latest_strategy pipeline =
      all_latest pipeline.namespace pipeline.spec.input_docker_streams []

  unfoldable pub remaining : (namespace : String) → List String → AppPayload → Result AppPayload
  remaining namespace [] payload = ok payload
  remaining namespace (stream ∷ streams) payload =
      and_then (stream_tag stream namespace) λ (cbis, t).
        remaining namespace streams (fill cbis t payload (lookup cbis.spec.codebase payload))

  unfoldable pub get_app_payload_for_current_with_stable_strategy :
      CodebaseTag → CdPipeline → Stage → Result AppPayload
  get_app_payload_for_current_with_stable_strategy current pipeline stage =
      remaining pipeline.namespace pipeline.spec.input_docker_streams (
        insert current.codebase (record { image_tag = current.tag; image_digest = current.digest })
          (stable_apps stage.annotations pipeline.spec.applications []))

  -- `NewStrategyManager`
  abbrev pub strategy_manager : AutoDeployManager
  strategy_manager = record {
    get_app_payload_for_all_latest_strategy = get_app_payload_for_all_latest_strategy;
    get_app_payload_for_current_with_stable_strategy =
        get_app_payload_for_current_with_stable_strategy;
  }

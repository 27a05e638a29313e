-- ===== src/Examples/Streams.antt =====
-- The theorems on image streams and on the deployment strategies at a small stream.
use edp_codebase_operator.Prelude.{
  ℕ, String, List, [], ◌∷◌, Option, none, some, Memᴰ, lookup, insert, ◌≡◌, ◌≢◌, refl, arith, eq_iff,
  ◌<◌, ◌==◌, if◌then◌else◌,
}
use edp_codebase_operator.Effects.{Result, ok}
use edp_codebase_operator.Api.{Tag, CodebaseImageStream}
use edp_codebase_operator.ImageStream.{
  get_last_tag, last_tag_loop, created_at, get_codebase_image_stream_by_codebase_base_branch_name,
}
use edp_codebase_operator.ImageStream.LastTag.{IsNewest, get_last_tag-IsNewest, get_last_tag_total}
use edp_codebase_operator.CdStageDeploy.Cluster.{ApplicationPayload, AppPayload}
use edp_codebase_operator.PipelineApi.{CdPipeline}
use edp_codebase_operator.AutoDeploy.{
  all_latest, stream_tag, get_latest_tag, remaining, stable_apps,
  get_app_payload_for_all_latest_strategy, get_app_payload_for_current_with_stable_strategy,
}
use edp_codebase_operator.AutoDeploy.Latest.{Delivers, HasKey, all_latest_exact}
use edp_codebase_operator.AutoDeploy.Stable.{Pins, stable_keeps_current}
use edp_codebase_operator.Examples.{app_stream, tag_of_app, pipeline_of, dev_stage}

-- Times are written as "1" and "2".
abbrev parse_time : String → Option ℕ
parse_time s = if s == "1" then some 1 else if s == "2" then some 2 else none

abbrev list : (branch namespace : String) → Result (List CodebaseImageStream)
list _ _ = ok (app_stream ∷ [])

abbrev newest : Tag
newest = record { name = "0.2"; created = "2"; digest = "sha256:2" }

get_last_tag-IsNewest_example :
    (newest.name ≢ "")
    × (0 < created_at parse_time newest)
    × IsNewest parse_time newest app_stream.spec.tags
unfolding get_last_tag last_tag_loop
get_last_tag-IsNewest_example = get_last_tag-IsNewest parse_time app_stream.spec.tags newest refl

abbrev dated : List Tag
dated = newest ∷ []

dated-named : (v : Tag) → Memᴰ v dated → v.name ≢ ""
dated-named v (Memᴰ.head e) = ground (arith, eq_iff newest.name "")
dated-named v (Memᴰ.tail m) = elim m [ ]

get_last_tag_total_example : (t : Tag) × (get_last_tag parse_time dated ≡ ok t)
get_last_tag_total_example =
    get_last_tag_total parse_time dated newest dated-named (Memᴰ.head refl) (ground arith)

abbrev pipeline : CdPipeline
pipeline = pipeline_of ("app" ∷ "lib" ∷ []) ("app-main" ∷ [])

abbrev latest_payload : AppPayload
latest_payload = ("app", record { image_tag = "0.2"; image_digest = "sha256:2" }) ∷ []

all_latest_exact_example :
    ((codebase : String) (app : ApplicationPayload)
      → lookup codebase latest_payload ≡ some app
      → Delivers parse_time list "ns" ("app-main" ∷ []) codebase app)
    × ((stream : String)
        → Memᴰ stream ("app-main" ∷ [])
        → (cbis : CodebaseImageStream) × (get_codebase_image_stream_by_codebase_base_branch_name
              list stream "ns"
            ≡ ok cbis)
          × HasKey parse_time list cbis.spec.codebase latest_payload)
unfolding get_app_payload_for_all_latest_strategy all_latest stream_tag get_latest_tag get_last_tag
    last_tag_loop get_codebase_image_stream_by_codebase_base_branch_name insert
all_latest_exact_example = all_latest_exact parse_time list pipeline latest_payload refl

-- The application that triggers the deployment, and the annotated one.
abbrev stable_payload : AppPayload
stable_payload =
    ("lib", record { image_tag = "0.7"; image_digest = "" })
    ∷ ("app", record { image_tag = "0.2"; image_digest = "sha256:2" })
    ∷ []

stable_keeps_current_example : Pins "app" "0.2" "sha256:2" stable_payload
unfolding get_app_payload_for_current_with_stable_strategy remaining stream_tag get_latest_tag
    get_last_tag last_tag_loop stable_apps get_codebase_image_stream_by_codebase_base_branch_name
    insert lookup
stable_keeps_current_example =
    stable_keeps_current parse_time list tag_of_app pipeline dev_stage stable_payload refl

-- ===== src/AutoDeploy/Latest.antt =====
-- The payload of the "all latest" strategy.
use edp_codebase_operator.Prelude.{
  ℕ, String, List, [], ◌∷◌, Option, some, Memᴰ, mem-cons_cases, Bool-cases, lookup, insert,
  lookup-insert, ◌≡◌, ◌≢◌, refl, sym, ◌⊎◌, inl, inr, ◌==◌, eq_iff, arith,
}
use edp_codebase_operator.Effects.{Result, ok, Result-cases}
use edp_codebase_operator.Api.{Tag, CodebaseImageStream}
use edp_codebase_operator.PipelineApi.{CdPipeline}
use edp_codebase_operator.ImageStream.{
  get_last_tag, get_codebase_image_stream_by_codebase_base_branch_name,
}
use edp_codebase_operator.ImageStream.LastTag.{IsNewest, get_last_tag-IsNewest}
use edp_codebase_operator.CdStageDeploy.Cluster.{ApplicationPayload, AppPayload}
use edp_codebase_operator.AutoDeploy.{
  stream_tag, get_latest_tag, payload_of, all_latest, get_app_payload_for_all_latest_strategy,
}

module _ (parse_time : String → Option ℕ)
    (list : (branch namespace : String) → Result (List CodebaseImageStream)) where
  -- One of the streams is the image stream of the codebase, and the payload is its newest tag: one with a
  -- name and a time, the first of those with the latest time.
  pub record Delivers (namespace : String) (streams : List String) (codebase : String)
      (app : ApplicationPayload) : Type 0 where
    pub stream : String
    pub given : Memᴰ stream streams
    pub image_stream : CodebaseImageStream
    pub tag : Tag
    pub found :
        get_codebase_image_stream_by_codebase_base_branch_name list stream namespace
        ≡ ok image_stream
    pub named : tag.name ≢ ""
    pub newest : IsNewest parse_time tag image_stream.spec.tags
    pub codebase_eq : codebase ≡ image_stream.spec.codebase
    pub app_eq : app ≡ record { image_tag = tag.name; image_digest = tag.digest }

  stream_tag-found :
      (namespace stream : String) (cbis : CodebaseImageStream) (t : Tag)
      → stream_tag parse_time list stream namespace ≡ ok (cbis, t)
      → get_codebase_image_stream_by_codebase_base_branch_name list stream namespace ≡ ok cbis
  unfolding stream_tag get_latest_tag
  stream_tag-found namespace stream cbis t h = ground arith

  stream_tag-IsNewest :
      (namespace stream : String) (cbis : CodebaseImageStream) (t : Tag)
      → stream_tag parse_time list stream namespace ≡ ok (cbis, t)
      → (t.name ≢ "") × IsNewest parse_time t cbis.spec.tags
  unfolding stream_tag get_latest_tag
  stream_tag-IsNewest namespace stream cbis t h =
      let last : get_last_tag parse_time cbis.spec.tags ≡ ok t = ground arith in
      let (named, _, newest) = get_last_tag-IsNewest parse_time cbis.spec.tags t last in
      (named, newest)

  Delivers-cons :
      {namespace codebase : String} {app : ApplicationPayload} {streams : List String} (s : String)
      → Delivers namespace streams codebase app
      → Delivers namespace (s ∷ streams) codebase app
  Delivers-cons s d = record {
    stream = d.stream;
    given = Memᴰ.tail d.given;
    image_stream = d.image_stream;
    tag = d.tag;
    found = d.found;
    named = d.named;
    newest = d.newest;
    codebase_eq = d.codebase_eq;
    app_eq = d.app_eq;
  }

  -- One round of the loop, where the loop ends with no error.
  record Round (namespace stream : String) (streams : List String) (start payload : AppPayload)
      : Type 0 where
    image_stream : CodebaseImageStream
    tag : Tag
    found : stream_tag parse_time list stream namespace ≡ ok (image_stream, tag)
    rest :
        all_latest parse_time list namespace streams
          (insert image_stream.spec.codebase (payload_of tag) start)
        ≡ ok payload

  all_latest-Round :
      (namespace stream : String) (streams : List String) (start payload : AppPayload)
      → all_latest parse_time list namespace (stream ∷ streams) start ≡ ok payload
      → Round namespace stream streams start payload
  unfolding all_latest
  all_latest-Round namespace stream streams start payload h =
      elim (Result-cases (stream_tag parse_time list stream namespace)) [
        | inl ((cbis, t), e) ↦ record { image_stream = cbis; tag = t; found = e; rest = rw e at h }
        | inr (x, e) ↦ absurd (ground arith)
      ]

  all_latest_sound :
      (namespace : String) (streams : List String) (start payload : AppPayload) (codebase : String)
      (app : ApplicationPayload)
      → all_latest parse_time list namespace streams start ≡ ok payload
      → lookup codebase payload ≡ some app
      → (lookup codebase start ≡ some app) ⊎ Delivers namespace streams codebase app
  all_latest_sound namespace [] start payload codebase app h l =
      inl (unfold all_latest in ground arith)
  all_latest_sound namespace (s ∷ streams) start payload codebase app h l =
      let r = all_latest-Round namespace s streams start payload h in
      let key = r.image_stream.spec.codebase in
      let next = insert key (payload_of r.tag) start in
      elim (all_latest_sound namespace streams next payload codebase app r.rest l) [
        | inl old ↦ elim (Bool-cases (key == codebase)) [
          | inl same ↦ inr (record {
            stream = s;
            given = Memᴰ.head refl;
            image_stream = r.image_stream;
            tag = r.tag;
            found = stream_tag-found namespace s r.image_stream r.tag r.found;
            named = (stream_tag-IsNewest namespace s r.image_stream r.tag r.found).0;
            newest = (stream_tag-IsNewest namespace s r.image_stream r.tag r.found).1;
            codebase_eq = sym ((eq_iff key codebase).0 same);
            app_eq = ground (arith, lookup-insert key codebase (payload_of r.tag) start);
          })
          | inr other ↦ inl (ground (arith, lookup-insert key codebase (payload_of r.tag) start))
        ]
        | inr d ↦ inr (Delivers-cons s d)
      ]

  abbrev pub HasKey : String → AppPayload → Type 0
  HasKey codebase payload = (app : ApplicationPayload) × (lookup codebase payload ≡ some app)

  HasKey-insert :
      (key codebase : String) (a : ApplicationPayload) (payload : AppPayload)
      → (key ≡ codebase) ⊎ HasKey codebase payload
      → HasKey codebase (insert key a payload)
  HasKey-insert key codebase a payload h = elim (Bool-cases (key == codebase)) [
    | inl same ↦ (a, ground (arith, lookup-insert key codebase a payload))
    | inr other ↦ elim h [
      | inl e ↦ absurd (ground (arith, eq_iff key codebase))
      | inr (b, l) ↦ (b, ground (arith, lookup-insert key codebase a payload))
    ]
  ]

  all_latest-keeps :
      (namespace : String) (streams : List String) (start payload : AppPayload) (codebase : String)
      → all_latest parse_time list namespace streams start ≡ ok payload
      → HasKey codebase start
      → HasKey codebase payload
  all_latest-keeps namespace [] start payload codebase h (a, l) =
      (a, unfold all_latest in ground arith)
  all_latest-keeps namespace (s ∷ streams) start payload codebase h k =
      let r = all_latest-Round namespace s streams start payload h in
      all_latest-keeps namespace streams _ payload codebase r.rest
        (HasKey-insert r.image_stream.spec.codebase codebase (payload_of r.tag) start (inr k))

  all_latest_complete :
      (namespace : String) (streams : List String) (start payload : AppPayload) (stream : String)
      → all_latest parse_time list namespace streams start ≡ ok payload
      → Memᴰ stream streams
      → (cbis : CodebaseImageStream) × (t : Tag) × (stream_tag parse_time list stream namespace
          ≡ ok (cbis, t))
        × HasKey cbis.spec.codebase payload
  all_latest_complete namespace [] start payload stream h m = elim m [ ]
  all_latest_complete namespace (s ∷ streams) start payload stream h m =
      let r = all_latest-Round namespace s streams start payload h in
      let key = r.image_stream.spec.codebase in
      elim (mem-cons_cases m) [
        | inl e ↦ (
          r.image_stream,
          r.tag,
          rw e r.found,
          all_latest-keeps namespace streams _ payload key r.rest
              (HasKey-insert key key (payload_of r.tag) start (inl refl)),
        )
        | inr n ↦ all_latest_complete namespace streams _ payload stream r.rest n
      ]

  -- The payload of the strategy holds exactly the codebases of the pipeline's image streams: each
  -- entry is the newest tag of one of the streams of its codebase, and every stream's codebase has an
  -- entry.
  pub all_latest_exact :
      (pipeline : CdPipeline) (payload : AppPayload)
      → get_app_payload_for_all_latest_strategy parse_time list pipeline ≡ ok payload
      → ((codebase : String) (app : ApplicationPayload)
          → lookup codebase payload ≡ some app
          → Delivers pipeline.namespace pipeline.spec.input_docker_streams codebase app)
        × ((stream : String)
            → Memᴰ stream pipeline.spec.input_docker_streams
            → (cbis : CodebaseImageStream) × (get_codebase_image_stream_by_codebase_base_branch_name
                  list stream pipeline.namespace
                ≡ ok cbis)
              × HasKey cbis.spec.codebase payload)
  unfolding get_app_payload_for_all_latest_strategy
  all_latest_exact pipeline payload h =
      let streams = pipeline.spec.input_docker_streams in
      (
        λ codebase app l.
            elim (all_latest_sound pipeline.namespace streams [] payload codebase app h l) [
              | inl old ↦ absurd (unfold lookup in ground arith)
              | inr d ↦ d
            ],
        λ stream m.
            let (cbis, t, found, key) =
              all_latest_complete pipeline.namespace streams [] payload stream h m in
            (cbis, stream_tag-found pipeline.namespace stream cbis t found, key),
      )

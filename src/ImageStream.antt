-- ===== src/ImageStream.antt =====
-- pkg/codebaseimagestream/codebaseimagestream.go: the newest tag of an image stream, and the image
-- stream of a branch. A time is the number of nanoseconds since Go's zero time, and `time.Parse` with
-- the layout RFC3339 is a parameter; a text that it refuses stands for the zero time, as in the source.
pub mod LastTag
use Prim.Native.String.{◌++◌}
use edp_codebase_operator.Prelude.{
  ℕ, String, List, [], ◌∷◌, Bool, Option, none, some, ltb, ◌==◌, if◌then◌else◌,
}
use edp_codebase_operator.Effects.{
  Result, ok, err, new, sentinel, wrap, codebase_image_stream_not_found, and_then, or_wrap,
}
use edp_codebase_operator.Api.{Tag, CodebaseImageStream}

abbrev pub zero_tag : Tag
zero_tag = record { name = ""; created = ""; digest = "" }

module _ (parse_time : String → Option ℕ) where
  abbrev pub created_at : Tag → ℕ
  created_at t = elim (parse_time t.created) [ none ↦ 0 | some n ↦ n ]

  -- The loop of `GetLastTag`, over `latestTag` and `latestTagTime`.
  unfoldable pub last_tag_loop : Tag → ℕ → List Tag → Tag
  last_tag_loop latest time [] = latest
  last_tag_loop latest time (t ∷ ts) =
      let newer = ltb time (created_at t) in
      last_tag_loop (if newer then t else latest) (if newer then created_at t else time) ts

  unfoldable pub get_last_tag : List Tag → Result Tag
  get_last_tag tags =
      let latest = last_tag_loop zero_tag 0 tags in
      if latest.name == "" then err (new "latest tag is not found") else ok latest

-- `list` answers with the image streams of the namespace that carry the branch label.
abbrev the_only : (branch : String) → List CodebaseImageStream → Result CodebaseImageStream
the_only branch [] = err (
    wrap ("failed to get CodebaseImageStream for CodebaseBranch " ++ branch)
      (sentinel codebase_image_stream_not_found "CodebaseImageStream not found"))
the_only branch (cis ∷ []) = ok cis
the_only branch (_ ∷ _) =
    err (new ("multiple CodebaseImageStream found for CodebaseBranch " ++ branch))

unfoldable pub get_codebase_image_stream_by_codebase_base_branch_name :
    ((branch namespace : String) → Result (List CodebaseImageStream))
    → (branch namespace : String) → Result CodebaseImageStream
get_codebase_image_stream_by_codebase_base_branch_name list branch namespace =
    and_then (or_wrap "failed to get CodebaseImageStream by label" (list branch namespace))
      (the_only branch)

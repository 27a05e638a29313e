-- ===== src/DeploymentUsage/Text.antt =====
-- `Join` of pkg/deploymentusage/deploymentusage.go is empty only for no references.
use Prim.Native.String.{◌++◌, len}
use text.Mathlib.TextPositions.{len-append}
use edp_codebase_operator.Prelude.{◌<◌, String, List, [], ◌∷◌, map, ◌≡◌, refl, ap, arith}
use edp_codebase_operator.DeploymentUsage.{
  Kind, cd_pipeline_kind, stage_kind, kind_text, Reference, reference_lines, reference_text,
  join_texts, join,
}

kind_text-pos : (k : Kind) → 0 < len (kind_text k)
kind_text-pos cd_pipeline_kind = omega arith
kind_text-pos stage_kind = omega arith

append-pos : (s t : String) → 0 < len s → 0 < len (s ++ t)
append-pos s t h = omega (arith, len-append s t)

reference_lines-pos : (k : Kind) (r : Reference) → 0 < len (reference_lines k r)
unfolding reference_lines
reference_lines-pos stage_kind r = append-pos "Stage " _ (omega arith)
reference_lines-pos cd_pipeline_kind r = append-pos (kind_text r.kind) _ (kind_text-pos r.kind)

join_texts-pos :
    (sep : String) (r : Reference) (rs : List Reference)
    → 0 < len (join_texts sep (map reference_text (r ∷ rs)))
unfolding join_texts reference_text
join_texts-pos sep r [] = reference_lines-pos r.kind r
join_texts-pos sep r (x ∷ xs) = append-pos (reference_text r) _ (reference_lines-pos r.kind r)

pub join-eq-empty : (refs : List Reference) → join refs ≡ "" → refs ≡ []
unfolding join
join-eq-empty [] h = refl
join-eq-empty (r ∷ rs) h = absurd (omega (arith, join_texts-pos "; " r rs, ap len h))

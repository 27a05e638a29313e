-- ===== src/StreamDeploy/Labels/Names.antt =====
-- put_cd_stage_deploy.go computes the name of the deployment from the label, and the name of the stage
-- from the label's two parts: the two agree.
use Prim.Native.Char.{code}
use Prim.Native.String.{◌++◌}
use text.Mathlib.TextLemmas.{nil-append, cons-append}
use edp_codebase_operator.Prelude.{
  ℕ, String, true, false, ◌&&◌, Option, none, some, eqb, Bool-cases, Option-cases, ◌≡◌, refl, sym,
  ap, ◌∙◌, subst, inl, inr, arith, if◌then◌else◌,
}
use edp_codebase_operator.Api.{dashed}
use edp_codebase_operator.StreamDeploy.Labels.{
  is_env_char, all_env_chars, is_env_name, split_slash, both_names, env_of, replace_slashes,
}

env_char-slash : (c : ℕ) → is_env_char c ≡ true → eqb c b'/' ≡ false
unfolding is_env_char
env_char-slash c h = ground arith

-- A name of the allowed characters has no slash to replace.
replace_slashes-name : (s : String) → all_env_chars s ≡ true → replace_slashes s ≡ s
unfolding replace_slashes all_env_chars
replace_slashes-name String.[] h = refl
replace_slashes-name (String.◌∷◌ c s) h =
    let char : is_env_char (code c) ≡ true = ground arith in
    let more : all_env_chars s ≡ true = ground arith in
    rw (env_char-slash (code c) char, if◌then◌else◌)
      (ap (λ t. String.◌∷◌ c t) (replace_slashes-name s more))

replace_slashes-split :
    (label p s : String)
    → split_slash label ≡ some (p, s)
    → replace_slashes label ≡ p ++ "-" ++ replace_slashes s
unfolding split_slash replace_slashes
replace_slashes-split String.[] p s h = cc
replace_slashes-split (String.◌∷◌ c t) p s h = elim (Bool-cases (eqb (code c) b'/')) [
  | inl e ↦
      let parts : some ("", t) ≡ some (p, s) = rw (e, if◌then◌else◌) at h in
      let empty : "" ≡ p = cc parts in
      let rest : t ≡ s = cc parts in
      rw (e, if◌then◌else◌)
        (ap (λ u. "-" ++ replace_slashes u) rest
          ∙ sym (nil-append ("-" ++ replace_slashes s))
          ∙ ap (λ u. u ++ "-" ++ replace_slashes s) empty)
  | inr e ↦ elim (Option-cases (split_slash t)) [
    | inl n ↦ cc (rw (e, n, if◌then◌else◌) at h)
    | inr ((q, u), n) ↦
        let parts : some (String.◌∷◌ c q, u) ≡ some (p, s) = rw (e, n, if◌then◌else◌) at h in
        let first : String.◌∷◌ c q ≡ p = cc parts in
        let second : u ≡ s = cc parts in
        rw (e, if◌then◌else◌)
          (ap (λ v. String.◌∷◌ c v) (replace_slashes-split t q u n)
            ∙ sym (cons-append c q ("-" ++ replace_slashes u))
            ∙ ap (λ v. v ++ "-" ++ replace_slashes u) first
            ∙ ap (λ v. p ++ "-" ++ replace_slashes v) second)
  ]
]

both_names-cases :
    (parts : Option (String × String)) (p s : String)
    → both_names parts ≡ some (p, s)
    → (parts ≡ some (p, s)) × (is_env_name p ≡ true) × (is_env_name s ≡ true)
both_names-cases none p s h = cc
both_names-cases (some (q, t)) p s h = elim (Bool-cases (is_env_name q && is_env_name t)) [
  | inr e ↦ cc (rw (e, if◌then◌else◌) at h)
  | inl e ↦
      let same : ◌≡◌ {A = Option (String × String)} (some (q, t)) (some (p, s)) =
        rw (e, if◌then◌else◌) at h in
      let first : q ≡ p = cc same in
      let second : t ≡ s = cc same in
      (
        same,
        subst (λ x. is_env_name x ≡ true) first (ground arith),
        subst (λ x. is_env_name x ≡ true) second (ground arith),
      )
]

-- The name of the deployment of a label is the name of the stage resource that the label names.
deploy_name_is_stage_name :
    (label pipeline stage : String)
    → env_of label ≡ some (pipeline, stage)
    → replace_slashes label ≡ dashed pipeline stage
unfolding env_of is_env_name
deploy_name_is_stage_name label pipeline stage h =
    let (split, first, second) = both_names-cases (split_slash label) pipeline stage h in
    replace_slashes-split label pipeline stage split
    ∙ ap (λ t. pipeline ++ "-" ++ t) (replace_slashes-name stage (ground arith))

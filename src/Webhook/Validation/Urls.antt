-- ===== src/Webhook/Validation/Urls.antt =====
-- pkg/util/url.go: the loop of `TrimGitFromURL` ends, and what it answers has no suffix left.
use Prim.Native.String.{◌++◌, count}
use text.Mathlib.TextLemmas.{nil-append, cons-append, length-append}
use edp_codebase_operator.Prelude.{
  ℕ, suc, zero, String, true, Option, none, some, ◌≡◌, refl, ap, sym, ◌∙◌, inl, inr, ◌==◌, ◌+◌, ◌<◌,
  eq_iff, Bool-cases, Option-cases, if◌then◌else◌, arith,
}
use edp_codebase_operator.Webhook.Validation.{cut_suffix, prepend_to, trim_git}

-- Where the whole text is the suffix, the cut leaves nothing.
cut-here :
    (suffix s r : String) (rest : Option String)
    → (s == suffix) ≡ true
    → (if s == suffix then some "" else rest) ≡ some r
    → s ≡ r ++ suffix
cut-here suffix s r rest e h =
    let q : "" ≡ r = cc (rw (e, if◌then◌else◌) at h) in
    (eq_iff s suffix).0 e ∙ sym (nil-append suffix) ∙ ap (λ t. t ++ suffix) q

-- What a cut leaves, followed by the suffix, is the text.
pub cut_suffix-append : (suffix s r : String) → cut_suffix suffix s ≡ some r → s ≡ r ++ suffix
unfolding cut_suffix
cut_suffix-append suffix String.[] r h = elim (Bool-cases (String.[] == suffix)) [
  | inl e ↦ cut-here suffix String.[] r none e h
  | inr e ↦ cc (rw (e, if◌then◌else◌) at h)
]
cut_suffix-append suffix (String.◌∷◌ c s) r h = elim (Bool-cases (String.◌∷◌ c s == suffix)) [
  | inl e ↦ cut-here suffix (String.◌∷◌ c s) r (prepend_to c (cut_suffix suffix s)) e h
  | inr e ↦ elim (Option-cases (cut_suffix suffix s)) [
    | inl n ↦ cc (rw (e, n, if◌then◌else◌) at h)
    | inr (t, n) ↦
        let q : String.◌∷◌ c t ≡ r = cc (rw (e, n, if◌then◌else◌) at h) in
        ap (λ u. String.◌∷◌ c u) (cut_suffix-append suffix s t n)
        ∙ sym (cons-append c t suffix)
        ∙ ap (λ u. u ++ suffix) q
  ]
]

cut_suffix-shorter : (s r : String) → cut_suffix ".git" s ≡ some r → count s ≡ count r + 4
cut_suffix-shorter s r h = ap count (cut_suffix-append ".git" s r h) ∙ length-append r ".git"

-- With more fuel than the text has characters, the loop ends, and the URL it answers does not end
-- in ".git".
pub trim_git_ends :
    (fuel : ℕ) (url : String)
    → count url < fuel
    → (r : String) × (trim_git fuel url ≡ some r) × (cut_suffix ".git" r ≡ none)
unfolding trim_git
trim_git_ends zero url h = let absurd : ⊥ = omega arith in elim absurd [ ]
trim_git_ends (suc fuel) url h = elim (Option-cases (cut_suffix ".git" url)) [
  | inl n ↦ (url, rw (trim_git, n) refl, n)
  | inr (t, n) ↦
      let shorter = cut_suffix-shorter url t n in
      let less : count t < fuel = omega arith in
      let (r, e, d) = trim_git_ends fuel t less in (r, rw (trim_git, n) e, d)
]

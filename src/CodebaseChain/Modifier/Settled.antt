-- ===== src/CodebaseChain/Modifier/Settled.antt =====
-- pkg/objectmodifier/codebase_modifier.go: when the modifier has nothing left to change.
use Prim.Native.Char.{Char}
use Prim.Native.String.{◌++◌, count}
use text.Mathlib.TextLemmas.{nil-append, cons-append, length-append, length-cons}
use edp_codebase_operator.Prelude.{
  ℕ, suc, String, Bool, true, false, none, some, eqb, ◌≡◌, ◌≢◌, ◌⊎◌, refl, ap, sym, ◌∙◌, inl, inr,
  Bool-cases, Option-cases, ◌+◌, ◌==◌, eq_iff, eq_refl, arith, if◌then◌else◌,
}
use edp_codebase_operator.Effects.{ok, Result-cases, continue}
use edp_codebase_operator.Webhook.Validation.{cut_suffix, trim_git}
use edp_codebase_operator.Webhook.Codebases.{trim_git_from_url}
use edp_codebase_operator.Api.Codebase.{Codebase}
use edp_codebase_operator.Webhook.Admission.{trim_git_from_url_lem}
use edp_codebase_operator.CodebaseChain.{World, State}
use edp_codebase_operator.CodebaseChain.Modifier.{
  has_git_suffix, set_repository, count_git, add_git_to_url, trim_codebase_git_suffix,
  with_git_suffix, add_codebase_git_suffix, apply_modifiers, apply,
}

-- A text before the suffix makes a text that is not the suffix.
longer : (c : Char) (r suffix : String) → (String.◌∷◌ c (r ++ suffix) == suffix) ≡ false
longer c r suffix = elim (Bool-cases (String.◌∷◌ c (r ++ suffix) == suffix)) [
  | inl e ↦
      let q : suc (count (r ++ suffix)) ≡ count suffix =
        sym (length-cons c (r ++ suffix))
        ∙ ap count ((eq_iff (String.◌∷◌ c (r ++ suffix)) suffix).0 e) in
      let n = length-append r suffix in let absurd : ⊥ = omega arith in elim absurd [ ]
  | inr e ↦ e
]

cut_self : (suffix : String) → cut_suffix suffix suffix ≡ some ""
unfolding cut_suffix
cut_self String.[] = refl
cut_self (String.◌∷◌ c s) = rw (eq_refl (String.◌∷◌ c s), if◌then◌else◌) refl

cut-cons :
    (c : Char) (suffix r : String)
    → cut_suffix suffix (r ++ suffix) ≡ some r
    → cut_suffix suffix (String.◌∷◌ c (r ++ suffix)) ≡ some (String.◌∷◌ c r)
unfolding cut_suffix
cut-cons c suffix r h = rw (longer c r suffix, if◌then◌else◌, h) refl

cut-append : (suffix r : String) → cut_suffix suffix (r ++ suffix) ≡ some r
cut-append suffix String.[] = rw (nil-append suffix) (cut_self suffix)
cut-append suffix (String.◌∷◌ c r) =
    rw (cons-append c r suffix) (cut-cons c suffix r (cut-append suffix r))

trim_git_once :
    (n : ℕ) (url : String)
    → cut_suffix ".git" url ≡ none
    → trim_git (suc (suc n)) (url ++ ".git") ≡ some url
unfolding trim_git
trim_git_once n url h = rw (trim_git, cut-append ".git" url, trim_git, h) refl

trim-append :
    (url : String) → cut_suffix ".git" url ≡ none → trim_git_from_url (url ++ ".git") ≡ url
unfolding trim_git_from_url
trim-append url h =
    let four : count url + 4 ≡ suc (count url + 3) = omega arith in
    let fuel : count (url ++ ".git") ≡ suc (count url + 3) = length-append url ".git" ∙ four in
    rw (fuel, trim_git_once (count url + 3) url h) refl

-- A URL without the suffix `.git` is what trimming leaves of it after the suffix has been added.
pub trim-add_git :
    (url : String) → cut_suffix ".git" url ≡ none → trim_git_from_url (add_git_to_url url) ≡ url
unfolding add_git_to_url
trim-add_git url h = rw (h, if◌then◌else◌) (trim-append url h)

add-has_suffix : (url : String) → has_git_suffix (add_git_to_url url) ≡ true
unfolding add_git_to_url
add-has_suffix url = elim (Bool-cases (has_git_suffix url)) [
  | inl e ↦ rw (e, if◌then◌else◌, e) refl
  | inr e ↦ rw (e, if◌then◌else◌, cut-append ".git" url) refl
]

trim-plain : (url : String) → has_git_suffix url ≡ false → trim_git_from_url url ≡ url
unfolding trim_git_from_url trim_git
trim-plain url h = elim (Option-cases (cut_suffix ".git" url)) [
  | inl n ↦ rw (trim_git, n) refl
  | inr (r, n) ↦ cc (rw n at h)
]

settled_at :
    (url : String)
    → has_git_suffix url ≡ true
    → count_git url ≡ 1
    → with_git_suffix url ≡ (false, url)
unfolding with_git_suffix
settled_at url h k = rw (h, if◌then◌else◌, k) refl

with_suffix-cases :
    (url : String)
    → (with_git_suffix url ≡ (false, url)) × (has_git_suffix url ≡ true) × (count_git url ≡ 1)
      ⊎ (with_git_suffix url ≡ (true, add_git_to_url (trim_git_from_url url)))
unfolding with_git_suffix
with_suffix-cases url = elim (Bool-cases (has_git_suffix url)) [
  | inl e ↦ elim (Bool-cases (eqb (count_git url) 1)) [
    | inl k ↦ inl (rw (e, if◌then◌else◌, k) refl, e, ground arith)
    | inr k ↦ inr (rw (e, if◌then◌else◌, k) refl)
  ]
  | inr e ↦ inr (rw (e, if◌then◌else◌, trim-plain url e) refl)
]

-- One run of the modifier leaves a URL that a second one does not change.
with_suffix-settled :
    (url : String)
    → count_git (add_git_to_url (trim_git_from_url url)) ≡ 1
    → let settled = (with_git_suffix url).1 in with_git_suffix settled ≡ (false, settled)
with_suffix-settled url h = elim (with_suffix-cases url) [
  | inl (e, f, k) ↦ rw e (settled_at url f k)
  | inr e ↦ rw e (
      settled_at (add_git_to_url (trim_git_from_url url)) (add-has_suffix (trim_git_from_url url))
        h)
]

trimmed-plain : (url : String) → has_git_suffix (trim_git_from_url url) ≡ false
trimmed-plain url = rw (trim_git_from_url_lem url) refl

path-trimmed :
    (c : Codebase) → has_git_suffix (trim_codebase_git_suffix c).1.spec.git_url_path ≡ false
unfolding trim_codebase_git_suffix
path-trimmed c = grind (arith, trimmed-plain)

modifiers-settled :
    (c c' : Codebase) (url : String) {changed : Bool}
    → c.spec.repository ≡ some url
    → count_git (add_git_to_url (trim_git_from_url url)) ≡ 1
    → apply_modifiers c ≡ ok (changed, c')
    → apply_modifiers c' ≡ ok (false, c')
unfolding apply_modifiers add_codebase_git_suffix trim_codebase_git_suffix
modifiers-settled c c' url r h e =
    grind (arith, trimmed-plain, with_suffix-settled, eq_iff c.spec.strategy "clone")

with_suffix-loop :
    (url : String)
    → cut_suffix ".git" url ≡ none
    → eqb (count_git (url ++ ".git")) 1 ≡ false
    → with_git_suffix (url ++ ".git") ≡ (true, url ++ ".git")
unfolding with_git_suffix add_git_to_url
with_suffix-loop url n k = rw (cut-append ".git" url, k, if◌then◌else◌, trim-append url n, n) refl

nonempty : (url : String) → (url ++ ".git" == "") ≡ false
nonempty url = elim (Bool-cases (url ++ ".git" == "")) [
  | inl e ↦
      let q = sym (length-append url ".git") ∙ ap count ((eq_iff (url ++ ".git") "").0 e) in
      let absurd : ⊥ = omega arith in elim absurd [ ]
  | inr e ↦ e
]

trim-keeps :
    (c : Codebase)
    → ((trim_codebase_git_suffix c).1.spec.strategy ≡ c.spec.strategy)
      × ((trim_codebase_git_suffix c).1.spec.repository ≡ c.spec.repository)
unfolding trim_codebase_git_suffix
trim-keeps c = (grind arith, grind arith)

loop-modifiers :
    (c : Codebase) (url : String)
    → c.spec.strategy ≡ "clone"
    → c.spec.repository ≡ some (url ++ ".git")
    → cut_suffix ".git" url ≡ none
    → eqb (count_git (url ++ ".git")) 1 ≡ false
    → (c' : Codebase) × (apply_modifiers c ≡ ok (true, c'))
      × (c'.spec.repository ≡ c.spec.repository)
unfolding apply_modifiers add_codebase_git_suffix
loop-modifiers c url st r n k = (
  set_repository (url ++ ".git") (trim_codebase_git_suffix c).1,
  grind (
    arith,
    with_suffix-loop,
    nonempty,
    trim-keeps,
    eq_iff (trim_codebase_git_suffix c).1.spec.strategy "clone",
  ),
  sym r,
)

module _ (w : World) (s : State) where
  -- Where the URL of the repository, with one suffix, has ".git" nowhere else, a modifier that has run
  -- without an error has nothing left to change: a second run changes nothing and sends nothing.
  pub modifier_settles :
      (url : String) {changed : Bool}
      → s.codebase.spec.repository ≡ some url
      → count_git (add_git_to_url (trim_git_from_url url)) ≡ 1
      → let (r, after) = apply w s in r ≡ ok changed → apply w after ≡ (ok false, after)
  unfolding apply
  modifier_settles url e h q = elim (Result-cases (apply_modifiers s.codebase)) [
    | inl ((ch, c'), m) ↦ let again = modifiers-settled s.codebase c' url e h m in grind arith
    | inr (x, m) ↦ cc (rw (m, continue) at q)
  ]

  -- Where the URL of a repository to clone has one suffix ".git" and has ".git" elsewhere too, every run of
  -- the modifier says that it has changed the codebase, or fails, and leaves the URL as it was.
  pub modifier_never_settles :
      (url : String)
      → s.codebase.spec.strategy ≡ "clone"
      → s.codebase.spec.repository ≡ some (url ++ ".git")
      → cut_suffix ".git" url ≡ none
      → eqb (count_git (url ++ ".git")) 1 ≡ false
      → ((apply w s).0 ≢ ok false)
        × ((apply w s).1.codebase.spec.repository ≡ s.codebase.spec.repository)
  unfolding apply
  modifier_never_settles url st e n k =
      let (c', m, q) = loop-modifiers s.codebase url st e n k in (λ f. grind arith, grind arith)

-- ===== src/Effects.antt =====
-- Go's errors as values, and handlers that mutate an object and may fail.
-- An error holds the text that the source builds, and what it wraps, so `errors.Is` and
-- `k8sErrors.IsNotFound` can look through the wrapping as they do in Go.
use edp_codebase_operator.Prelude.{
  String, Bool, true, false, List, [], ◌∷◌, ◌≡◌, refl, ◌⊎◌, inl, inr,
}
use Prim.Native.String.{◌++◌}

-- Why the API server refused a request.
pub data Reason : Type 0 where
  not_found conflict no_match not_registered other : Reason

-- The errors that the source compares by identity.
pub data Sentinel : Type 0 where
  empty_trigger_template_resources last_tag_not_found codebase_image_stream_not_found : Sentinel
  job_failed reference_not_found api_not_supported web_hook_not_found : Sentinel

pub data Error : Type 0 where
  -- an error of the client
  api : Reason → String → Error
  -- `errors.New(text)`, and `fmt.Errorf(text)` with no `%w`
  new : String → Error
  sentinel : Sentinel → String → Error
  -- `util.CodebaseBranchReconcileError`
  reconcile : String → Error
  -- `fmt.Errorf("text: %w", err)`
  wrap : String → Error → Error

-- `err.Error()`
pub error_text : Error → String
error_text (api r t) = t
error_text (new t) = t
error_text (sentinel s t) = t
error_text (reconcile t) = t
error_text (wrap t e) = t ++ ": " ++ error_text e

abbrev pub same_sentinel : Sentinel → Sentinel → Bool
same_sentinel empty_trigger_template_resources empty_trigger_template_resources = true
same_sentinel last_tag_not_found last_tag_not_found = true
same_sentinel codebase_image_stream_not_found codebase_image_stream_not_found = true
same_sentinel job_failed job_failed = true
same_sentinel reference_not_found reference_not_found = true
same_sentinel api_not_supported api_not_supported = true
same_sentinel web_hook_not_found web_hook_not_found = true
same_sentinel _ _ = false

-- `errors.Is(err, sentinel)`
unfoldable pub is : Sentinel → Error → Bool
is s (wrap t e) = is s e
is s (sentinel s' t) = same_sentinel s s'
is s _ = false

-- `k8sErrors.IsNotFound(err)`
unfoldable pub is_not_found : Error → Bool
is_not_found (wrap t e) = is_not_found e
is_not_found (api not_found t) = true
is_not_found _ = false

-- `errors.As(err, &util.CodebaseBranchReconcileError{})`
unfoldable pub is_reconcile_error : Error → Bool
is_reconcile_error (wrap t e) = is_reconcile_error e
is_reconcile_error (reconcile t) = true
is_reconcile_error _ = false

pub data Result (A : Type 0) : Type 0 where
  ok : A → Result A
  err : Error → Result A

pub Result-cases :
    {A : Type 0} (r : Result A) → ((a : A) × (r ≡ ok a)) ⊎ ((e : Error) × (r ≡ err e))
Result-cases (ok a) = inl (a, refl)
Result-cases (err e) = inr (e, refl)

-- `if err != nil { return fmt.Errorf("text: %w", err) }`
abbrev pub or_wrap : {A : Type 0} → String → Result A → Result A
or_wrap t (ok a) = ok a
or_wrap t (err e) = err (wrap t e)

-- A pure function that may fail.
abbrev pub and_then : {A B : Type 0} → Result A → (A → Result B) → Result B
and_then (ok a) f = f a
and_then (err e) f = err e

-- Inversion of a chain that succeeded.
pub and_then-ok :
    {A B : Type 0} (m : Result A) (f : A → Result B) {b : B}
    → and_then m f ≡ ok b
    → (a : A) × (m ≡ ok a) × (f a ≡ ok b)
and_then-ok (ok a) f h = (a, refl, h)
and_then-ok (err e) f h = cc

-- A handler that fails keeps its writes: the answer and the state are returned as a pair.
abbrev pub Exec : Type 0 → Type 0 → Type 0
Exec S A = S → Result A × S

module _ {S A : Type 0} where
  abbrev pub pure : A → Exec S A
  pure a s = (ok a, s)

  abbrev pub fail : Error → Exec S A
  fail e s = (err e, s)

  -- the answer of a read, which changes nothing
  abbrev pub lift : Result A → Exec S A
  lift r s = (r, s)

  abbrev pub gets : (S → A) → Exec S A
  gets f s = (ok (f s), s)

  -- the answer of a handler as a value, for an error that is looked at or dropped
  abbrev pub attempt : Exec S A → Exec S (Result A)
  attempt m s = let (r, s') = m s in (ok r, s')

  abbrev pub wrapping : String → Exec S A → Exec S A
  wrapping t m s = let (r, s') = m s in (or_wrap t r, s')

-- `if test { m } else { n }` between handlers.
abbrev pub branch : {S A : Type 0} → Bool → Exec S A → Exec S A → Exec S A
branch true m n s = m s
branch false m n s = n s

abbrev pub modify : {S : Type 0} → (S → S) → Exec S Unit
modify f s = (ok tt, f s)

module _ {S A B : Type 0} where
  abbrev pub continue : Result A → (A → Exec S B) → Exec S B
  continue (ok a) f s = f a s
  continue (err e) f s = (err e, s)

  infixl 10 ◌>>=◌ ◌>>◌
  abbrev pub ◌>>=◌ : Exec S A → (A → Exec S B) → Exec S B
  ◌>>=◌ first rest s = let (answer, after) = first s in continue answer rest after

  abbrev pub ◌>>◌ : Exec S A → Exec S B → Exec S B
  m >> n = m >>= λ _. n

-- `for _, a := range xs { if err := f(a); err != nil { return err } }`
unfoldable pub for_each : {S A : Type 0} → List A → (A → Exec S Unit) → Exec S Unit
for_each [] f = pure tt
for_each (x ∷ xs) f = let rest = for_each xs f in f x >> rest

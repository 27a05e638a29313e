-- ===== src/Pause/Paused.antt =====
-- pkg/predicate/pause.go: which events reach the controllers.
use edp_codebase_operator.Prelude.{
  String, List, [], ◌∷◌, true, false, Option, none, some, contains, mem_of_contains,
  contains_of_mem, lookup, Memᴰ, Bool-cases, Option-cases, ◌≡◌, ◌↔◌, refl, inl, inr, arith, subst,
}
use edp_codebase_operator.Api.{ObjectMeta}
use edp_codebase_operator.Pause.{
  Event, create_event, delete_event, generic_event, update_event, pause_annotation, true_texts,
  parse_bool, run, run_if_present, passes,
}

-- The texts that the documentation of `strconv.ParseBool` takes for true.
abbrev pub spellings_of_true : List String
spellings_of_true = "1" ∷ "t" ∷ "T" ∷ "TRUE" ∷ "true" ∷ "True" ∷ []

-- The annotation of the object is one of the texts for true.
pub record IsPaused (object : ObjectMeta) : Type 0 where
  pub text : String
  pub annotated : lookup pause_annotation object.annotations ≡ some text
  pub means_true : Memᴰ text spellings_of_true

abbrev pub object_of : Event → Option ObjectMeta
object_of (create_event object) = object
object_of (delete_event object) = object
object_of (generic_event object) = object
object_of (update_event old_object (some new_object)) = some new_object
object_of (update_event old_object none) = old_object

run-IsPaused : (object : ObjectMeta) → run object ≡ false → IsPaused object
unfolding run parse_bool
run-IsPaused object h = elim (Option-cases (lookup pause_annotation object.annotations)) [
  | inl n ↦ let absurd : ⊥ = ground arith in elim absurd [ ]
  | inr (text, n) ↦
      let truthy : contains true_texts text ≡ true = ground arith in
      record {
        text = text;
        annotated = n;
        means_true = mem_of_contains spellings_of_true text truthy;
      }
]

paused-run : (object : ObjectMeta) → IsPaused object → run object ≡ false
unfolding run parse_bool lookup
paused-run object p =
    let truthy : contains true_texts p.text ≡ true =
      contains_of_mem spellings_of_true p.text p.means_true in
    let found = p.annotated in ground arith

passes-object : (e : Event) → passes e ≡ run_if_present (object_of e)
unfolding passes
passes-object (create_event object) = refl
passes-object (delete_event object) = refl
passes-object (generic_event object) = refl
passes-object (update_event old_object none) = refl
passes-object (update_event old_object (some new_object)) = refl

run_if_present-cases :
    (o : Option ObjectMeta)
    → (run_if_present o ≡ true) ↔ ((object : ObjectMeta) × (o ≡ some object) × ¬ IsPaused object)
run_if_present-cases none =
    (λ h. let absurd : ⊥ = ground arith in elim absurd [ ], λ (object, e, f). cc e)
run_if_present-cases (some object) = (
  λ h. (object, refl, λ p. cc (paused-run object p)),
  λ (o, e, free). elim (Bool-cases (run object)) [
    | inl t ↦ t
    | inr f ↦
        let same : object ≡ o = cc e in
        elim (free (subst IsPaused same (run-IsPaused object f))) [ ]
  ],
)

-- The predicate lets an event through exactly where it has an object, the new one of an update or the
-- old one where there is no new one, and this object is not paused.
pub only_unpaused_objects :
    (e : Event)
    → (passes e ≡ true) ↔ ((object : ObjectMeta) × (object_of e ≡ some object) × ¬ IsPaused object)
only_unpaused_objects e = rw (passes-object e) (run_if_present-cases (object_of e))

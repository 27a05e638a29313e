-- ===== src/Pause.antt =====
-- pkg/predicate/pause.go: the predicate that keeps events of paused objects from the controllers.
pub mod Paused
use edp_codebase_operator.Prelude.{
  String, List, [], ◌∷◌, Bool, true, false, not, Option, none, some, is_empty, contains, lookup,
  is_nil, get_or_empty, ◌&&◌, ◌||◌, ◌==◌, if◌then◌else◌,
}
use edp_codebase_operator.Api.{ObjectMeta}

abbrev pub pause_annotation : String
pause_annotation = "edp.epam.com/paused"

abbrev pub true_texts : List String
true_texts = "1" ∷ "t" ∷ "T" ∷ "TRUE" ∷ "true" ∷ "True" ∷ []

abbrev pub false_texts : List String
false_texts = "0" ∷ "f" ∷ "F" ∷ "FALSE" ∷ "false" ∷ "False" ∷ []

-- `strconv.ParseBool`, with none for its error
unfoldable pub parse_bool : String → Option Bool
parse_bool text =
    if contains true_texts text
    then some true
    else if contains false_texts text
    then some false
    else none

-- The events of controller-runtime, with none for a nil object.
pub data Event : Type 0 where
  create_event delete_event generic_event : Option ObjectMeta → Event
  update_event : (old_object new_object : Option ObjectMeta) → Event

abbrev pub not_paused : Option Bool → Bool
not_paused none = true
not_paused (some pause) = not pause

abbrev pub of_annotation : Option String → Bool
of_annotation none = true
of_annotation (some text) = not_paused (parse_bool text)

unfoldable pub run : ObjectMeta → Bool
run object =
    if is_empty object.annotations
    then true
    else of_annotation (lookup pause_annotation object.annotations)

abbrev pub run_if_present : Option ObjectMeta → Bool
run_if_present none = false
run_if_present (some object) = run object

-- An update is decided by the new object, and by the old one where there is no new one.
abbrev pub newest : (old_object new_object : Option ObjectMeta) → Option ObjectMeta
newest old_object none = old_object
newest old_object (some object) = some object

-- `Pause.Create`, `Pause.Delete`, `Pause.Generic` and `Pause.Update`
unfoldable pub passes : Event → Bool
passes (create_event object) = run_if_present object
passes (delete_event object) = run_if_present object
passes (generic_event object) = run_if_present object
passes (update_event old_object new_object) = run_if_present (newest old_object new_object)

-- `PauseAnnotationChanged`, after the tests for nil objects
abbrev pub changed : Option String → Option String → Bool
changed (some old_text) none = true
changed none (some new_text) = true
changed none none = false
changed (some old_text) (some new_text) = not (old_text == new_text)

unfoldable pub pause_annotation_changed : (old_object new_object : Option ObjectMeta) → Bool
pause_annotation_changed (some old_object) (some new_object) =
    changed (lookup pause_annotation old_object.annotations)
      (lookup pause_annotation new_object.annotations)
pause_annotation_changed _ _ = false

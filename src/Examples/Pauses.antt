-- ===== src/Examples/Pauses.antt =====
-- The theorem on the pause predicate at one event.
use edp_codebase_operator.Prelude.{[], ◌∷◌, some, ◌≡◌, ◌↔◌, true}
use edp_codebase_operator.Api.{ObjectMeta}
use edp_codebase_operator.Pause.{Event, update_event, pause_annotation, passes}
use edp_codebase_operator.Pause.Paused.{IsPaused, object_of, only_unpaused_objects}
use edp_codebase_operator.Examples.{meta_of}

abbrev resumed : Event
resumed =
    update_event (some (meta_of "app" [] ((pause_annotation, "true") ∷ []) 1))
      (some (meta_of "app" [] ((pause_annotation, "false") ∷ []) 1))

only_unpaused_objects_example :
    (passes resumed ≡ true)
    ↔ ((object : ObjectMeta) × (object_of resumed ≡ some object) × ¬ IsPaused object)
only_unpaused_objects_example = only_unpaused_objects resumed

-- ===== src/Registry/Repository.antt =====
-- `ModelRegistryRepository` of apps/api/app/models_registry/repository.py: model versions.
use microlens_recsys_mvp.Prelude.{
  ℕ, String, Bool, true, false, not, ◌&&◌, ◌||◌, Option, List, [], ◌∷◌, if◌then◌else◌, value_error,
  lookup_error, Result, ok, ◌>>=◌, ◌>>◌, guard, require,
}
use microlens_recsys_mvp.Registry.Rows.{
  ModelStatus, training, evaluated, ready, active, archived, failed, ModelVersion, RegistryDb,
  find_model, is_active, is_ready, is_comparable, is_systems_only, flush_model, insert_model,
}

-- `MODEL_TRANSITIONS`
abbrev pub model_transitions : ModelStatus → List ModelStatus
model_transitions training = evaluated ∷ failed ∷ []
model_transitions evaluated = ready ∷ failed ∷ []
model_transitions ready = active ∷ failed ∷ []
model_transitions active = archived ∷ failed ∷ []
model_transitions archived = ready ∷ []
model_transitions failed = []

abbrev pub status_value : ModelStatus → String
status_value training = "TRAINING"
status_value evaluated = "EVALUATED"
status_value ready = "READY"
status_value active = "ACTIVE"
status_value archived = "ARCHIVED"
status_value failed = "FAILED"

abbrev pub same_status : ModelStatus → ModelStatus → Bool
same_status training training = true
same_status evaluated evaluated = true
same_status ready ready = true
same_status active active = true
same_status archived archived = true
same_status failed failed = true
same_status _ _ = false

abbrev pub status_mem : ModelStatus → List ModelStatus → Bool
status_mem s [] = false
status_mem s (t ∷ ts) = same_status s t || status_mem s ts

-- `_validate_eligibility`
unfoldable pub validate_eligibility : ModelVersion → Result (Unit {0})
validate_eligibility m = do
  guard
      (not (
        is_systems_only m.purpose
        && (is_comparable m.evaluation_comparability
            || m.activation_eligible
            || (is_ready m.status || is_active m.status))))
      (value_error "systems_only model cannot be comparable, ready, or active")
  guard (not (m.activation_eligible && not (is_comparable m.evaluation_comparability)))
      (value_error "activation eligibility requires comparable evaluation")

unfoldable pub add_model : ModelVersion → RegistryDb → Result (ModelVersion × RegistryDb)
unfolding validate_eligibility insert_model
add_model m db = do validate_eligibility m; written ← insert_model m db; ok (m, written)

-- The check of a transition to READY or ACTIVE.
unfoldable pub require_eligible : ModelStatus → ModelVersion → Result (Unit {0})
unfolding validate_eligibility
require_eligible target m =
    if is_ready target || is_active target
    then validate_eligibility m
      >> guard m.activation_eligible (value_error "model is not activation eligible")
    else ok tt

-- `transition` is the text of the message that names both states.
module _ (transition : String → String → String) where
  unfoldable pub transition_model :
      (version : ℕ) (target : ModelStatus) (failure_reason : Option String)
      → RegistryDb
      → Result (ModelVersion × RegistryDb)
  unfolding require_eligible
  transition_model version target failure_reason db = do
    m ← require (find_model version db.models) (lookup_error "model version does not exist")
    guard (status_mem target (model_transitions m.status))
        (value_error (transition (status_value m.status) (status_value target)))
    require_eligible target m
    let changed = record m { status = target; failure_reason = failure_reason }
    written ← flush_model changed db
    ok (changed, written)

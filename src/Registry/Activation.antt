-- ===== src/Registry/Activation.antt =====
-- `ActivationService` of apps/api/app/models_registry/service.py.
use microlens_recsys_mvp.Prelude.{
  ℕ, String, Bool, true, false, not, ◌&&◌, Option, none, some, [], ◌∷◌, ◌++◌, ◌==◌, str_eq, is_some,
  if◌then◌else◌, Error, value_error, lookup_error, api_error, integrity_error, Result, ok, err,
  ◌>>=◌, ◌>>◌, guard, require, compare_digest,
}
use microlens_recsys_mvp.Prelude.Table.{find}
use microlens_recsys_mvp.Registry.Rows.{
  active, archived, started, succeeded, failed, ModelVersion, ModelActivationAttempt, RegistryDb,
  find_model, is_ready, is_comparable, attempt_key, active_model, flush_model, flush_attempt,
}

-- `authenticate_publish_token`
unfoldable pub authenticate_publish_token :
    (is_ascii : String → Bool) (publish_token : String) → Option String → Result (Unit {0})
authenticate_publish_token is_ascii publish_token none =
    err (api_error 401 "invalid_publish_token" "Publish token is invalid")
authenticate_publish_token is_ascii publish_token (some provided) = do
  same ← compare_digest is_ascii provided publish_token
  guard same (api_error 401 "invalid_publish_token" "Publish token is invalid")

abbrev pub model_not_found : Error
model_not_found = api_error 422 "model_not_found" "Model version does not exist"

abbrev pub attempt_not_found : Error
attempt_not_found = lookup_error "activation attempt does not exist"

abbrev pub optional_num_eq : Option ℕ → Option ℕ → Bool
optional_num_eq none none = true
optional_num_eq (some a) (some b) = a == b
optional_num_eq _ _ = false

-- `attempt_id` is the new id.
unfoldable pub begin_attempt :
    (attempt_id version : ℕ) (expected_current_version : Option ℕ) (now : ℕ)
    → RegistryDb
    → Result (ModelActivationAttempt × RegistryDb)
begin_attempt attempt_id version expected now db = do
  m ← require (find_model version db.models) model_not_found
  guard (not (is_some (find attempt_key attempt_id db.attempts))) integrity_error
  let attempt : ModelActivationAttempt = record {
    id = attempt_id;
    model_version = version;
    expected_current_version = expected;
    status = started;
    failure_code = none;
    failure_reason = none;
    created_at = now;
    completed_at = none;
  }
  ok (attempt, record db { attempts = db.attempts ++ attempt ∷ [] })

-- The failure is written on the model too, where it still exists; `joined` is "code: reason".
abbrev pub mark_model : Option ModelVersion → String → RegistryDb → Result RegistryDb
mark_model none joined db = ok db
mark_model (some m) joined db = flush_model (record m { failure_reason = some joined }) db

unfoldable pub record_failure :
    (attempt_id : ℕ) (code reason joined : String) (now : ℕ) → RegistryDb → Result RegistryDb
record_failure attempt_id code reason joined now db = do
  attempt ← require (find attempt_key attempt_id db.attempts) attempt_not_found
  written ←
      flush_attempt
        (record attempt {
          status = failed;
          failure_code = some code;
          failure_reason = some reason;
          completed_at = some now;
        })
        db
  mark_model (find_model attempt.model_version written.models) joined written

unfoldable pub record_success : (attempt_id now : ℕ) → RegistryDb → Result RegistryDb
record_success attempt_id now db = do
  attempt ← require (find attempt_key attempt_id db.attempts) attempt_not_found
  flush_attempt
      (record attempt {
        status = succeeded;
        failure_code = none;
        failure_reason = none;
        completed_at = some now;
      })
      db

-- `_validate_target`
unfoldable pub validate_target : ModelVersion → String → Result (Unit {0})
validate_target m manifest_checksum = do
  guard (str_eq m.manifest_checksum manifest_checksum)
      (api_error 422 "manifest_checksum_mismatch" "Manifest checksum does not match")
  guard (is_ready m.status) (api_error 422 "model_not_ready" "Only READY models can be activated")
  guard (m.activation_eligible && is_comparable m.evaluation_comparability) (
      api_error 422 "model_not_activation_eligible"
        "Model is not comparable and activation eligible")

abbrev pub version_of : Option ModelVersion → Option ℕ
version_of none = none
version_of (some m) = some m.model_version

-- The active model is archived, and flushed first, unless it is the target.
abbrev pub archive_active : Option ModelVersion → ℕ → RegistryDb → Result RegistryDb
archive_active none target db = ok db
archive_active (some m) target db =
    if m.model_version == target then ok db else flush_model (record m { status = archived }) db

abbrev pub success_of : Option ℕ → ℕ → RegistryDb → Result RegistryDb
success_of none now db = ok db
success_of (some attempt_id) now db = record_success attempt_id now db

-- `resource_integrator`, and the handler of what it raises; it writes other tables.
abbrev pub integration_failed : Result (Unit {0}) → Result (Unit {0})
integration_failed (ok done) = ok done
integration_failed (err (api_error status code message)) = err (api_error status code message)
integration_failed (err raised) =
    err (api_error 422 "serving_resource_integration_failed" "Serving resource integration failed")

module _ (Bundle : Type 0) where
  -- A staging loader: `stage`, and `stage_activation` where the object has that method.
  pub record StagingLoader : Type 0 where
    pub stage : (artifact_uri artifact_checksum manifest_checksum : String) → Result Bundle
    pub stage_activation : Option (
        (model_version : ℕ)
        → (data_version data_manifest_checksum artifact_uri artifact_checksum
            manifest_checksum : String)
        → Result Bundle)

  pub record PreparedActivation : Type 0 where
    pub model_version : ℕ
    pub manifest_checksum : String
    pub staged_bundle : Bundle

  pub record ActivationPlan : Type 0 where
    pub model : ModelVersion
    pub staged_bundle : Bundle

  abbrev stage_model : StagingLoader → ModelVersion → String → Result Bundle
  stage_model loader m manifest = elim loader.stage_activation [
    | none ↦ loader.stage m.artifact_uri m.artifact_checksum manifest
    | some stage ↦
        require m.data_manifest_checksum
          (value_error "active model is missing its processed-data checksum")
        >>= λ data_manifest.
            stage m.model_version m.data_version data_manifest m.artifact_uri m.artifact_checksum
              manifest
  ]

  -- `except Exception`
  abbrev staging_failed : Result Bundle → Result Bundle
  staging_failed (ok staged) = ok staged
  staging_failed (err raised) =
      err (api_error 422 "staging_load_failed" "Model staging validation failed")

  unfoldable pub prepare :
      StagingLoader
      → (version : ℕ) (manifest_checksum : String) → RegistryDb
      → Result PreparedActivation
  unfolding validate_target
  prepare loader version manifest_checksum db = do
    m ← require (find_model version db.models) model_not_found
    validate_target m manifest_checksum
    staged ← staging_failed (stage_model loader m manifest_checksum)
    ok (record {
      model_version = version;
      manifest_checksum = manifest_checksum;
      staged_bundle = staged;
    })

  unfoldable pub integrate : Option (Bundle → Result (Unit {0})) → Bundle → Result (Unit {0})
  integrate none staged = ok tt
  integrate (some integrator) staged = integration_failed (integrator staged)

  unfoldable pub activate_prepared :
      (integrator : Option (Bundle → Result (Unit {0})))
      → PreparedActivation
      → (expected_current_version attempt_id : Option ℕ) (now : ℕ) → RegistryDb
      → Result (ActivationPlan × RegistryDb)
  unfolding validate_target record_success integrate
  activate_prepared integrator prepared expected attempt_id now db = do
    target ← require (find_model prepared.model_version db.models) model_not_found
    validate_target target prepared.manifest_checksum
    guard (optional_num_eq (version_of (active_model db.models)) expected) (
        api_error 409 "activation_cas_conflict"
          "Current active model does not match expected_current_version")
    integrate integrator prepared.staged_bundle
    archived_db ← archive_active (active_model db.models) target.model_version db
    let published = record target {
      status = active;
      published_at = some now;
      failure_reason = none;
    }
    active_db ← flush_model published archived_db
    done ← success_of attempt_id now active_db
    ok (record { model = published; staged_bundle = prepared.staged_bundle }, done)

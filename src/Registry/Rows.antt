-- ===== src/Registry/Rows.antt =====
-- The tables of model versions, training jobs and activation attempts with their constraints
-- (apps/api/app/db/models.py). A version and an id are numbers that stand for their texts.
use Prim.Native.String.{count}
use microlens_recsys_mvp.Prelude.{
  ℕ, String, Bool, true, false, not, ◌&&◌, ◌||◌, Option, none, some, List, [], ◌∷◌, ◌++◌, ◌==◌,
  head?, select, is_some, if◌then◌else◌, Result, ok, err, integrity_error,
}
use microlens_recsys_mvp.Prelude.Table.{find, replace}

pub data ModelStatus : Type 0 where
  training evaluated ready active archived failed : ModelStatus

pub data TrainingJobStatus : Type 0 where
  queued running succeeded failed cancelled : TrainingJobStatus

pub data EvaluationPurpose : Type 0 where
  base_official systems_only quality_evaluation : EvaluationPurpose

pub data Comparability : Type 0 where
  non_comparable comparable : Comparability

pub data AttemptStatus : Type 0 where
  started succeeded failed : AttemptStatus

pub record ModelVersion : Type 0 where
  pub model_version : ℕ
  pub data_version : String
  pub data_manifest_checksum : Option String
  pub config_checksum : String
  pub metrics : String
  pub artifact_uri : String
  pub artifact_checksum : String
  pub manifest_checksum : String
  pub purpose : EvaluationPurpose
  pub evaluation_comparability : Comparability
  pub activation_eligible : Bool
  pub status : ModelStatus
  pub failure_reason : Option String
  pub trained_at : Option ℕ
  pub published_at : Option ℕ

pub record TrainingJob : Type 0 where
  pub job_id : ℕ
  pub idempotency_key : ℕ
  pub data_version : String
  pub data_manifest_checksum : String
  pub config_checksum : String
  pub purpose : EvaluationPurpose
  pub evaluation_comparability : Comparability
  pub activation_eligible : Bool
  pub status : TrainingJobStatus
  pub failure_reason : Option String
  pub created_at : ℕ
  pub completed_at : Option ℕ

pub record ModelActivationAttempt : Type 0 where
  pub id : ℕ
  pub model_version : ℕ
  pub expected_current_version : Option ℕ
  pub status : AttemptStatus
  pub failure_code : Option String
  pub failure_reason : Option String
  pub created_at : ℕ
  pub completed_at : Option ℕ

pub record RegistryDb : Type 0 where
  pub models : List ModelVersion
  pub jobs : List TrainingJob
  pub attempts : List ModelActivationAttempt

abbrev pub model_key : ModelVersion → ℕ
model_key m = m.model_version

abbrev pub training_job_key : TrainingJob → ℕ
training_job_key j = j.job_id

abbrev pub attempt_key : ModelActivationAttempt → ℕ
attempt_key a = a.id

abbrev pub find_model : ℕ → List ModelVersion → Option ModelVersion
find_model = find model_key

abbrev pub is_active : ModelStatus → Bool
is_active active = true
is_active _ = false

abbrev pub is_ready : ModelStatus → Bool
is_ready ready = true
is_ready _ = false

abbrev pub is_comparable : Comparability → Bool
is_comparable comparable = true
is_comparable non_comparable = false

abbrev pub is_systems_only : EvaluationPurpose → Bool
is_systems_only systems_only = true
is_systems_only _ = false

abbrev pub holds_active : ModelVersion → Bool
holds_active m = is_active m.status

-- `select(ModelVersion).where(status == ACTIVE)`
abbrev pub active_model : List ModelVersion → Option ModelVersion
active_model models = head? (select holds_active models)

abbrev optional_length_64 : Option String → Bool
optional_length_64 none = true
optional_length_64 (some text) = count text == 64

-- The check constraints on the checksums.
abbrev pub checksum_lengths : ModelVersion → Bool
checksum_lengths m =
    optional_length_64 m.data_manifest_checksum
    && (count m.config_checksum == 64)
    && (count m.artifact_checksum == 64)
    && (count m.manifest_checksum == 64)

-- `eligible_requires_comparable`
abbrev pub eligible_comparable : Bool → Comparability → Bool
eligible_comparable eligible comparability = not eligible || is_comparable comparability

-- `systems_only_never_activates`
abbrev pub never_activates : ModelVersion → Bool
never_activates m =
    not (is_systems_only m.purpose)
    || (not (is_comparable m.evaluation_comparability)
        && not m.activation_eligible
        && not (is_ready m.status || is_active m.status))

unfoldable pub model_checks : ModelVersion → Bool
model_checks m =
    checksum_lengths m
    && eligible_comparable m.activation_eligible m.evaluation_comparability
    && never_activates m

-- `uq_model_versions_single_active`: another row holds ACTIVE.
unfoldable pub other_active : ℕ → List ModelVersion → Bool
other_active version [] = false
other_active version (m ∷ models) =
    (holds_active m && not (m.model_version == version)) || other_active version models

-- The flush of a changed row: the constraints are checked on the row as written.
unfoldable pub flush_model : ModelVersion → RegistryDb → Result RegistryDb
flush_model m db =
    if model_checks m && not (holds_active m && other_active m.model_version db.models)
    then ok (record db { models = replace model_key m db.models })
    else err integrity_error

-- The flush of a new row.
unfoldable pub insert_model : ModelVersion → RegistryDb → Result RegistryDb
insert_model m db =
    if is_some (find_model m.model_version db.models)
    then err integrity_error
    else if model_checks m && not (holds_active m && other_active m.model_version db.models)
    then ok (record db { models = db.models ++ m ∷ [] })
    else err integrity_error

-- `failure_shape`
abbrev failure_shape : ModelActivationAttempt → Bool
failure_shape a = elim a.status [
  | failed ↦ is_some a.failure_code && is_some a.failure_reason
  | _ ↦ not (is_some a.failure_code) && not (is_some a.failure_reason)
]

unfoldable pub flush_attempt : ModelActivationAttempt → RegistryDb → Result RegistryDb
flush_attempt a db =
    if failure_shape a
    then ok (record db { attempts = replace attempt_key a db.attempts })
    else err integrity_error

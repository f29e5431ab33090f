-- ===== src/Registry/Jobs.antt =====
-- `ModelRegistryRepository` of apps/api/app/models_registry/repository.py: training jobs.
use Prim.Native.String.{String}
use microlens_recsys_mvp.Prelude.{
  ℕ, Bool, true, false, not, ◌&&◌, ◌||◌, Option, none, some, List, [], ◌∷◌, ◌++◌, str_eq, is_some,
  if◌then◌else◌, value_error, lookup_error, api_error, integrity_error, Result, ok, err, ◌>>=◌,
  ◌>>◌, guard, require,
}
use microlens_recsys_mvp.Prelude.Table.{find, replace}
use microlens_recsys_mvp.Registry.Rows.{
  TrainingJobStatus, queued, running, succeeded, failed, cancelled, TrainingJob, RegistryDb,
  EvaluationPurpose, base_official, systems_only, quality_evaluation, is_comparable,
  is_systems_only, training_job_key, eligible_comparable,
}

-- `JOB_TRANSITIONS`
abbrev pub job_transitions : TrainingJobStatus → List TrainingJobStatus
job_transitions queued = running ∷ cancelled ∷ failed ∷ []
job_transitions running = succeeded ∷ failed ∷ cancelled ∷ []
job_transitions succeeded = []
job_transitions failed = []
job_transitions cancelled = []

abbrev pub job_status_value : TrainingJobStatus → String
job_status_value queued = "queued"
job_status_value running = "running"
job_status_value succeeded = "succeeded"
job_status_value failed = "failed"
job_status_value cancelled = "cancelled"

abbrev same_job_status : TrainingJobStatus → TrainingJobStatus → Bool
same_job_status queued queued = true
same_job_status running running = true
same_job_status succeeded succeeded = true
same_job_status failed failed = true
same_job_status cancelled cancelled = true
same_job_status _ _ = false

abbrev pub job_status_mem : TrainingJobStatus → List TrainingJobStatus → Bool
job_status_mem s [] = false
job_status_mem s (t ∷ ts) = same_job_status s t || job_status_mem s ts

abbrev pub idempotency_number : TrainingJob → ℕ
idempotency_number j = j.idempotency_key

abbrev pub find_job_by_key : ℕ → List TrainingJob → Option TrainingJob
find_job_by_key = find idempotency_number

-- `_validate_job_eligibility`
unfoldable pub validate_job_eligibility : TrainingJob → Result (Unit {0})
validate_job_eligibility j = do
  guard
      (not (
        is_systems_only j.purpose
        && (is_comparable j.evaluation_comparability || j.activation_eligible)))
      (value_error "systems_only job must be non-comparable and ineligible")
  guard (not (j.activation_eligible && not (is_comparable j.evaluation_comparability)))
      (value_error "activation eligibility requires comparable evaluation")

abbrev same_purpose : EvaluationPurpose → EvaluationPurpose → Bool
same_purpose base_official base_official = true
same_purpose systems_only systems_only = true
same_purpose quality_evaluation quality_evaluation = true
same_purpose _ _ = false

abbrev same_bool : Bool → Bool → Bool
same_bool true b = b
same_bool false b = not b

-- The fields of `identity` agree.
abbrev pub same_identity : TrainingJob → TrainingJob → Bool
same_identity a b =
    str_eq a.data_version b.data_version
    && str_eq a.data_manifest_checksum b.data_manifest_checksum
    && str_eq a.config_checksum b.config_checksum
    && same_purpose a.purpose b.purpose
    && same_bool (is_comparable a.evaluation_comparability)
        (is_comparable b.evaluation_comparability)
    && same_bool a.activation_eligible b.activation_eligible

-- `_existing_job`
unfoldable pub existing_job : (existing requested : TrainingJob) → Result TrainingJob
existing_job existing requested =
    if same_identity existing requested
    then ok existing
    else err (
        api_error 409 "training_job_idempotency_conflict"
          "idempotency_key has different training job content")

abbrev pub job_checks : TrainingJob → Bool
job_checks j =
    (not (is_systems_only j.purpose)
      || (not (is_comparable j.evaluation_comparability) && not j.activation_eligible))
    && eligible_comparable j.activation_eligible j.evaluation_comparability

-- The flush of a new job in its savepoint.
unfoldable pub insert_training_job : TrainingJob → RegistryDb → Result RegistryDb
insert_training_job j db =
    if is_some (find training_job_key j.job_id db.jobs)
      || (is_some (find_job_by_key j.idempotency_key db.jobs) || not (job_checks j))
    then err integrity_error
    else ok (record db { jobs = db.jobs ++ j ∷ [] })

-- `except IntegrityError`
abbrev pub after_conflict :
    TrainingJob → RegistryDb → Result RegistryDb → Result (TrainingJob × RegistryDb)
after_conflict j db (ok written) = ok (j, written)
after_conflict j db (err integrity_error) = do
  existing ← require (find_job_by_key j.idempotency_key db.jobs) integrity_error
  found ← existing_job existing j
  ok (found, db)
after_conflict j db (err raised) = err raised

abbrev pub enqueue_or_existing :
    TrainingJob → RegistryDb → Option TrainingJob → Result (TrainingJob × RegistryDb)
enqueue_or_existing j db (some existing) = do found ← existing_job existing j; ok (found, db)
enqueue_or_existing j db none = after_conflict j db (insert_training_job j db)

unfoldable pub enqueue_job : TrainingJob → RegistryDb → Result (TrainingJob × RegistryDb)
unfolding validate_job_eligibility existing_job insert_training_job
enqueue_job j db =
    validate_job_eligibility j
    >> enqueue_or_existing j db (find_job_by_key j.idempotency_key db.jobs)

module _ (transition : String → String → String) where
  unfoldable pub transition_job :
      (job_id : ℕ) (target : TrainingJobStatus) (failure_reason : Option String)
      → RegistryDb
      → Result (TrainingJob × RegistryDb)
  transition_job job_id target failure_reason db = do
    j ← require (find training_job_key job_id db.jobs) (lookup_error "training job does not exist")
    guard (job_status_mem target (job_transitions j.status))
        (value_error (transition (job_status_value j.status) (job_status_value target)))
    let changed = record j { status = target; failure_reason = failure_reason }
    ok (changed, record db { jobs = replace training_job_key changed db.jobs })

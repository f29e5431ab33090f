-- ===== src/Registry/Tests.antt =====
-- The registry at two concrete models.
use microlens_recsys_mvp.Prelude.{
  All, ℕ, String, true, false, ◌≡◌, refl, none, some, [], ◌∷◌, if◌then◌else◌, ok, err, api_error,
  integrity_error,
}
use microlens_recsys_mvp.Prelude.Table.{find, replace}
use microlens_recsys_mvp.Registry.Rows.{
  ModelStatus, ready, active, archived, training, quality_evaluation, comparable, queued, started,
  succeeded, ModelVersion, TrainingJob, ModelActivationAttempt, RegistryDb, find_model,
  active_model, model_checks, other_active, flush_model, flush_attempt,
}
use microlens_recsys_mvp.Registry.Repository.{transition_model}
use microlens_recsys_mvp.Registry.Jobs.{same_identity, validate_job_eligibility, enqueue_job}
use microlens_recsys_mvp.Registry.Activation.{
  PreparedActivation, ActivationPlan, validate_target, version_of, integrate, activate_prepared,
}
use microlens_recsys_mvp.Registry.OneActive.{IsSound, IsSound-of_only}
use microlens_recsys_mvp.Registry.Cutover.{
  after_activation, activate_prepared-active, activate_prepared_total,
}
use microlens_recsys_mvp.Registry.JobKeys.{AreUnique, enqueue_job-again}
use microlens_recsys_mvp.Registry.System.{activates}
use microlens_recsys_mvp.Registry.Lifecycle.{Step-Follows}
use microlens_recsys_mvp.Registry.Moves.{Continues}
use microlens_recsys_mvp.Registry.Progress.{
  Serves, path_to_active, transition_all, path_to_active_lem, transition_model-conflict,
}

abbrev sum : String
sum = "0123456789abcdef0123456789abcdef0123456789abcdef0123456789abcdef"

abbrev model : ℕ → ModelStatus → ModelVersion
model version status = record {
  model_version = version;
  data_version = "d";
  data_manifest_checksum = some sum;
  config_checksum = sum;
  metrics = "{}";
  artifact_uri = "a";
  artifact_checksum = sum;
  manifest_checksum = sum;
  purpose = quality_evaluation;
  evaluation_comparability = comparable;
  activation_eligible = true;
  status = status;
  failure_reason = none;
  trained_at = none;
  published_at = none;
}

abbrev attempt : ModelActivationAttempt
attempt = record {
  id = 7;
  model_version = 2;
  expected_current_version = some 1;
  status = started;
  failure_code = none;
  failure_reason = none;
  created_at = 0;
  completed_at = none;
}

abbrev db : RegistryDb
db = record { models = model 1 active ∷ model 2 ready ∷ []; jobs = []; attempts = attempt ∷ [] }

abbrev prepared : PreparedActivation ℕ
prepared = record { model_version = 2; manifest_checksum = sum; staged_bundle = 0 }

abbrev plan : ActivationPlan ℕ
plan = record {
  model = record (model 2 ready) { status = active; published_at = some 50; failure_reason = none };
  staged_bundle = 0;
}

abbrev db_after : RegistryDb
db_after = record {
  models = model 1 archived ∷ plan.model ∷ [];
  jobs = [];
  attempts = record attempt { status = succeeded; completed_at = some 50 } ∷ [];
}

activation : activate_prepared ℕ none prepared (some 1) (some 7) 50 db ≡ ok (plan, db_after)
unfolding activate_prepared find flush_model flush_attempt model_checks other_active replace
activation = refl

db-IsSound : IsSound db.models
unfolding model_checks other_active find
db-IsSound = IsSound-of_only 1 db.models (refl, (refl, tt)) (refl, (refl, tt)) refl

activate_prepared-active_example :
    (version_of (active_model db.models) ≡ some 1)
    × (find_model 2 db_after.models ≡ some plan.model)
    × (plan.model.status ≡ active)
    × (other_active 2 db_after.models ≡ false)
    × All
        (λ m.
          find_model m.model_version db_after.models
          ≡ some (
              after_activation none prepared
                (some 1)
                (some 7)
                50
                db
                db-IsSound
                plan
                db_after
                activation
                m))
        db.models
unfolding find
activate_prepared-active_example =
    activate_prepared-active none prepared (some 1) (some 7) 50 db db-IsSound plan db_after
      activation

activate_prepared_total_example :
    (p : ActivationPlan ℕ) × (done : RegistryDb) × (activate_prepared ℕ none prepared
        (some 1)
        (some 7)
        50
        db
      ≡ ok (p, done))
unfolding find validate_target integrate
activate_prepared_total_example =
    activate_prepared_total none prepared (some 1) (some 7) 50 db db-IsSound (model 2 ready) 7
      attempt refl refl refl refl refl refl

abbrev job : ℕ → TrainingJob
job id = record {
  job_id = id;
  idempotency_key = 3;
  data_version = "d";
  data_manifest_checksum = sum;
  config_checksum = sum;
  purpose = quality_evaluation;
  evaluation_comparability = comparable;
  activation_eligible = true;
  status = queued;
  failure_reason = none;
  created_at = 0;
  completed_at = none;
}

abbrev with_job : RegistryDb
with_job = record db { jobs = job 1 ∷ [] }

enqueued : enqueue_job (job 1) db ≡ ok (job 1, with_job)
unfolding enqueue_job find
enqueued = refl

no_jobs : AreUnique db.jobs
no_jobs = record { ids = tt; keys = tt }

enqueue_job-again_example : enqueue_job (job 2) with_job ≡ (
    if same_identity (job 1) (job 2)
    then ok (job 1, with_job)
    else err (
        api_error 409 "training_job_idempotency_conflict"
          "idempotency_key has different training job content"))
unfolding validate_job_eligibility
enqueue_job-again_example =
    enqueue_job-again (job 1) (job 1) db with_job no_jobs enqueued (job 2) refl refl

-- The text of a refused transition.
abbrev arrow : String → String → String
arrow a b = "invalid"

Step-Follows_example : All (Continues db_after) db.models
Step-Follows_example =
    Step-Follows {transition = arrow} (record { models = db-IsSound; jobs = no_jobs })
      (activates none prepared (some 1) (some 7) 50 plan activation)

abbrev idle : RegistryDb
idle = record { models = model 4 training ∷ []; jobs = []; attempts = [] }

path_to_active_lem_example :
    (done : RegistryDb) × (transition_all arrow 4 (path_to_active training) idle ≡ ok done)
    × Serves arrow 4 done
unfolding find other_active model_checks
path_to_active_lem_example =
    path_to_active_lem arrow 4 training (model 4 training) idle
      (record { found = refl; eligible = refl; alone = refl; checks = refl }) refl (λ e. cc)

transition_model-conflict_example : transition_model arrow 2 active none db ≡ (
    if other_active 2 db.models
    then err integrity_error
    else ok (
      record (model 2 ready) { status = active; failure_reason = none },
      record db {
        models =
            replace
              (λ m. m.model_version)
              (record (model 2 ready) { status = active; failure_reason = none })
              db.models;
      },
    ))
unfolding find model_checks
transition_model-conflict_example =
    transition_model-conflict arrow 2 (model 2 ready) none db refl refl refl refl

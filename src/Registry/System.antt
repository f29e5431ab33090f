-- ===== src/Registry/System.antt =====
-- Sequences of committed operations on the registry (apps/api/app/models_registry).
use microlens_recsys_mvp.Prelude.{ℕ, String, ◌≡◌, Option, Result, ok}
use microlens_recsys_mvp.Registry.Rows.{
  ModelStatus, TrainingJobStatus, ModelVersion, TrainingJob, ModelActivationAttempt, RegistryDb,
}
use microlens_recsys_mvp.Registry.Repository.{add_model, transition_model}
use microlens_recsys_mvp.Registry.Jobs.{enqueue_job, transition_job}
use microlens_recsys_mvp.Registry.Activation.{
  PreparedActivation, ActivationPlan, begin_attempt, record_failure, record_success,
  activate_prepared,
}
use microlens_recsys_mvp.Registry.OneActive.{flush_model-IsSound}
use microlens_recsys_mvp.Registry.JobKeys.{enqueue_job-AreUnique, transition_job-AreUnique}
use microlens_recsys_mvp.Registry.Kept.{
  IsRegular, with_models, with_jobs, flush_model-jobs, add_model-IsRegular, transition_model-ok,
  Same-IsRegular, begin_attempt-Same, record_success-Same, record_failure-IsRegular,
  activate_prepared-IsRegular,
}

-- One operation that commits, by any caller and with any arguments.
pub data Step (Bundle : Type 0) (transition : String → String → String)
    : RegistryDb → RegistryDb → Type 0 where
  adds :
      {db db' : RegistryDb} (m n : ModelVersion)
      → add_model m db ≡ ok (n, db')
      → Step Bundle transition db db'
  transitions :
      {db db' : RegistryDb} (version : ℕ) (target : ModelStatus) (reason : Option String)
      (m : ModelVersion)
      → transition_model transition version target reason db ≡ ok (m, db')
      → Step Bundle transition db db'
  enqueues :
      {db db' : RegistryDb} (j found : TrainingJob)
      → enqueue_job j db ≡ ok (found, db')
      → Step Bundle transition db db'
  moves :
      {db db' : RegistryDb} (id : ℕ) (target : TrainingJobStatus) (reason : Option String)
      (j : TrainingJob)
      → transition_job transition id target reason db ≡ ok (j, db')
      → Step Bundle transition db db'
  begins :
      {db db' : RegistryDb} (id version : ℕ) (expected : Option ℕ) (now : ℕ)
      (a : ModelActivationAttempt)
      → begin_attempt id version expected now db ≡ ok (a, db')
      → Step Bundle transition db db'
  fails :
      {db db' : RegistryDb} (id : ℕ) (code reason joined : String) (now : ℕ)
      → record_failure id code reason joined now db ≡ ok db'
      → Step Bundle transition db db'
  succeeds :
      {db db' : RegistryDb} (id now : ℕ)
      → record_success id now db ≡ ok db'
      → Step Bundle transition db db'
  activates :
      {db db' : RegistryDb} (integrator : Option (Bundle → Result (Unit {0})))
      (prepared : PreparedActivation Bundle) (expected attempt_id : Option ℕ) (now : ℕ)
      (plan : ActivationPlan Bundle)
      → activate_prepared Bundle integrator prepared expected attempt_id now db ≡ ok (plan, db')
      → Step Bundle transition db db'

pub data Reach (Bundle : Type 0) (transition : String → String → String) (db : RegistryDb)
    : RegistryDb → Type 0 where
  here : Reach Bundle transition db db
  next :
      {mid after : RegistryDb}
      → Reach Bundle transition db mid
      → Step Bundle transition mid after
      → Reach Bundle transition db after

-- Every operation keeps the tables regular.
Step-IsRegular :
    {Bundle : Type 0} {transition : String → String → String} {db db' : RegistryDb}
    → Step Bundle transition db db'
    → IsRegular db
    → IsRegular db'
Step-IsRegular {db} {db'} (adds m n h) r = add_model-IsRegular m n db db' r h
Step-IsRegular {transition} {db} {db'} (transitions version target reason m h) r =
    let (old, found, edge, eligible, row, done) =
      transition_model-ok transition version target reason m db db' h in
    with_models db db' r (flush_model-IsSound m db db' r.models done)
      (flush_model-jobs m db db' done)
Step-IsRegular {db} {db'} (enqueues j found h) r =
    with_jobs db db' r (enqueue_job-AreUnique j found db db' r.jobs h)
Step-IsRegular {transition} {db} {db'} (moves id target reason j h) r =
    with_jobs db db' r (transition_job-AreUnique transition id target reason db j db' r.jobs h)
Step-IsRegular {db} {db'} (begins id version expected now a h) r =
    Same-IsRegular db db' r (begin_attempt-Same id version expected now a db db' h)
Step-IsRegular {db} {db'} (fails id code reason joined now h) r =
    record_failure-IsRegular id code reason joined now db db' r h
Step-IsRegular {db} {db'} (succeeds id now h) r =
    Same-IsRegular db db' r (record_success-Same id now db db' h)
Step-IsRegular {db} {db'} (activates integrator prepared expected attempt_id now plan h) r =
    activate_prepared-IsRegular integrator prepared expected attempt_id now plan db db' r h

-- From regular tables every sequence of committed operations leads to regular ones: model versions
-- have distinct keys and pass the checks of their table, at most one model is ACTIVE, and training
-- jobs have distinct ids and distinct idempotency keys. The operations are those of the repository
-- and of the activation service, with any arguments and any integrator.
pub Reach-IsRegular :
    {Bundle : Type 0} {transition : String → String → String} {db db' : RegistryDb}
    → Reach Bundle transition db db'
    → IsRegular db
    → IsRegular db'
Reach-IsRegular here r = r
Reach-IsRegular (next before step) r = Step-IsRegular step (Reach-IsRegular before r)

-- ===== src/Registry/Kept.antt =====
-- What each operation on the registry keeps (apps/api/app/models_registry).
use microlens_recsys_mvp.Prelude.{
  ℕ, String, true, ◌≡◌, sym, ap, subst, ◌∙◌, inl, inr, Option, none, some, ◌==◌, not, is_some,
  Bool-cases, integrity_error, value_error, lookup_error, Result, ok, require, guard, >>=-eq-ok,
  arith,
}
use microlens_recsys_mvp.Prelude.Table.{find}
use microlens_recsys_mvp.Registry.Rows.{
  archived, ModelStatus, ModelVersion, ModelActivationAttempt, RegistryDb, find_model, attempt_key,
  active_model, flush_model, flush_attempt, insert_model,
}
use microlens_recsys_mvp.Registry.Repository.{
  model_transitions, status_value, status_mem, validate_eligibility, add_model, require_eligible,
  transition_model,
}
use microlens_recsys_mvp.Registry.Activation.{
  PreparedActivation, ActivationPlan, model_not_found, attempt_not_found, begin_attempt, mark_model,
  record_failure, record_success, archive_active, success_of, activate_prepared,
}
use microlens_recsys_mvp.Registry.OneActive.{IsSound, flush_model-IsSound, insert_model-IsSound}
use microlens_recsys_mvp.Registry.Publish.{activate_prepared-Steps}
use microlens_recsys_mvp.Registry.JobKeys.{AreUnique}

-- The models are sound and the jobs are unique.
pub record IsRegular (db : RegistryDb) : Type 0 where
  pub models : IsSound db.models
  pub jobs : AreUnique db.jobs

pub with_models :
    (db db' : RegistryDb) → IsRegular db → IsSound db'.models → db'.jobs ≡ db.jobs → IsRegular db'
with_models db db' r s e = record { models = s; jobs = subst AreUnique (sym e) r.jobs }

pub with_jobs :
    (db db' : RegistryDb)
    → IsRegular db
    → (AreUnique db'.jobs) × (db'.models ≡ db.models)
    → IsRegular db'
with_jobs db db' r u = record { models = subst IsSound (sym u.1) r.models; jobs = u.0 }

pub flush_model-jobs :
    (m : ModelVersion) (db db' : RegistryDb) → flush_model m db ≡ ok db' → db'.jobs ≡ db.jobs
unfolding flush_model
flush_model-jobs m db db' h = ground arith

insert_model-jobs :
    (m : ModelVersion) (db db' : RegistryDb) → insert_model m db ≡ ok db' → db'.jobs ≡ db.jobs
unfolding insert_model
insert_model-jobs m db db' h = ground arith

pub add_model-IsRegular :
    (m n : ModelVersion) (db db' : RegistryDb)
    → IsRegular db
    → add_model m db ≡ ok (n, db')
    → IsRegular db'
unfolding add_model
add_model-IsRegular m n db db' r h =
    let (u, e, h1) = >>=-eq-ok (validate_eligibility m) _ h in
    let (written, e1, h2) = >>=-eq-ok (insert_model m db) _ h1 in
    let same : written ≡ db' = ground arith in
    let done : insert_model m db ≡ ok db' = e1 ∙ ap (λ d. ok d) same in
    with_models db db' r (insert_model-IsSound m db db' r.models done)
      (insert_model-jobs m db db' done)

module _ (transition : String → String → String) where
  pub transition_model-ok :
      (version : ℕ) (target : ModelStatus) (reason : Option String) (m : ModelVersion)
      (db db' : RegistryDb)
      → transition_model transition version target reason db ≡ ok (m, db')
      → (old : ModelVersion) × (find_model version db.models ≡ some old)
        × (status_mem target (model_transitions old.status) ≡ true)
        × (require_eligible target old ≡ ok tt)
        × (m ≡ record old { status = target; failure_reason = reason })
        × (flush_model m db ≡ ok db')
  unfolding transition_model
  transition_model-ok version target reason m db db' h =
      let (old, e, h1) =
        >>=-eq-ok
          (require (find_model version db.models) (lookup_error "model version does not exist")) _
          h in
      let (u, e1, h2) =
        >>=-eq-ok
          (guard (status_mem target (model_transitions old.status))
            (value_error (transition (status_value old.status) (status_value target))))
          _ h1 in
      let (v, e2, h3) = >>=-eq-ok (require_eligible target old) _ h2 in
      let (written, e3, h4) =
        >>=-eq-ok (flush_model (record old { status = target; failure_reason = reason }) db) _ h3 in
      let row : m ≡ record old { status = target; failure_reason = reason } = ground arith in
      let same : written ≡ db' = ground arith in
      (
        old,
        ground arith,
        ground arith,
        e2,
        row,
        subst (λ x. flush_model x db ≡ ok db') (sym row) (e3 ∙ ap (λ d. ok d) same),
      )

-- The tables of models and jobs are left as they are.
abbrev pub Same : (db db' : RegistryDb) → Type 0
Same db db' = (db'.models ≡ db.models) × (db'.jobs ≡ db.jobs)

pub Same-IsRegular : (db db' : RegistryDb) → IsRegular db → Same db db' → IsRegular db'
Same-IsRegular db db' r s = record {
  models = subst IsSound (sym s.0) r.models;
  jobs = subst AreUnique (sym s.1) r.jobs;
}

pub flush_attempt-Same :
    (a : ModelActivationAttempt) (db db' : RegistryDb) → flush_attempt a db ≡ ok db' → Same db db'
unfolding flush_attempt
flush_attempt-Same a db db' h = ground arith

pub begin_attempt-Same :
    (id version : ℕ) (expected : Option ℕ) (now : ℕ) (a : ModelActivationAttempt)
    (db db' : RegistryDb)
    → begin_attempt id version expected now db ≡ ok (a, db')
    → Same db db'
unfolding begin_attempt
begin_attempt-Same id version expected now a db db' h =
    let (m, e, h1) = >>=-eq-ok (require (find_model version db.models) model_not_found) _ h in
    let (u, e1, h2) =
      >>=-eq-ok (guard (not (is_some (find attempt_key id db.attempts))) integrity_error) _ h1 in
    ground arith

pub record_success-Same :
    (id now : ℕ) (db db' : RegistryDb) → record_success id now db ≡ ok db' → Same db db'
unfolding record_success
record_success-Same id now db db' h =
    let (a, e, h1) = >>=-eq-ok (require (find attempt_key id db.attempts) attempt_not_found) _ h in
    flush_attempt-Same _ db db' h1

success_of-Same :
    (attempt_id : Option ℕ) (now : ℕ) (db db' : RegistryDb)
    → success_of attempt_id now db ≡ ok db'
    → Same db db'
success_of-Same none now db db' h = ground arith
success_of-Same (some id) now db db' h = record_success-Same id now db db' h

flush_model-IsRegular :
    (m : ModelVersion) (db db' : RegistryDb)
    → IsRegular db
    → flush_model m db ≡ ok db'
    → IsRegular db'
flush_model-IsRegular m db db' r h =
    with_models db db' r (flush_model-IsSound m db db' r.models h) (flush_model-jobs m db db' h)

mark_model-IsRegular :
    (o : Option ModelVersion) (joined : String) (db db' : RegistryDb)
    → IsRegular db
    → mark_model o joined db ≡ ok db'
    → IsRegular db'
mark_model-IsRegular none joined db db' r h = subst IsRegular (ground arith) r
mark_model-IsRegular (some m) joined db db' r h = flush_model-IsRegular _ db db' r h

pub record_failure-IsRegular :
    (id : ℕ) (code reason joined : String) (now : ℕ) (db db' : RegistryDb)
    → IsRegular db
    → record_failure id code reason joined now db ≡ ok db'
    → IsRegular db'
unfolding record_failure
record_failure-IsRegular id code reason joined now db db' r h =
    let (a, e, h1) = >>=-eq-ok (require (find attempt_key id db.attempts) attempt_not_found) _ h in
    let (written, e1, h2) = >>=-eq-ok (flush_attempt _ db) _ h1 in
    mark_model-IsRegular (find_model a.model_version written.models) joined written db'
      (Same-IsRegular db written r (flush_attempt-Same _ db written e1)) h2

archive_active-IsRegular :
    (o : Option ModelVersion) (version : ℕ) (db db' : RegistryDb)
    → IsRegular db
    → archive_active o version db ≡ ok db'
    → IsRegular db'
archive_active-IsRegular none version db db' r h = subst IsRegular (ground arith) r
archive_active-IsRegular (some m) version db db' r h =
    elim (Bool-cases (m.model_version == version)) [
      | inl same ↦ subst IsRegular (ground arith) r
      | inr other ↦ flush_model-IsRegular (record m { status = archived }) db db' r (ground arith)
    ]

pub activate_prepared-IsRegular :
    {Bundle : Type 0} (integrator : Option (Bundle → Result (Unit {0})))
    (prepared : PreparedActivation Bundle) (expected attempt_id : Option ℕ) (now : ℕ)
    (plan : ActivationPlan Bundle) (db db' : RegistryDb)
    → IsRegular db
    → activate_prepared Bundle integrator prepared expected attempt_id now db ≡ ok (plan, db')
    → IsRegular db'
activate_prepared-IsRegular integrator prepared expected attempt_id now plan db db' r h =
    let (t, st) =
      activate_prepared-Steps integrator prepared expected attempt_id now db plan db' h in
    let shelf : IsRegular st.shelf =
      archive_active-IsRegular (active_model db.models) t.model_version db st.shelf r st.shelved in
    Same-IsRegular st.written db' (flush_model-IsRegular _ st.shelf st.written shelf st.flushed)
      (success_of-Same attempt_id now st.written db' st.recorded)

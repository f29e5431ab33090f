-- ===== src/Durable/Behaviour/Failures.antt =====
-- Reports of failure: `fail` (apps/api/app/async_runtime/repository.py).
use text.Mathlib.TextPositions.{eq_refl}
use microlens_recsys_mvp.Prelude.{
  ℕ, ◌+◌, ◌*◌, String, Bool, true, false, ◌&&◌, ◌≡◌, ◌⊎◌, refl, sym, ap, ◌∙◌, Option, none, some,
  pos, Bool-cases, inl, inr, ok, Result, ltb, ◌>>=◌, >>=-eq-ok, if◌then◌else◌, arith,
}
use microlens_recsys_mvp.Durable.Domain.{
  AttemptState, aware, DurableClaim, Completion, JobState, queued, failed, seconds, require_aware,
}
use microlens_recsys_mvp.Durable.Rows.{
  JobRow, AttemptRow, Db, attempt_failed, find_job, find_attempt, write_job, write_attempt,
}
use microlens_recsys_mvp.Durable.Repository.Common.{add_state_outbox, owned_rows}
use microlens_recsys_mvp.Durable.Repository.Work.{
  end_attempt, is_text, fail, fail_rows, fail_owned, repeat_failure, requeue_job, fail_job,
}
use microlens_recsys_mvp.Durable.Safety.Owned.{Owns, owned_rows-Owns}
use microlens_recsys_mvp.Durable.Behaviour.Announce.{announced_result}
use microlens_recsys_mvp.Durable.Behaviour.Repeats.{job_written, attempt_written}

module _ (claim : DurableClaim) (message : String) (retryable : Bool) where
  -- The job's next row: queued again after the delay while the job may be retried and the claim is
  -- not its last attempt, and failed otherwise.
  abbrev pub next_job : JobRow → ℕ → ℕ → JobRow
  next_job job delay t =
      if retryable && ltb claim.attempt job.max_attempts
      then record job {
        status = queued;
        due_at = t + delay * 1000000;
        completed_at = none;
        last_error = some message;
        updated_at = t;
      }
      else record job {
        status = failed;
        completed_at = some t;
        last_error = some message;
        updated_at = t;
      }

  -- What a first report of failure has written.
  pub record Failed (db db' : Db) (delay t : ℕ) (x : Completion) : Type 0 where
    pub job : JobRow
    pub attempt : AttemptRow
    pub owner : Owns claim t job attempt
    pub before : find_job claim.job.job_id db.jobs ≡ some job
    pub job_after : find_job claim.job.job_id db'.jobs ≡ some (next_job job delay t)
    pub attempt_after :
        find_attempt claim.attempt_id db'.attempts
        ≡ some (record attempt {
          status = AttemptState.failed;
          error = some message;
          heartbeat_at = t;
          lease_expires_at = none;
          completed_at = some t;
        })
    pub answer : x ≡ record { state = (next_job job delay t).status; duplicate = false }

  owned-Failed :
      (db db' : Db) (job : JobRow) (attempt : AttemptRow) (delay t : ℕ) (x : Completion)
      → find_job claim.job.job_id db.jobs ≡ some job
      → find_attempt claim.attempt_id db.attempts ≡ some attempt
      → Owns claim t job attempt
      → fail_owned claim message retryable delay t db (job, attempt) ≡ ok (x, db')
      → Failed db db' delay t x
  unfolding fail_owned
  owned-Failed db db' job attempt delay t x at_job at owns e =
      elim (Bool-cases (retryable && ltb claim.attempt job.max_attempts)) [
        | inl again ↦
            written (requeue_job job message (t + seconds delay) t) queued refl refl (rw again)
              (rw again at e)
        | inr dead ↦ written (fail_job job message t) failed refl refl (rw dead) (rw dead at e)
      ]
    where
      ended : AttemptRow
      ended = end_attempt attempt AttemptState.failed (some message) t

      written :
          (new : JobRow) (st : JobState)
          → new.job_id ≡ job.job_id
          → new.status ≡ st
          → next_job job delay t ≡ new
          → ◌≡◌ {A = Result (Completion × Db)}
              (add_state_outbox new st t (write_job new (write_attempt ended db)) >>= λ d.
                ok (record { state = st; duplicate = false }, d))
              (ok (x, db'))
          → Failed db db' delay t x
      written new st same status chosen e' =
          let (answer, jobs, attempts) =
            announced_result new st t (write_job new (write_attempt ended db)) db'
              (record { state = st; duplicate = false }) x e' in
          record {
            job = job;
            attempt = attempt;
            owner = owns;
            before = at_job;
            job_after =
                ap (find_job claim.job.job_id) jobs
                ∙ job_written claim db job new attempt ended at_job at same refl
                ∙ ap some (sym chosen);
            attempt_after =
                ap (find_attempt claim.attempt_id) attempts
                ∙ attempt_written claim db job new attempt ended at_job at same refl;
            answer = ground arith;
          }

  -- The claim's attempt has failed with this message, and its job is in the table.
  record Reported (db : Db) (x : Completion) : Type 0 where
    job : JobRow
    attempt : AttemptRow
    at_job : find_job claim.job.job_id db.jobs ≡ some job
    at_attempt : find_attempt claim.attempt_id db.attempts ≡ some attempt
    done : attempt_failed attempt.status ≡ true
    same_error : is_text message attempt.error ≡ true
    answer : x.state ≡ job.status

  again :
      (db : Db) (delay t : ℕ) (x : Completion)
      → Reported db x
      → fail_rows claim message retryable delay t
          (find_job claim.job.job_id db.jobs)
          (find_attempt claim.attempt_id db.attempts)
          db
        ≡ ok (record { state = x.state; duplicate = true }, db)
  unfolding fail_rows
  again db delay t x r = rw (r.at_job, r.at_attempt, r.done, r.same_error, r.answer)

  repeated-Reported :
      (db db' : Db) (delay t : ℕ) (j : Option JobRow) (attempt : AttemptRow) (x : Completion)
      → find_job claim.job.job_id db.jobs ≡ j
      → find_attempt claim.attempt_id db.attempts ≡ some attempt
      → attempt_failed attempt.status ≡ true
      → repeat_failure claim message retryable delay t j attempt db ≡ ok (x, db')
      → Reported db' x × (x.duplicate ≡ true)
  repeated-Reported db db' delay t none attempt x at_job at done e = absurd (ground arith)
  repeated-Reported db db' delay t (some job) attempt x at_job at done e =
      let same : db ≡ db' = ground arith in
      (
        record {
          job = job;
          attempt = attempt;
          at_job = ap (λ (d : Db). find_job claim.job.job_id d.jobs) (sym same) ∙ at_job;
          at_attempt = ap (λ (d : Db). find_attempt claim.attempt_id d.attempts) (sym same) ∙ at;
          done = done;
          same_error = ground arith;
          answer = ground arith;
        },
        ground arith,
      )

  rows_cases :
      (db db' : Db) (delay t : ℕ) (a : Option AttemptRow) (x : Completion)
      → find_attempt claim.attempt_id db.attempts ≡ a
      → fail_rows claim message retryable delay t (find_job claim.job.job_id db.jobs) a db
        ≡ ok (x, db')
      → (Reported db' x × (x.duplicate ≡ true)) ⊎ Failed db db' delay t x
  unfolding fail_rows
  rows_cases db db' delay t none x at e =
      let (rows, owned, _) =
        >>=-eq-ok (owned_rows (find_job claim.job.job_id db.jobs) none claim t) _ e in
      let (_, absent, _) = owned_rows-Owns _ none claim t rows.0 rows.1 owned in absurd (cc absent)
  rows_cases db db' delay t (some attempt) x at e =
      elim (Bool-cases (attempt_failed attempt.status)) [
        | inl done ↦
            let answer = repeated-Reported db db' delay t _ attempt x refl at done (rw done at e) in
            inl (answer.0, answer.1)
        | inr first ↦
            let ((job, a), owned, rest) =
              >>=-eq-ok (owned_rows (find_job claim.job.job_id db.jobs) (some attempt) claim t) _
                (rw first at e) in
            let (at_job, same, owns) = owned_rows-Owns _ _ claim t job a owned in
            inr (owned-Failed db db' job a delay t x at_job (at ∙ same) owns rest)
      ]

  Failed-Reported :
      (db db' : Db) (delay t : ℕ) (x : Completion) → Failed db db' delay t x → Reported db' x
  Failed-Reported db db' delay t x f = record {
    job = next_job f.job delay t;
    attempt = end_attempt f.attempt AttemptState.failed (some message) t;
    at_job = f.job_after;
    at_attempt = f.attempt_after;
    done = refl;
    same_error = eq_refl message;
    answer = ap Completion.state f.answer;
  }

  -- The first report of a failure that is committed comes from the owner of the attempt. It leaves
  -- the attempt FAILED with the message, and the message is the job's last error; the job is queued
  -- again, due after the delay in seconds, while the failure may be retried and the claim is not
  -- the last attempt allowed, and FAILED with its completion time otherwise; the answer is the new
  -- status of the job.
  pub fail_first :
      (db db' : Db) (delay t : ℕ) (x : Completion)
      → fail claim message retryable (pos delay) (aware t) db ≡ ok (x, db')
      → x.duplicate ≡ false
      → Failed db db' delay t x
  unfolding fail require_aware
  fail_first db db' delay t x e first =
      elim (rows_cases db db' delay t (find_attempt claim.attempt_id db.attempts) x refl e) [
        | inl (_, repeat) ↦ absurd (cc (first, repeat))
        | inr f ↦ f
      ]

  -- A report of failure that has been committed may be repeated with the same message, at any time:
  -- the answer is a duplicate with the same state, and the tables stay as they are.
  pub fail_twice :
      (db db' : Db) (delay later t : ℕ) (x : Completion)
      → fail claim message retryable (pos delay) (aware t) db ≡ ok (x, db')
      → fail claim message retryable (pos delay) (aware later) db'
        ≡ ok (record { state = x.state; duplicate = true }, db')
  unfolding fail require_aware
  fail_twice db db' delay later t x e =
      elim (rows_cases db db' delay t (find_attempt claim.attempt_id db.attempts) x refl e) [
        | inl (r, _) ↦ again db' delay later x r
        | inr f ↦ again db' delay later x (Failed-Reported db db' delay t x f)
      ]

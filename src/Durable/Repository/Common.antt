-- ===== src/Durable/Repository/Common.antt =====
-- `_add_state_outbox`, `_mark_exhausted` and `_owned_attempt_rows` of the repository.
use microlens_recsys_mvp.Prelude.{
  ℕ, Bool, ◌||◌, not, Option, none, some, ◌==◌, leb, str_eq, if◌then◌else◌, Result, ok, err,
  lease_lost,
}
use microlens_recsys_mvp.Durable.Domain.{JobState, failed, DurableClaim}
use microlens_recsys_mvp.Durable.Rows.{
  JobRow, AttemptRow, Db, is_running, attempt_running, find_job, find_attempt, insert_outbox,
}

unfoldable pub add_state_outbox : JobRow → JobState → ℕ → Db → Result Db
add_state_outbox job state now db =
    insert_outbox (record { job_id = job.job_id; state = state; count = job.attempt_count })
      (record {
        job_id = job.job_id;
        task_name = job.task_name;
        state = some state;
        attempt = some job.attempt_count;
      })
      now db

unfoldable pub mark_exhausted : JobRow → ℕ → JobRow
mark_exhausted job now = record job {
  status = failed;
  last_error = some "max_attempts_exhausted";
  updated_at = now;
  completed_at = some now;
}

-- The lease is over, or there is none.
abbrev pub lease_over : Option ℕ → ℕ → Bool
lease_over none now = Bool.true
lease_over (some t) now = leb t now

-- The rows behind a claim: the claim must hold the running attempt's fence, within its lease.
unfoldable pub owned_rows :
    Option JobRow → Option AttemptRow → DurableClaim → ℕ → Result (JobRow × AttemptRow)
owned_rows (some job) (some attempt) claim now =
    if not (attempt.job_id == claim.job.job_id)
    then err (lease_lost "job attempt does not exist")
    else if (not (is_running job.status) || not (attempt_running attempt.status))
        || (not (str_eq attempt.worker_id claim.worker_id)
            || not (attempt.fence_token == claim.fence_token))
    then err (lease_lost "worker no longer owns this attempt")
    else if lease_over attempt.lease_expires_at now
    then err (lease_lost "worker lease expired")
    else ok (job, attempt)
owned_rows _ _ claim now = err (lease_lost "job attempt does not exist")

unfoldable pub owned_attempt : DurableClaim → ℕ → Db → Result (JobRow × AttemptRow)
unfolding owned_rows
owned_attempt claim now db =
    owned_rows (find_job claim.job.job_id db.jobs) (find_attempt claim.attempt_id db.attempts) claim
      now

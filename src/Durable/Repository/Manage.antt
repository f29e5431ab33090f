-- ===== src/Durable/Repository/Manage.antt =====
-- `cancel` and `retry`: what an operator does with a job.
use microlens_recsys_mvp.Prelude.{
  ℕ, Bool, true, false, ◌&&◌, not, Option, none, some, List, ◌==◌, leb, select, head?,
  if◌then◌else◌, lookup_error, idempotency_conflict, Result, ok, err, guard, require, ◌>>=◌, ◌>>◌,
}
use microlens_recsys_mvp.Durable.Domain.{
  AttemptState, DateTime, DurableJob, Completion, queued, cancelled, require_aware,
}
use microlens_recsys_mvp.Durable.Rows.{
  JobRow, AttemptRow, Db, is_succeeded, is_failed, is_cancelled, attempt_running, find_job,
  write_job, write_attempt, job_view,
}
use microlens_recsys_mvp.Durable.Repository.Common.{add_state_outbox}
use microlens_recsys_mvp.Durable.Repository.Work.{end_attempt}

abbrev pub runs_for : ℕ → AttemptRow → Bool
runs_for job_id a = a.job_id == job_id && attempt_running a.status

unfoldable pub running_attempt : ℕ → List AttemptRow → Option AttemptRow
running_attempt job_id rows = head? (select (runs_for job_id) rows)

abbrev pub cancel_attempt : Option AttemptRow → ℕ → Db → Db
cancel_attempt none event_time db = db
cancel_attempt (some a) event_time db =
    write_attempt (end_attempt a AttemptState.cancelled (some "cancelled") event_time) db

abbrev pub cancelled_job : JobRow → ℕ → JobRow
cancelled_job job event_time = record job {
  status = cancelled;
  last_error = some "cancelled";
  updated_at = event_time;
  completed_at = some event_time;
}

unfoldable pub cancel_open : JobRow → ℕ → Db → Result (Completion × Db)
cancel_open job event_time db = do
  let stopped = cancelled_job job event_time
  let db' = cancel_attempt (running_attempt job.job_id db.attempts) event_time db
  db'' ← add_state_outbox stopped cancelled event_time (write_job stopped db')
  ok (record { state = cancelled; duplicate = false }, db'')

unfoldable pub cancel_row : JobRow → ℕ → Db → Result (Completion × Db)
unfolding cancel_open
cancel_row job event_time db =
    if is_cancelled job.status
    then ok (record { state = cancelled; duplicate = true }, db)
    else if is_succeeded job.status
    then err (idempotency_conflict "cannot cancel terminal succeeded job")
    else if is_failed job.status
    then err (idempotency_conflict "cannot cancel terminal failed job")
    else cancel_open job event_time db

unfoldable pub cancel : ℕ → DateTime → Db → Result (Completion × Db)
unfolding require_aware cancel_row running_attempt add_state_outbox
cancel job_id now db = do
  event_time ← require_aware now "now must be timezone-aware"
  job ← require (find_job job_id db.jobs) (lookup_error "job does not exist")
  cancel_row job event_time db

abbrev pub retried_job : JobRow → ℕ → ℕ → JobRow
retried_job job retry_at event_time = record job {
  status = queued;
  due_at = retry_at;
  completed_at = none;
  updated_at = event_time;
}

unfoldable pub retry_row : JobRow → ℕ → ℕ → Db → Result (DurableJob × Db)
retry_row job retry_at event_time db = do
  guard (is_failed job.status) (idempotency_conflict "only failed jobs can be retried")
  guard (not (leb job.max_attempts job.attempt_count))
      (idempotency_conflict "job exhausted its configured attempts")
  let again = retried_job job retry_at event_time
  db' ← add_state_outbox again queued event_time (write_job again db)
  ok (job_view again, db')

unfoldable pub retry : ℕ → DateTime → DateTime → Db → Result (DurableJob × Db)
unfolding require_aware retry_row add_state_outbox job_view
retry job_id due_at now db = do
  event_time ← require_aware now "now must be timezone-aware"
  retry_at ← require_aware due_at "due_at must be timezone-aware"
  job ← require (find_job job_id db.jobs) (lookup_error "job does not exist")
  retry_row job retry_at event_time db

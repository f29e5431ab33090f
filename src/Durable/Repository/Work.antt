-- ===== src/Durable/Repository/Work.antt =====
-- `heartbeat`, `succeed` and `fail`: what a worker does with the attempt it has claimed.
use microlens_recsys_mvp.Prelude.{
  ℕ, ◌+◌, String, Bool, true, false, ◌&&◌, not, Option, none, some, ℤ, ltb, str_eq, if◌then◌else◌,
  value_error, lease_lost, idempotency_conflict, Result, ok, err, positive, nonnegative, ◌>>=◌,
}
use microlens_recsys_mvp.Durable.Domain.{
  AttemptState, Canonical, payload_json, DateTime, DurableClaim, Completion, queued, succeeded,
  failed, seconds, require_aware, canonical_json,
}
use microlens_recsys_mvp.Durable.Rows.{
  JobRow, AttemptRow, Db, is_succeeded, attempt_succeeded, attempt_failed, find_job, find_attempt,
  write_job, write_attempt,
}
use microlens_recsys_mvp.Durable.Repository.Common.{add_state_outbox, owned_rows, owned_attempt}

abbrev pub beat_attempt : AttemptRow → ℕ → ℕ → AttemptRow
beat_attempt a event_time lease_end = record a {
  heartbeat_at = event_time;
  lease_expires_at = some lease_end;
}

abbrev pub beat_rows : ℕ → ℕ → Db → JobRow × AttemptRow → ℕ × Db
beat_rows event_time lease_end db (job, attempt) = (
  lease_end,
  write_job (record job { updated_at = event_time })
      (write_attempt (beat_attempt attempt event_time lease_end) db),
)

unfoldable pub heartbeat : DurableClaim → DateTime → ℤ → Db → Result (ℕ × Db)
unfolding require_aware owned_attempt
heartbeat claim now lease_seconds db = do
  lease ← positive lease_seconds (value_error "lease_seconds must be positive")
  event_time ← require_aware now "now must be timezone-aware"
  rows ← owned_attempt claim event_time db
  ok (beat_rows event_time (event_time + seconds lease) db rows)

-- An attempt that ends: its lease is given up.
abbrev pub end_attempt : AttemptRow → AttemptState → Option String → ℕ → AttemptRow
end_attempt a state error event_time = record a {
  status = state;
  error = error;
  heartbeat_at = event_time;
  lease_expires_at = none;
  completed_at = some event_time;
}

abbrev pub succeed_job : JobRow → String → ℕ → JobRow
succeed_job job result event_time = record job {
  status = succeeded;
  result = some result;
  last_error = none;
  updated_at = event_time;
  completed_at = some event_time;
}

unfoldable pub succeed_owned : String → ℕ → Db → JobRow × AttemptRow → Result (Completion × Db)
succeed_owned result event_time db (job, attempt) = do
  let done = succeed_job job result event_time
  let ended = end_attempt attempt AttemptState.succeeded attempt.error event_time
  db' ← add_state_outbox done succeeded event_time (write_job done (write_attempt ended db))
  ok (record { state = succeeded; duplicate = false }, db')

-- A JSON column with no value is `None`, whose canonical form is `null`.
abbrev pub json_text : Option String → String
json_text none = "null"
json_text (some text) = text

module _ (sha256 : Canonical → String) where
  -- The job and the attempt have both succeeded already: a repeated report must agree.
  abbrev pub repeat_success : JobRow → String → Db → Result (Completion × Db)
  repeat_success job result db =
      if str_eq (sha256 (payload_json (json_text job.result))) (sha256 (payload_json result))
      then ok (record { state = succeeded; duplicate = true }, db)
      else err (idempotency_conflict "completed job has a different result")

  abbrev pub both_succeeded : Option JobRow → Option AttemptRow → Bool
  both_succeeded (some job) (some attempt) =
      is_succeeded job.status && attempt_succeeded attempt.status
  both_succeeded _ _ = false

  abbrev pub repeat_or_err : Option JobRow → String → Db → Result (Completion × Db)
  repeat_or_err none result db = err (lease_lost "job attempt does not exist")
  repeat_or_err (some job) result db = repeat_success job result db

  unfoldable pub succeed_rows :
      Option JobRow → Option AttemptRow → DurableClaim → String → ℕ → Db → Result (Completion × Db)
  succeed_rows job attempt claim result event_time db =
      if both_succeeded job attempt
      then repeat_or_err job result db
      else (owned_rows job attempt claim event_time >>= λ rows.
          succeed_owned result event_time db rows)

  unfoldable pub succeed : DurableClaim → Option String → DateTime → Db → Result (Completion × Db)
  unfolding require_aware canonical_json succeed_rows succeed_owned owned_rows add_state_outbox
  succeed claim result now db = do
    text ← canonical_json result
    event_time ← require_aware now "now must be timezone-aware"
    succeed_rows (find_job claim.job.job_id db.jobs) (find_attempt claim.attempt_id db.attempts)
        claim text event_time db

abbrev pub requeue_job : JobRow → String → ℕ → ℕ → JobRow
requeue_job job message due event_time = record job {
  status = queued;
  due_at = due;
  completed_at = none;
  last_error = some message;
  updated_at = event_time;
}

abbrev pub fail_job : JobRow → String → ℕ → JobRow
fail_job job message event_time = record job {
  status = failed;
  completed_at = some event_time;
  last_error = some message;
  updated_at = event_time;
}

abbrev pub is_text : String → Option String → Bool
is_text message none = false
is_text message (some text) = str_eq text message

-- `message` is the text that `safe_error` makes of the exception.
module _ (claim : DurableClaim) (message : String) (retryable : Bool) (delay event_time : ℕ) where
  unfoldable pub fail_owned : Db → JobRow × AttemptRow → Result (Completion × Db)
  fail_owned db (job, attempt) =
      let ended = end_attempt attempt AttemptState.failed (some message) event_time in
      let db' = write_attempt ended db in
      let again = requeue_job job message (event_time + seconds delay) event_time in
      let dead = fail_job job message event_time in
      if retryable && ltb claim.attempt job.max_attempts
      then (add_state_outbox again queued event_time (write_job again db') >>= λ db''.
          ok (record { state = queued; duplicate = false }, db''))
      else (add_state_outbox dead failed event_time (write_job dead db') >>= λ db''.
          ok (record { state = failed; duplicate = false }, db''))

  -- The attempt has failed already.
  abbrev pub repeat_failure : Option JobRow → AttemptRow → Db → Result (Completion × Db)
  repeat_failure job attempt db =
      if not (is_text message attempt.error)
      then err (idempotency_conflict "failed attempt has a different error")
      else elim job [
        | none ↦ err (lease_lost "job no longer exists")
        | some row ↦ ok (record { state = row.status; duplicate = true }, db)
      ]

  unfoldable pub fail_rows : Option JobRow → Option AttemptRow → Db → Result (Completion × Db)
  fail_rows job none db = owned_rows job none claim event_time >>= λ rows. fail_owned db rows
  fail_rows job (some attempt) db =
      if attempt_failed attempt.status
      then repeat_failure job attempt db
      else (owned_rows job (some attempt) claim event_time >>= λ rows. fail_owned db rows)

unfoldable pub fail : DurableClaim → String → Bool → ℤ → DateTime → Db → Result (Completion × Db)
unfolding require_aware fail_rows fail_owned owned_rows add_state_outbox
fail claim message retryable retry_delay_seconds now db = do
  delay ← nonnegative retry_delay_seconds (value_error "retry_delay_seconds must be nonnegative")
  event_time ← require_aware now "now must be timezone-aware"
  fail_rows claim message retryable delay event_time (find_job claim.job.job_id db.jobs)
      (find_attempt claim.attempt_id db.attempts) db

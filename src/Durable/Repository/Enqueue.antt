-- ===== src/Durable/Repository/Enqueue.antt =====
-- `enqueue`, `_same_or_conflict` and `get`.
use microlens_recsys_mvp.Prelude.{
  ℕ, String, Bool, true, false, not, Option, none, some, ◌==◌, str_eq, if◌then◌else◌, Error, Result,
  ok, err, idempotency_conflict, ◌>>=◌,
}
use microlens_recsys_mvp.Durable.Domain.{
  Canonical, DateTime, JobSpec, DurableJob, fingerprint_input, require_aware, queued,
}
use microlens_recsys_mvp.Durable.Rows.{
  JobRow, Db, find_job, find_by_key, insert_job, insert_outbox, job_view,
}

-- The job id of the specification, if it has one, is not the row's.
abbrev other_id : Option ℕ → ℕ → Bool
other_id none row_id = false
other_id (some k) row_id = not (row_id == k)

-- `spec.job_id or uuid.uuid4()`
abbrev pub id_or : Option ℕ → ℕ → ℕ
id_or none fresh = fresh
id_or (some k) fresh = k

-- `sha256` is the digest of the value's canonical JSON.
module _ (sha256 : Canonical → String) where
  unfoldable pub same_or_conflict : JobRow → JobSpec → Result DurableJob
  same_or_conflict existing spec =
      if not (str_eq existing.payload_fingerprint (sha256 (fingerprint_input spec)))
      then err (idempotency_conflict "idempotency_key has different immutable job input")
      else if other_id spec.job_id existing.job_id
      then err (idempotency_conflict "idempotency_key is already bound to another job_id")
      else ok (job_view existing)

  abbrev pub new_job : JobSpec → ℕ → ℕ → JobRow
  new_job spec job_id event_time = record {
    job_id = job_id;
    idempotency_key = spec.idempotency_key;
    task_name = spec.task_name;
    payload = spec.payload;
    payload_fingerprint = sha256 (fingerprint_input spec);
    status = queued;
    due_at = spec.due_at;
    max_attempts = spec.max_attempts;
    attempt_count = 0;
    result = none;
    last_error = none;
    created_at = event_time;
    updated_at = event_time;
    completed_at = none;
  }

  -- The savepoint: both rows, or neither.
  unfoldable pub insert_both : JobRow → ℕ → Db → Result Db
  insert_both job event_time db = do
    db' ← insert_job job db
    insert_outbox (record { job_id = job.job_id; state = queued; count = 0 })
        (record { job_id = job.job_id; task_name = job.task_name; state = none; attempt = none })
        event_time db'

  -- What a second look at the key finds after the savepoint has failed.
  abbrev pub after_conflict :
      Option JobRow → JobSpec → Db → Error → Result ((DurableJob × Bool) × Db)
  after_conflict none spec db e = err e
  after_conflict (some existing) spec db e =
      same_or_conflict existing spec >>= λ view. ok ((view, false), db)

  abbrev pub after_savepoint : Result Db → JobRow → JobSpec → Db → Result ((DurableJob × Bool) × Db)
  after_savepoint (ok db') job spec db = ok ((job_view job, true), db')
  after_savepoint (err e) job spec db =
      after_conflict (find_by_key spec.idempotency_key db.jobs) spec db e

  abbrev pub enqueue_at : JobSpec → ℕ → ℕ → Option JobRow → Db → Result ((DurableJob × Bool) × Db)
  enqueue_at spec fresh event_time (some existing) db =
      same_or_conflict existing spec >>= λ view. ok ((view, false), db)
  enqueue_at spec fresh event_time none db =
      let job = new_job spec (id_or spec.job_id fresh) event_time in
      after_savepoint (insert_both job event_time db) job spec db

  -- `fresh` is the number that `uuid.uuid4()` returns.
  unfoldable pub enqueue : JobSpec → DateTime → ℕ → Db → Result ((DurableJob × Bool) × Db)
  unfolding require_aware same_or_conflict insert_both insert_job insert_outbox
  enqueue spec now fresh db = do
    event_time ← require_aware now "now must be timezone-aware"
    enqueue_at spec fresh event_time (find_by_key spec.idempotency_key db.jobs) db

unfoldable pub get : ℕ → Db → Option DurableJob
unfolding job_view
get job_id db = elim (find_job job_id db.jobs) [ none ↦ none | some row ↦ some (job_view row) ]

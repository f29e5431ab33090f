-- ===== src/Durable/Rows.antt =====
-- apps/api/app/async_runtime/tables.py: the rows of the three tables, with their unique
-- constraints.
use microlens_recsys_mvp.Prelude.{
  ℕ, ◌+◌, String, Bool, true, false, ◌&&◌, ◌||◌, Option, none, some, List, [], ◌∷◌, ◌++◌, ◌==◌,
  is_some, str_eq, if◌then◌else◌, Result, ok, err, integrity_error,
}
use microlens_recsys_mvp.Prelude.Table.{find, replace}
use microlens_recsys_mvp.Durable.Domain.{
  JobState, AttemptState, OutboxState, DurableJob, queued, running, succeeded, failed, cancelled,
  pending,
}

pub record JobRow : Type 0 where
  pub job_id : ℕ
  pub idempotency_key : String
  pub task_name : String
  pub payload : String
  pub payload_fingerprint : String
  pub status : JobState
  pub due_at : ℕ
  pub max_attempts : ℕ
  pub attempt_count : ℕ
  pub result : Option String
  pub last_error : Option String
  pub created_at : ℕ
  pub updated_at : ℕ
  pub completed_at : Option ℕ

pub record AttemptRow : Type 0 where
  pub attempt_id : ℕ
  pub job_id : ℕ
  pub attempt : ℕ
  pub worker_id : String
  pub fence_token : ℕ
  pub status : AttemptState
  pub lease_expires_at : Option ℕ
  pub heartbeat_at : ℕ
  pub error : Option String
  pub started_at : ℕ
  pub completed_at : Option ℕ

-- The text `job:{job_id}:{state}:{attempt_count}` by its parts.
pub record OutboxKey : Type 0 where
  pub job_id : ℕ
  pub state : JobState
  pub count : ℕ

-- The payload of a message; the one that announces a new job has no state and no attempt.
pub record OutboxPayload : Type 0 where
  pub job_id : ℕ
  pub task_name : String
  pub state : Option JobState
  pub attempt : Option ℕ

-- The topic is `async.job.{state}`.
pub record OutboxRow : Type 0 where
  pub outbox_id : ℕ
  pub idempotency_key : OutboxKey
  pub topic : JobState
  pub payload : OutboxPayload
  pub status : OutboxState
  pub available_at : ℕ
  pub delivery_attempts : ℕ
  pub delivery_token : Option ℕ
  pub lease_expires_at : Option ℕ
  pub last_error : Option String
  pub created_at : ℕ
  pub published_at : Option ℕ

-- `last_outbox_id` is the database's sequence.
pub record Db : Type 0 where
  pub jobs : List JobRow
  pub attempts : List AttemptRow
  pub outbox : List OutboxRow
  pub last_outbox_id : ℕ

abbrev pub empty_db : Db
empty_db = record { jobs = []; attempts = []; outbox = []; last_outbox_id = 0 }

-- The rows that another transaction has locked: SKIP LOCKED passes over them.
pub record Held : Type 0 where
  pub jobs : ℕ → Bool
  pub attempts : ℕ → Bool
  pub outbox : ℕ → Bool

abbrev pub state_number : JobState → ℕ
state_number queued = 0
state_number running = 1
state_number succeeded = 2
state_number failed = 3
state_number cancelled = 4

abbrev pub is_queued : JobState → Bool
is_queued s = state_number s == 0

abbrev pub is_running : JobState → Bool
is_running s = state_number s == 1

abbrev pub is_succeeded : JobState → Bool
is_succeeded s = state_number s == 2

abbrev pub is_failed : JobState → Bool
is_failed s = state_number s == 3

abbrev pub is_cancelled : JobState → Bool
is_cancelled s = state_number s == 4

abbrev pub attempt_running : AttemptState → Bool
attempt_running AttemptState.running = true
attempt_running _ = false

abbrev pub attempt_succeeded : AttemptState → Bool
attempt_succeeded AttemptState.succeeded = true
attempt_succeeded _ = false

abbrev pub attempt_failed : AttemptState → Bool
attempt_failed AttemptState.failed = true
attempt_failed _ = false

abbrev pub find_job : ℕ → List JobRow → Option JobRow
find_job = find JobRow.job_id

abbrev pub find_attempt : ℕ → List AttemptRow → Option AttemptRow
find_attempt = find AttemptRow.attempt_id

abbrev pub find_outbox : ℕ → List OutboxRow → Option OutboxRow
find_outbox = find OutboxRow.outbox_id

abbrev pub write_job : JobRow → Db → Db
write_job job db = record db { jobs = replace JobRow.job_id job db.jobs }

abbrev pub write_attempt : AttemptRow → Db → Db
write_attempt attempt db = record db {
  attempts = replace AttemptRow.attempt_id attempt db.attempts;
}

abbrev pub write_outbox : OutboxRow → Db → Db
write_outbox row db = record db { outbox = replace OutboxRow.outbox_id row db.outbox }

unfoldable pub find_by_key : String → List JobRow → Option JobRow
find_by_key k [] = none
find_by_key k (job ∷ jobs) = if str_eq job.idempotency_key k then some job else find_by_key k jobs

unfoldable pub has_number : ℕ → ℕ → List AttemptRow → Bool
has_number job_id n [] = false
has_number job_id n (a ∷ rows) = (a.job_id == job_id && a.attempt == n) || has_number job_id n rows

unfoldable pub has_fence : ℕ → List AttemptRow → Bool
has_fence fence [] = false
has_fence fence (a ∷ rows) = a.fence_token == fence || has_fence fence rows

abbrev pub key_eq : OutboxKey → OutboxKey → Bool
key_eq a b =
    (a.job_id == b.job_id && state_number a.state == state_number b.state) && a.count == b.count

unfoldable pub has_key : OutboxKey → List OutboxRow → Bool
has_key k [] = false
has_key k (o ∷ rows) = key_eq o.idempotency_key k || has_key k rows

-- INSERT, refused by the primary key or by a unique constraint.
unfoldable pub insert_job : JobRow → Db → Result Db
insert_job job db =
    if is_some (find_job job.job_id db.jobs) || is_some (find_by_key job.idempotency_key db.jobs)
    then err integrity_error
    else ok (record db { jobs = db.jobs ++ job ∷ [] })

unfoldable pub insert_attempt : AttemptRow → Db → Result Db
insert_attempt a db =
    if (is_some (find_attempt a.attempt_id db.attempts) || has_fence a.fence_token db.attempts)
      || has_number a.job_id a.attempt db.attempts
    then err integrity_error
    else ok (record db { attempts = db.attempts ++ a ∷ [] })

-- A new message is PENDING, with the next number of the sequence.
abbrev pub new_outbox : ℕ → OutboxKey → OutboxPayload → ℕ → OutboxRow
new_outbox outbox_id key payload now = record {
  outbox_id = outbox_id;
  idempotency_key = key;
  topic = key.state;
  payload = payload;
  status = pending;
  available_at = now;
  delivery_attempts = 0;
  delivery_token = none;
  lease_expires_at = none;
  last_error = none;
  created_at = now;
  published_at = none;
}

unfoldable pub insert_outbox : OutboxKey → OutboxPayload → ℕ → Db → Result Db
insert_outbox key payload now db =
    if has_key key db.outbox
    then err integrity_error
    else ok (record db {
      outbox = db.outbox ++ new_outbox (db.last_outbox_id + 1) key payload now ∷ [];
      last_outbox_id = db.last_outbox_id + 1;
    })

-- `_job_view`
unfoldable pub job_view : JobRow → DurableJob
job_view row = record {
  job_id = row.job_id;
  idempotency_key = row.idempotency_key;
  task_name = row.task_name;
  payload = row.payload;
  payload_fingerprint = row.payload_fingerprint;
  state = row.status;
  due_at = row.due_at;
  max_attempts = row.max_attempts;
  attempt_count = row.attempt_count;
  created_at = row.created_at;
  updated_at = row.updated_at;
  result = row.result;
  last_error = row.last_error;
  completed_at = row.completed_at;
}

-- ===== src/Durable/Invariant.antt =====
-- What is always true of the three tables, and what it means that a transaction keeps it.
pub mod Keys
pub mod Messages
pub mod Write
pub mod Finish
pub mod Steps
use microlens_recsys_mvp.Prelude.{
  ℕ, ◌≤◌, ◌<◌, Bool, true, false, ◌&&◌, ◌||◌, not, ◌≡◌, ◌≢◌, Option, none, some, List, [], ◌∷◌,
  ◌==◌, ltb, leb, is_some, All, Result, Error, ok, err, integrity_error,
}
use microlens_recsys_mvp.Prelude.Table.{IsKeyed}
use microlens_recsys_mvp.Durable.Domain.{
  JobState, OutboxState, pending, delivering, published, queued, running, succeeded, failed,
  cancelled, DurableClaim,
}
use microlens_recsys_mvp.Durable.Rows.{
  JobRow, AttemptRow, OutboxKey, OutboxRow, Db, is_queued, is_running, is_succeeded, is_failed,
  is_cancelled, attempt_running, find_job, find_attempt, has_key,
}

abbrev pub is_terminal : JobState → Bool
is_terminal s = (is_succeeded s || is_failed s) || is_cancelled s

abbrev pub same_truth : Bool → Bool → Bool
same_truth true b = b
same_truth false b = not b

-- The CHECK constraints of `async_jobs`: the attempts used are within the maximum, a terminal job
-- and no other has a completion time, a succeeded job has a result.
abbrev pub job_checks : JobRow → Bool
job_checks j =
    (leb j.attempt_count j.max_attempts
      && same_truth (is_terminal j.status) (is_some j.completed_at))
    && (not (is_succeeded j.status) || is_some j.result)

-- A queued job has an attempt left.
abbrev pub has_room : JobRow → Bool
has_room j = not (is_queued j.status) || ltb j.attempt_count j.max_attempts

-- The CHECK constraints of `async_job_attempts`: numbers from 1, a lease while it runs and only
-- then, a completion time afterwards and only then.
abbrev pub attempt_checks : AttemptRow → Bool
attempt_checks a =
    (ltb 0 a.attempt && same_truth (attempt_running a.status) (is_some a.lease_expires_at))
    && same_truth (attempt_running a.status) (not (is_some a.completed_at))

-- A job in a status, with its attempts so far, may have been announced in a state at a number of
-- attempts.
abbrev pub announced : JobState → ℕ → JobState → ℕ → Bool
announced queued c s n = leb n c && not (is_cancelled s)
announced running c s n = ltb n c && not (is_cancelled s)
announced failed c s n = (leb n c && not (is_cancelled s)) && not (is_queued s && n == c)
announced succeeded c s n = leb n c
announced cancelled c s n = leb n c

-- A running attempt is the last one of a running job.
abbrev pub runs_last : AttemptRow → JobRow → Bool
runs_last a j =
    not (attempt_running a.status) || (is_running j.status && a.attempt == j.attempt_count)

pub record AttemptOk (jobs : List JobRow) (a : AttemptRow) : Type 0 where
  pub job : JobRow
  pub found : find_job a.job_id jobs ≡ some job
  pub counted : a.attempt ≤ job.attempt_count
  pub last : runs_last a job ≡ true

pub record KeyOk (jobs : List JobRow) (k : OutboxKey) : Type 0 where
  pub job : JobRow
  pub found : find_job k.job_id jobs ≡ some job
  pub fits : announced job.status job.attempt_count k.state k.count ≡ true

abbrev pub shape_of : OutboxState → (token lease done : Bool) → Bool
shape_of pending token lease done = not token && not lease && not done
shape_of delivering token lease done = token && lease && not done
shape_of published token lease done = not token && not lease && done

-- `ck_async_outbox_delivery_shape`: a token and a lease while the message is being delivered and
-- only then, a time of publication once it is published and only then.
abbrev pub delivery_shape : OutboxRow → Bool
delivery_shape o =
    shape_of o.status (is_some o.delivery_token) (is_some o.lease_expires_at)
      (is_some o.published_at)

-- No two messages have one idempotency key.
abbrev pub UniqueKeys : List OutboxRow → Type 0
UniqueKeys [] = Unit
UniqueKeys (o ∷ rows) = (has_key o.idempotency_key rows ≡ false) × UniqueKeys rows

-- The messages have distinct ids up to the last of the sequence, distinct keys, and the shape of
-- their status.
pub record OutboxOk (rows : List OutboxRow) (last : ℕ) : Type 0 where
  pub ids : IsKeyed OutboxRow.outbox_id rows
  pub below : All (λ (o : OutboxRow). o.outbox_id ≤ last) rows
  pub unique : UniqueKeys rows
  pub shapes : All (λ o. delivery_shape o ≡ true) rows

-- `ck_async_jobs_max_attempts_range`
abbrev pub in_range : JobRow → Bool
in_range j = leb 1 j.max_attempts && leb j.max_attempts 100

pub record Consistent (db : Db) : Type 0 where
  pub jobs_keyed : IsKeyed JobRow.job_id db.jobs
  pub attempts_keyed : IsKeyed AttemptRow.attempt_id db.attempts
  pub checked : (k : ℕ) (j : JobRow) → find_job k db.jobs ≡ some j → job_checks j ≡ true
  pub roomy : (k : ℕ) (j : JobRow) → find_job k db.jobs ≡ some j → has_room j ≡ true
  pub shaped :
      (k : ℕ) (a : AttemptRow) → find_attempt k db.attempts ≡ some a → attempt_checks a ≡ true
  pub owned : (k : ℕ) (a : AttemptRow) → find_attempt k db.attempts ≡ some a → AttemptOk db.jobs a
  pub numbered :
      (k l : ℕ) (a b : AttemptRow)
      → find_attempt k db.attempts ≡ some a
      → find_attempt l db.attempts ≡ some b
      → a.job_id ≡ b.job_id
      → a.attempt ≡ b.attempt
      → k ≡ l
  pub keys : All (λ (o : OutboxRow). KeyOk db.jobs o.idempotency_key) db.outbox
  pub messages : OutboxOk db.outbox db.last_outbox_id
  pub capped : (k : ℕ) (j : JobRow) → find_job k db.jobs ≡ some j → in_range j ≡ true
  pub job_keys :
      (k l : ℕ) (i j : JobRow)
      → find_job k db.jobs ≡ some i
      → find_job l db.jobs ≡ some j
      → i.idempotency_key ≡ j.idempotency_key
      → k ≡ l

-- A transaction does not fail on a constraint, and what it commits is consistent.
pub record Safe {ℓ} {A : Type ℓ} (m : Result (A × Db)) : Type ℓ where
  pub no_clash : m ≢ err integrity_error
  pub kept : (x : A) (db : Db) → m ≡ ok (x, db) → Consistent db

pub record SafeDb (m : Result Db) : Type 0 where
  pub no_clash : m ≢ err integrity_error
  pub kept : (db : Db) → m ≡ ok db → Consistent db

-- The claim was handed out for an attempt that is in the table.
pub record IsIssued (db : Db) (claim : DurableClaim) : Type 0 where
  pub row : AttemptRow
  pub found : find_attempt claim.attempt_id db.attempts ≡ some row
  pub same_job : row.job_id ≡ claim.job.job_id
  pub same_number : row.attempt ≡ claim.attempt

-- ===== src/Durable/System.antt =====
-- The runtime as a whole: every committed transaction is a step from tables to tables.
use microlens_recsys_mvp.Prelude.{ℕ, ◌<◌, ◌≤◌, String, Bool, ◌≡◌, Option, none, ℤ, List, ok, arith}
use microlens_recsys_mvp.Prelude.Table.{find}
use microlens_recsys_mvp.Durable.Domain.{
  Canonical, DateTime, JobSpec, DurableJob, DurableClaim, Completion,
}
use microlens_recsys_mvp.Durable.Rows.{Db, Held, empty_db, find_job, find_attempt, has_fence}
use microlens_recsys_mvp.Durable.Repository.Enqueue.{enqueue, id_or}
use microlens_recsys_mvp.Durable.Repository.Claim.{claim_next}
use microlens_recsys_mvp.Durable.Repository.Work.{heartbeat, succeed, fail}
use microlens_recsys_mvp.Durable.Repository.Manage.{cancel, retry}
use microlens_recsys_mvp.Durable.Repository.Outbox.{
  OutboxClaim, claim_outbox, ack_outbox, nack_outbox,
}
use microlens_recsys_mvp.Durable.Invariant.{Consistent, IsIssued}
use microlens_recsys_mvp.Durable.Safety.Enqueue.{enqueue-Safe}
use microlens_recsys_mvp.Durable.Safety.Claim.{claim_next-Safe}
use microlens_recsys_mvp.Durable.Safety.Work.{heartbeat-Safe, succeed-Safe, fail-Safe}
use microlens_recsys_mvp.Durable.Safety.Manage.{cancel-Safe, retry-Safe}
use microlens_recsys_mvp.Durable.Safety.Outbox.{
  claim_outbox-Safe, ack_outbox-Safe, nack_outbox-SafeDb,
}

pub empty-Consistent : Consistent empty_db
unfolding find
empty-Consistent = record {
  jobs_keyed = tt;
  attempts_keyed = tt;
  checked = λ k j e. absurd (ground arith);
  roomy = λ k j e. absurd (ground arith);
  shaped = λ k a e. absurd (ground arith);
  owned = λ k a e. absurd (ground arith);
  numbered = λ k l a b e f job number. absurd (ground arith);
  keys = tt;
  messages = record { ids = tt; below = tt; unique = tt; shapes = tt };
  capped = λ k j e. absurd (ground arith);
  job_keys = λ k l i j e f same. absurd (ground arith);
}

module _ (sha256 : Canonical → String) where
  -- `uuid.uuid4()` returns numbers that are not in use, and a worker reports failure with a claim
  -- that was handed out to it.
  pub data Step (db : Db) : Db → Type 0 where
    enqueued :
        (spec : JobSpec) (now : DateTime) (fresh : ℕ) (x : DurableJob × Bool) {db' : Db}
        → find_job (id_or spec.job_id fresh) db.jobs ≡ none
        → 0 < spec.max_attempts
        → spec.max_attempts ≤ 100
        → enqueue sha256 spec now fresh db ≡ ok (x, db')
        → Step db db'
    claimed :
        (attempt_id fence : ℕ) (worker : String) (held : Held) (now : DateTime) (lease : ℤ)
        (names : Option (List String)) (x : Option DurableClaim) {db' : Db}
        → find_attempt attempt_id db.attempts ≡ none
        → has_fence fence db.attempts ≡ Bool.false
        → claim_next attempt_id fence worker held now lease names db ≡ ok (x, db')
        → Step db db'
    beat :
        (claim : DurableClaim) (now : DateTime) (lease : ℤ) (x : ℕ) {db' : Db}
        → heartbeat claim now lease db ≡ ok (x, db')
        → Step db db'
    succeeds :
        (claim : DurableClaim) (result : Option String) (now : DateTime) (x : Completion) {db' : Db}
        → succeed sha256 claim result now db ≡ ok (x, db')
        → Step db db'
    fails :
        (claim : DurableClaim) (message : String) (retryable : Bool) (delay : ℤ) (now : DateTime)
        (x : Completion) {db' : Db}
        → IsIssued db claim
        → fail claim message retryable delay now db ≡ ok (x, db')
        → Step db db'
    cancels :
        (job_id : ℕ) (now : DateTime) (x : Completion) {db' : Db}
        → cancel job_id now db ≡ ok (x, db')
        → Step db db'
    retries :
        (job_id : ℕ) (due now : DateTime) (x : DurableJob) {db' : Db}
        → retry job_id due now db ≡ ok (x, db')
        → Step db db'
    takes_messages :
        (token : ℕ → ℕ) (held : Held) (now : DateTime) (lease limit : ℤ) (x : List OutboxClaim)
        {db' : Db}
        → claim_outbox token held now lease limit db ≡ ok (x, db')
        → Step db db'
    acknowledges :
        (claim : OutboxClaim) (now : DateTime) (x : Bool) {db' : Db}
        → ack_outbox claim now db ≡ ok (x, db')
        → Step db db'
    refuses :
        (claim : OutboxClaim) (message : String) (now : DateTime) (delay : ℤ) {db' : Db}
        → nack_outbox claim message now delay db ≡ ok db'
        → Step db db'

  pub data Reach : Db → Type 0 where
    start : Reach empty_db
    next : {db db' : Db} → Reach db → Step db db' → Reach db'

  Step-Consistent : {db db' : Db} → Step db db' → Consistent db → Consistent db'
  Step-Consistent {db} {db'} (enqueued spec now fresh x unused positive most e) c =
      (enqueue-Safe sha256 spec db c fresh unused positive most now).kept x db' e
  Step-Consistent {db} {db'} (claimed i f worker held now lease names x fresh unfenced e) c =
      (claim_next-Safe i f worker held db c now lease names fresh unfenced).kept x db' e
  Step-Consistent {db} {db'} (beat claim now lease x e) c =
      (heartbeat-Safe db c claim now lease).kept x db' e
  Step-Consistent {db} {db'} (succeeds claim result now x e) c =
      (succeed-Safe db c claim sha256 result now).kept x db' e
  Step-Consistent {db} {db'} (fails claim message retryable delay now x issued e) c =
      (fail-Safe db c claim message retryable issued delay now).kept x db' e
  Step-Consistent {db} {db'} (cancels job_id now x e) c = (cancel-Safe db c job_id now).kept x db' e
  Step-Consistent {db} {db'} (retries job_id due now x e) c =
      (retry-Safe db c job_id due now).kept x db' e
  Step-Consistent {db} {db'} (takes_messages token held now lease limit x e) c =
      (claim_outbox-Safe db c token held now lease limit).kept x db' e
  Step-Consistent {db} {db'} (acknowledges claim now x e) c =
      (ack_outbox-Safe db c claim now).kept x db' e
  Step-Consistent {db} {db'} (refuses claim message now delay e) c =
      (nack_outbox-SafeDb db c claim message now delay).kept db' e

  -- Every state of the tables that the operations reach from the empty tables is consistent: the
  -- ids of jobs, attempts and messages and the idempotency keys of jobs and messages are unique; a
  -- job has a maximum of 1 to 100 attempts and has used no more, has a completion time if it is
  -- terminal and only then, and a result if it has succeeded; a queued job has attempts left; an
  -- attempt has a lease and no completion time while it runs, and only then; the attempts of a job
  -- have distinct numbers from 1 up to its count; a running attempt is the last one of a running
  -- job; a message has a token and a lease while it is being delivered, and only then, and a time
  -- of publication once it is published, and only then, and its key fits the state of its job. Each
  -- step is a committed operation; a new id or fence is not in use, a job is asked for with 1 to
  -- 100 attempts, and a worker reports a failure with a claim whose attempt is in the table.
  pub Reach-Consistent : {db : Db} → Reach db → Consistent db
  Reach-Consistent start = empty-Consistent
  Reach-Consistent (next r s) = Step-Consistent s (Reach-Consistent r)

-- ===== src/Durable/Samples.antt =====
-- A small history: a job is enqueued, claimed by a worker, and reported on.
use microlens_recsys_mvp.Prelude.{String, true, false, none, some, [], ◌∷◌, ok, ◌≡◌, refl, pos}
use microlens_recsys_mvp.Prelude.Table.{find, replace}
use microlens_recsys_mvp.Prelude.Sorting.{sort_by}
use microlens_recsys_mvp.Durable.Domain.{
  Canonical, payload_json, spec_json, JobSpec, DurableJob, DurableClaim, aware, AttemptState,
  queued, running, succeeded, cancelled,
}
use microlens_recsys_mvp.Durable.Rows.{
  JobRow, AttemptRow, OutboxRow, Db, Held, empty_db, new_outbox, job_view, find_by_key, has_key,
  has_number, has_fence, insert_outbox,
}
use microlens_recsys_mvp.Durable.Repository.Enqueue.{enqueue, new_job}
use microlens_recsys_mvp.Durable.Repository.Claim.{claim_next, new_attempt, claimed_job}
use microlens_recsys_mvp.Durable.Repository.Work.{
  succeed, fail, succeed_job, end_attempt, requeue_job,
}
use microlens_recsys_mvp.Durable.Repository.Manage.{cancel, cancelled_job}

-- A digest for the samples: the text itself.
abbrev pub plain : Canonical → String
plain (payload_json text) = text
plain (spec_json name text due max) = name

abbrev pub spec : JobSpec
spec = record {
  idempotency_key = "nightly";
  task_name = "export";
  payload = "{}";
  due_at = 5;
  max_attempts = 2;
  job_id = none;
}

abbrev pub nobody : Held
nobody = record { jobs = λ _. false; attempts = λ _. false; outbox = λ _. false }

abbrev pub job : JobRow
job = new_job plain spec 7 10

abbrev pub queued_message : OutboxRow
queued_message =
    new_outbox 1 (record { job_id = 7; state = queued; count = 0 })
      (record { job_id = 7; task_name = "export"; state = none; attempt = none }) 10

abbrev pub enqueued_db : Db
enqueued_db = record {
  jobs = job ∷ [];
  attempts = [];
  outbox = queued_message ∷ [];
  last_outbox_id = 1;
}

abbrev pub view : DurableJob
view = record {
  job_id = 7;
  idempotency_key = "nightly";
  task_name = "export";
  payload = "{}";
  payload_fingerprint = "export";
  state = queued;
  due_at = 5;
  max_attempts = 2;
  attempt_count = 0;
  created_at = 10;
  updated_at = 10;
  result = none;
  last_error = none;
  completed_at = none;
}

pub enqueue_run : enqueue plain spec (aware 10) 7 empty_db ≡ ok ((view, true), enqueued_db)
unfolding enqueue find find_by_key has_key job_view
enqueue_run = refl

abbrev pub attempt : AttemptRow
attempt = new_attempt 11 12 job "w" 20 60000020

abbrev pub claimed_db : Db
claimed_db = record enqueued_db { jobs = claimed_job job 20 ∷ []; attempts = attempt ∷ [] }

abbrev pub claim : DurableClaim
claim = record {
  job = record view { state = running; attempt_count = 1; updated_at = 20 };
  attempt_id = 11;
  attempt = 1;
  worker_id = "w";
  fence_token = 12;
  lease_expires_at = 60000020;
}

pub claim_run :
    claim_next 11 12 "w" nobody (aware 20) (pos 60) none enqueued_db ≡ ok (some claim, claimed_db)
unfolding claim_next find replace sort_by has_fence has_number
claim_run = refl

abbrev pub done_message : OutboxRow
done_message =
    new_outbox 2 (record { job_id = 7; state = succeeded; count = 1 })
      (record { job_id = 7; task_name = "export"; state = some succeeded; attempt = some 1 }) 30

abbrev pub succeeded_db : Db
succeeded_db = record {
  jobs = succeed_job (claimed_job job 20) "1" 30 ∷ [];
  attempts = end_attempt attempt AttemptState.succeeded none 30 ∷ [];
  outbox = queued_message ∷ done_message ∷ [];
  last_outbox_id = 2;
}

pub succeed_run :
    succeed plain claim (some "1") (aware 30) claimed_db
    ≡ ok (record { state = succeeded; duplicate = false }, succeeded_db)
unfolding succeed find replace has_key insert_outbox
succeed_run = refl

abbrev pub again_message : OutboxRow
again_message =
    new_outbox 2 (record { job_id = 7; state = queued; count = 1 })
      (record { job_id = 7; task_name = "export"; state = some queued; attempt = some 1 }) 30

abbrev pub failed_db : Db
failed_db = record {
  jobs = requeue_job (claimed_job job 20) "boom" 5000030 30 ∷ [];
  attempts = end_attempt attempt AttemptState.failed (some "boom") 30 ∷ [];
  outbox = queued_message ∷ again_message ∷ [];
  last_outbox_id = 2;
}

pub fail_run :
    fail claim "boom" true (pos 5) (aware 30) claimed_db
    ≡ ok (record { state = queued; duplicate = false }, failed_db)
unfolding fail find replace has_key insert_outbox
fail_run = refl

abbrev pub cancelled_message : OutboxRow
cancelled_message =
    new_outbox 2 (record { job_id = 7; state = cancelled; count = 1 })
      (record { job_id = 7; task_name = "export"; state = some cancelled; attempt = some 1 }) 30

abbrev pub cancelled_db : Db
cancelled_db = record {
  jobs = cancelled_job (claimed_job job 20) 30 ∷ [];
  attempts = end_attempt attempt AttemptState.cancelled (some "cancelled") 30 ∷ [];
  outbox = queued_message ∷ cancelled_message ∷ [];
  last_outbox_id = 2;
}

pub cancel_run :
    cancel 7 (aware 30) claimed_db
    ≡ ok (record { state = cancelled; duplicate = false }, cancelled_db)
unfolding cancel find replace has_key insert_outbox
cancel_run = refl

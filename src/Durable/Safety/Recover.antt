-- ===== src/Durable/Safety/Recover.antt =====
-- The tables after a turn of `_recover_expired` (apps/api/app/async_runtime/repository.py).
use microlens_recsys_mvp.Prelude.{
  ℕ, true, false, ◌≡◌, ◌⊎◌, refl, sym, ap, ◌∙◌, Option, none, some, List, All, leb, ok, arith,
}
use microlens_recsys_mvp.Prelude.Table.{key-find, replace}
use microlens_recsys_mvp.Durable.Domain.{queued, failed}
use microlens_recsys_mvp.Durable.Rows.{
  JobRow, AttemptRow, Db, is_running, attempt_running, find_job, find_attempt, insert_outbox,
}
use microlens_recsys_mvp.Durable.Repository.Common.{add_state_outbox, mark_exhausted}
use microlens_recsys_mvp.Durable.Repository.Recover.{
  expire_attempt, expire_job, recover_rows, recover_found, recover_attempt,
}
use microlens_recsys_mvp.Durable.Invariant.{Consistent, SafeDb}
use microlens_recsys_mvp.Durable.Invariant.Keys.{announced_after, unannounced_running}
use microlens_recsys_mvp.Durable.Invariant.Write.{JobChange, AttemptChange}
use microlens_recsys_mvp.Durable.Invariant.Finish.{ok-SafeDb, finish-Consistent, finish-SafeDb}
use microlens_recsys_mvp.Durable.Invariant.Steps.{if-SafeDb}

-- What an attempt never loses.
pub record Stamp : Type 0 where
  pub attempt_id : ℕ
  pub job_id : ℕ
  pub attempt : ℕ
  pub fence_token : ℕ

abbrev pub stamp : AttemptRow → Stamp
stamp a = record {
  attempt_id = a.attempt_id;
  job_id = a.job_id;
  attempt = a.attempt;
  fence_token = a.fence_token;
}

-- The attempts that are still to be handled: they are in the table as they were read, and run.
abbrev pub Waiting : List AttemptRow → List AttemptRow → Type 0
Waiting rest rows =
    All
      (λ (b : AttemptRow).
        (find_attempt b.attempt_id rows ≡ some b) × (attempt_running b.status ≡ true))
      rest

module _ (db : Db) (c : Consistent db) (now : ℕ) (attempt : AttemptRow)
    (at : find_attempt attempt.attempt_id db.attempts ≡ some attempt)
    (runs : attempt_running attempt.status ≡ true) (job : JobRow)
    (found : find_job attempt.job_id db.jobs ≡ some job)
    (job_runs : is_running job.status ≡ true) where
  own : attempt.job_id ≡ job.job_id
  own = sym (key-find JobRow.job_id attempt.job_id db.jobs job found)

  at_job : find_job job.job_id db.jobs ≡ some job
  at_job = ap (λ i. find_job i db.jobs) (sym own) ∙ found

  number : attempt.attempt ≡ job.attempt_count
  number =
      let h = c.owned attempt.attempt_id attempt at in
      let same : h.job ≡ job = cc (h.found, found) in
      ground (arith, h.last, ap JobRow.attempt_count same)

  expiring : AttemptChange db attempt (expire_attempt attempt now)
  expiring = record {
    found = at;
    same_id = refl;
    same_job = refl;
    same_number = refl;
    checks = ground (arith, c.shaped attempt.attempt_id attempt at);
    stops = λ _. refl;
  }

  dying : JobChange db job (mark_exhausted (expire_job job now) now)
  unfolding mark_exhausted
  dying = record {
    found = at_job;
    same_id = refl;
    same_key = refl;
    same_max = refl;
    checks = ground (arith, c.checked job.job_id job at_job);
    room = refl;
    grows = λ s n. announced_after job.status failed _ _ s n job_runs refl;
  }

  returning :
      leb job.max_attempts attempt.attempt ≡ false
      → JobChange db job (record (expire_job job now) { status = queued; due_at = now })
  returning left = record {
    found = at_job;
    same_id = refl;
    same_key = refl;
    same_max = refl;
    checks = ground (arith, c.checked job.job_id job at_job);
    room = ground (arith, number);
    grows = λ s n. announced_after job.status queued _ _ s n job_runs refl;
  }

  recover_rows-SafeDb : SafeDb (recover_rows now attempt job db)
  unfolding recover_rows
  recover_rows-SafeDb =
      if-SafeDb (leb job.max_attempts attempt.attempt) _ _
        (λ _.
          finish-SafeDb db job (mark_exhausted (expire_job job now) now) attempt _ c dying expiring
            own refl runs refl failed now (unannounced_running job.status _ _ job_runs)
            (ground arith))
        (λ left.
          ok-SafeDb
            (finish-Consistent db job _ attempt _ c (returning left) expiring own refl runs refl))

pub recover_attempt-SafeDb :
    (db : Db)
    → Consistent db
    → (now : ℕ) (a : AttemptRow) → find_attempt a.attempt_id db.attempts ≡ some a
    → attempt_running a.status ≡ true
    → SafeDb (recover_attempt now a db)
unfolding recover_attempt
recover_attempt-SafeDb db c now a at runs = by_job (find_job a.job_id db.jobs) refl
  where
    by_job :
        (job : Option JobRow)
        → find_job a.job_id db.jobs ≡ job
        → SafeDb (recover_found now a job db)
    by_job none e = ok-SafeDb c
    by_job (some job) e =
        if-SafeDb (is_running job.status) _ _
          (λ job_runs. recover_rows-SafeDb db c now a at runs job e job_runs) (λ _. ok-SafeDb c)

-- Recovering an attempt writes this attempt or none.
pub recover_attempt-attempts :
    (db db' : Db) (now : ℕ) (a : AttemptRow)
    → recover_attempt now a db ≡ ok db'
    → (db'.attempts ≡ db.attempts)
      ⊎ (db'.attempts ≡ replace AttemptRow.attempt_id (expire_attempt a now) db.attempts)
unfolding recover_attempt recover_rows add_state_outbox insert_outbox
recover_attempt-attempts db db' now a e = ground arith

-- ===== src/Durable/Safety/Manage.antt =====
-- The tables after `cancel` and `retry` (apps/api/app/async_runtime/repository.py).
use microlens_recsys_mvp.Prelude.{
  ℕ, true, false, not, ◌≡◌, refl, ap, ◌∙◌, none, some, Option-cases, All-head, All-select, select,
  select-none, inl, inr, ==→eq, leb, arith, List, require, lookup_error, ok,
}
use microlens_recsys_mvp.Prelude.Table.{key-find, find-All, IsKeyed-find}
use microlens_recsys_mvp.Durable.Domain.{
  JobState, AttemptState, DateTime, queued, running, succeeded, failed, cancelled,
}
use microlens_recsys_mvp.Durable.Rows.{
  JobRow, AttemptRow, Db, is_succeeded, is_failed, is_cancelled, find_job, find_attempt, write_job,
}
use microlens_recsys_mvp.Durable.Repository.Common.{add_state_outbox}
use microlens_recsys_mvp.Durable.Repository.Work.{end_attempt}
use microlens_recsys_mvp.Durable.Repository.Manage.{
  running_attempt, runs_for, cancel, cancel_row, cancel_open, cancelled_job, retry, retry_row,
  retried_job,
}
use microlens_recsys_mvp.Durable.Invariant.{Consistent, Safe, SafeDb, announced}
use microlens_recsys_mvp.Durable.Invariant.Write.{
  JobChange, AttemptChange, own_before, write_job-Consistent,
}
use microlens_recsys_mvp.Durable.Invariant.Finish.{announce-SafeDb, finish-SafeDb}
use microlens_recsys_mvp.Durable.Invariant.Steps.{
  ok-Safe, conflict-Safe, bind-Safe, bind-SafeDb, if-Safe, require_aware-IsPlain, require-IsPlain,
  guard_conflict-IsPlain,
}

-- The status is neither of the three terminal ones.
abbrev IsOpen : JobState → Type 0
IsOpen s = (is_cancelled s ≡ false) × (is_succeeded s ≡ false) × (is_failed s ≡ false)

announced_cancelled :
    (old : JobState) (c : ℕ) (s : JobState) (n : ℕ)
    → IsOpen old
    → announced old c s n ≡ true
    → announced cancelled c s n ≡ true
announced_cancelled queued c s n o h = ground arith
announced_cancelled running c s n o h = ground arith
announced_cancelled succeeded c s n o h = cc
announced_cancelled failed c s n o h = cc
announced_cancelled cancelled c s n o h = cc

unannounced_cancelled : (old : JobState) (c : ℕ) → IsOpen old → announced old c cancelled c ≡ false
unannounced_cancelled queued c o = ground arith
unannounced_cancelled running c o = ground arith
unannounced_cancelled succeeded c o = cc
unannounced_cancelled failed c o = cc
unannounced_cancelled cancelled c o = cc

module _ (db : Db) (c : Consistent db) (job : JobRow)
    (found : find_job job.job_id db.jobs ≡ some job) where
  -- The row that the query for a running attempt returns is one of the table, and it runs.
  running_found :
      (a : AttemptRow)
      → running_attempt job.job_id db.attempts ≡ some a
      → (find_attempt a.attempt_id db.attempts ≡ some a) × (runs_for job.job_id a ≡ true)
  unfolding running_attempt
  running_found a e =
      All-head
        (λ (b : AttemptRow).
          (find_attempt b.attempt_id db.attempts ≡ some b) × (runs_for job.job_id b ≡ true))
        (select (runs_for job.job_id) db.attempts) a
        (All-select _ (runs_for job.job_id) db.attempts
          (IsKeyed-find AttemptRow.attempt_id db.attempts c.attempts_keyed))
        e

  running_none :
      running_attempt job.job_id db.attempts ≡ none
      → (k : ℕ) (a : AttemptRow) → find_attempt k db.attempts ≡ some a
      → runs_for job.job_id a ≡ false
  unfolding running_attempt
  running_none e k a at =
      find-All AttemptRow.attempt_id (λ b. runs_for job.job_id b ≡ false) k db.attempts a
        (select-none (runs_for job.job_id) db.attempts e) at

  cancelling : (now : ℕ) → IsOpen job.status → JobChange db job (cancelled_job job now)
  cancelling now open_job = record {
    found = found;
    same_id = refl;
    same_key = refl;
    same_max = refl;
    checks = ground (arith, c.checked job.job_id job found);
    room = refl;
    grows = λ s n. announced_cancelled job.status job.attempt_count s n open_job;
  }

  stopping :
      (now : ℕ) (a : AttemptRow)
      → find_attempt a.attempt_id db.attempts ≡ some a
      → AttemptChange db a (end_attempt a AttemptState.cancelled (some "cancelled") now)
  stopping now a at = record {
    found = at;
    same_id = refl;
    same_job = refl;
    same_number = refl;
    checks = ground (arith, c.shaped a.attempt_id a at);
    stops = λ _. refl;
  }

  cancel_open-Safe : (now : ℕ) → IsOpen job.status → Safe (cancel_open job now db)
  unfolding cancel_open
  cancel_open-Safe now open_job = elim (Option-cases (running_attempt job.job_id db.attempts)) [
    | inl idle ↦ rw idle (
        bind-SafeDb _ _
          (announce-SafeDb db job (cancelled_job job now) cancelled now (cancelling now open_job)
            (write_job-Consistent db job (cancelled_job job now) c (cancelling now open_job)
              λ k a at own. (
                (own_before db job (cancelled_job job now) c (cancelling now open_job) k a at
                    own).0,
                ground (arith, running_none idle k a at),
              ))
            c.keys (unannounced_cancelled job.status _ open_job) (ground arith))
          (λ db' c'. ok-Safe c'))
    | inr (a, runs) ↦
        let (at, test) = running_found a runs in
        rw runs (
          bind-SafeDb _ _
            (finish-SafeDb db job (cancelled_job job now) a _ c (cancelling now open_job)
              (stopping now a at) (==→eq _ _ (ground arith)) refl (ground arith) refl cancelled now
              (unannounced_cancelled job.status _ open_job) (ground arith))
            (λ db' c'. ok-Safe c'))
  ]

  cancel_row-Safe : (now : ℕ) → Safe (cancel_row job now db)
  unfolding cancel_row
  cancel_row-Safe now =
      if-Safe _ _ _ (λ _. ok-Safe c)
        λ a.
          if-Safe _ _ _ (λ _. conflict-Safe _)
            λ b. if-Safe _ _ _ (λ _. conflict-Safe _) λ d. cancel_open-Safe now (a, b, d)

  retrying :
      (due now : ℕ)
      → is_failed job.status ≡ true
      → leb job.max_attempts job.attempt_count ≡ false
      → JobChange db job (retried_job job due now)
  retrying due now dead left = record {
    found = found;
    same_id = refl;
    same_key = refl;
    same_max = refl;
    checks = ground (arith, c.checked job.job_id job found);
    room = ground arith;
    grows = λ s n h. ground arith;
  }

  retry_row-Safe : (due now : ℕ) → Safe (retry_row job due now db)
  unfolding retry_row
  retry_row-Safe due now = bind-Safe _ _ (guard_conflict-IsPlain (is_failed job.status) _) λ _ dead.
      bind-Safe _ _ (guard_conflict-IsPlain (not (leb job.max_attempts job.attempt_count)) _)
        λ _ left. bind-SafeDb _ _ (written (ground arith) (ground arith)) (λ db' c'. ok-Safe c')
    where
      written :
          is_failed job.status ≡ true
          → leb job.max_attempts job.attempt_count ≡ false
          → SafeDb (
              add_state_outbox
                (retried_job job due now)
                queued
                now
                (write_job (retried_job job due now) db))
      written dead left =
          let change = retrying due now dead left in
          announce-SafeDb db job (retried_job job due now) queued now change
            (write_job-Consistent db job (retried_job job due now) c change λ k a at own.
              let (counted, last) =
                own_before db job (retried_job job due now) c change k a at own in
              (counted, ground arith))
            c.keys (ground arith) (ground arith)

-- The row that `session.get` returned is the one at its own id.
at_own_id :
    (jobs : List JobRow) (k : ℕ) (job : JobRow)
    → require (find_job k jobs) (lookup_error "job does not exist") ≡ ok job
    → find_job job.job_id jobs ≡ some job
at_own_id jobs k job e =
    let at : find_job k jobs ≡ some job = ground arith in
    ap (λ i. find_job i jobs) (key-find JobRow.job_id k jobs job at) ∙ at

-- On consistent tables a cancellation meets no constraint of the schema, and leaves the tables
-- consistent.
pub cancel-Safe :
    (db : Db) → Consistent db → (job_id : ℕ) (now : DateTime) → Safe (cancel job_id now db)
unfolding cancel
cancel-Safe db c job_id now = bind-Safe _ _ (require_aware-IsPlain now _) λ t _.
    bind-Safe _ _ (require-IsPlain (find_job job_id db.jobs) _)
      λ job e. cancel_row-Safe db c job (at_own_id db.jobs job_id job e) t

-- On consistent tables a retry meets no constraint of the schema, and leaves the tables consistent.
pub retry-Safe :
    (db : Db)
    → Consistent db
    → (job_id : ℕ) (due_at now : DateTime) → Safe (retry job_id due_at now db)
unfolding retry
retry-Safe db c job_id due_at now = bind-Safe _ _ (require_aware-IsPlain now _) λ t _.
    bind-Safe _ _ (require_aware-IsPlain due_at _) λ due _.
      bind-Safe _ _ (require-IsPlain (find_job job_id db.jobs) _)
        λ job e. retry_row-Safe db c job (at_own_id db.jobs job_id job e) due t

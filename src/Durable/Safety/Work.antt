-- ===== src/Durable/Safety/Work.antt =====
-- The tables after `heartbeat`, `succeed` and `fail` (apps/api/app/async_runtime/repository.py).
use microlens_recsys_mvp.Prelude.{ℕ, String, Bool, ◌≡◌, refl, sym, ap, ◌∙◌, Option, none, some, ℤ}
use microlens_recsys_mvp.Durable.Domain.{Canonical, DateTime, DurableClaim}
use microlens_recsys_mvp.Durable.Rows.{
  JobRow, AttemptRow, Db, attempt_failed, find_job, find_attempt,
}
use microlens_recsys_mvp.Durable.Repository.Work.{
  heartbeat, succeed, repeat_or_err, fail, fail_rows, repeat_failure,
}
use microlens_recsys_mvp.Durable.Invariant.{Consistent, Safe, IsIssued}
use microlens_recsys_mvp.Durable.Invariant.Steps.{
  ok-Safe, conflict-Safe, lost-Safe, bind-Safe, if-Safe, owned_rows-IsPlain, require_aware-IsPlain,
  canonical_json-IsPlain, positive-IsPlain, nonnegative-IsPlain,
}
use microlens_recsys_mvp.Durable.Safety.Owned.{owned_rows-Owns}
use microlens_recsys_mvp.Durable.Safety.Ends.{beat-Consistent, succeed_owned-Safe, fail_owned-Safe}

module _ (db : Db) (c : Consistent db) (claim : DurableClaim) where
  -- On consistent tables a heartbeat meets no constraint of the schema, and leaves the tables
  -- consistent.
  pub heartbeat-Safe :
      (now : DateTime) (lease_seconds : ℤ) → Safe (heartbeat claim now lease_seconds db)
  unfolding heartbeat
  heartbeat-Safe now lease_seconds = bind-Safe _ _ (positive-IsPlain lease_seconds _) λ lease _.
      bind-Safe _ _ (require_aware-IsPlain now _) λ t _.
        bind-Safe _ _ (owned_rows-IsPlain _ _ claim t) λ (job, attempt) e.
          let (at_job, at_attempt, owns) = owned_rows-Owns _ _ claim t job attempt e in
          ok-Safe (beat-Consistent db c claim t job attempt at_job at_attempt owns _)

  module _ (sha256 : Canonical → String) where
    repeat_success-Safe :
        (job : Option JobRow) (result : String) → Safe (repeat_or_err sha256 job result db)
    repeat_success-Safe none result = lost-Safe _
    repeat_success-Safe (some job) result = if-Safe _ _ _ (λ _. ok-Safe c) (λ _. conflict-Safe _)

    -- On consistent tables a report of success meets no constraint of the schema, and leaves the
    -- tables consistent.
    pub succeed-Safe :
        (result : Option String) (now : DateTime) → Safe (succeed sha256 claim result now db)
    unfolding succeed
    succeed-Safe result now = bind-Safe _ _ (canonical_json-IsPlain result) λ text _.
        bind-Safe _ _ (require_aware-IsPlain now _) λ t _.
          if-Safe _ _ _ (λ _. repeat_success-Safe (find_job claim.job.job_id db.jobs) text)
            λ _. bind-Safe _ _ (owned_rows-IsPlain _ _ claim t) λ (job, attempt) e.
              let (at_job, at_attempt, owns) = owned_rows-Owns _ _ claim t job attempt e in
              succeed_owned-Safe db c claim t job attempt at_job at_attempt owns text

  module _ (message : String) (retryable : Bool) where
    repeat_failure-Safe :
        (delay t : ℕ) (job : Option JobRow) (attempt : AttemptRow)
        → Safe (repeat_failure claim message retryable delay t job attempt db)
    repeat_failure-Safe delay t none attempt =
        if-Safe _ _ _ (λ _. conflict-Safe _) (λ _. lost-Safe _)
    repeat_failure-Safe delay t (some job) attempt =
        if-Safe _ _ _ (λ _. conflict-Safe _) (λ _. ok-Safe c)

    fail_found-Safe :
        (issued : IsIssued db claim) (delay t : ℕ) (attempt : Option AttemptRow)
        → find_attempt claim.attempt_id db.attempts ≡ attempt
        → Safe (
            fail_rows claim message retryable delay t
              (find_job claim.job.job_id db.jobs)
              attempt
              db)
    unfolding fail_rows
    fail_found-Safe issued delay t none at = absurd (cc issued.found)
    fail_found-Safe issued delay t (some row) at =
        if-Safe (attempt_failed row.status) _ _
          (λ _. repeat_failure-Safe delay t (find_job claim.job.job_id db.jobs) row)
          λ _. bind-Safe _ _ (owned_rows-IsPlain _ _ claim t) λ (job, attempt) e.
            let (at_job, same, owns) = owned_rows-Owns _ _ claim t job attempt e in
            fail_owned-Safe db c claim t job attempt at_job (at ∙ same) owns message retryable delay
              (numbered attempt (at ∙ same))
      where
        numbered :
            (a : AttemptRow)
            → find_attempt claim.attempt_id db.attempts ≡ some a
            → a.attempt ≡ claim.attempt
        numbered a e =
            let same : issued.row ≡ a = cc (issued.found, e) in
            sym (ap AttemptRow.attempt same) ∙ issued.same_number

    -- On consistent tables a report of failure, with a claim whose attempt is in the table with its
    -- job and its number, meets no constraint of the schema, and leaves the tables consistent.
    pub fail-Safe :
        IsIssued db claim
        → (retry_delay_seconds : ℤ) (now : DateTime)
        → Safe (fail claim message retryable retry_delay_seconds now db)
    unfolding fail
    fail-Safe issued retry_delay_seconds now =
        bind-Safe _ _ (nonnegative-IsPlain retry_delay_seconds _) λ delay _.
          bind-Safe _ _ (require_aware-IsPlain now _) λ t _. fail_found-Safe issued delay t _ refl

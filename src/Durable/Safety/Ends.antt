-- ===== src/Durable/Safety/Ends.antt =====
-- What the owner of an attempt writes: the bodies of `heartbeat`, `succeed` and `fail`.
use microlens_recsys_mvp.Prelude.{
  ℕ, ◌+◌, String, Bool, true, false, ◌&&◌, ◌≡◌, refl, sym, ap, ◌∙◌, Option, some, ltb, arith,
}
use microlens_recsys_mvp.Prelude.Table.{key-find}
use microlens_recsys_mvp.Durable.Domain.{
  JobState, AttemptState, DurableClaim, queued, succeeded, failed, seconds,
}
use microlens_recsys_mvp.Durable.Rows.{
  JobRow, AttemptRow, Db, attempt_running, find_job, find_attempt, write_attempt,
}
use microlens_recsys_mvp.Durable.Repository.Work.{
  beat_rows, beat_attempt, succeed_owned, succeed_job, end_attempt, fail_owned, requeue_job,
  fail_job,
}
use microlens_recsys_mvp.Durable.Invariant.{Consistent, Safe, announced}
use microlens_recsys_mvp.Durable.Invariant.Write.{
  JobChange, AttemptChange, own_before, write_job-Consistent, write_attempt-Consistent,
}
use microlens_recsys_mvp.Durable.Invariant.Keys.{announced_after, unannounced_running}
use microlens_recsys_mvp.Durable.Invariant.Finish.{finish-SafeDb}
use microlens_recsys_mvp.Durable.Invariant.Steps.{ok-Safe, bind-SafeDb, if-Safe}
use microlens_recsys_mvp.Durable.Safety.Owned.{Owns}

-- A worker's claim on the tables, and the rows that it owns.
module _ (db : Db) (c : Consistent db) (claim : DurableClaim) (now : ℕ) (job : JobRow)
    (attempt : AttemptRow) (job_found : find_job claim.job.job_id db.jobs ≡ some job)
    (attempt_found : find_attempt claim.attempt_id db.attempts ≡ some attempt)
    (owns : Owns claim now job attempt) where
  job_id : job.job_id ≡ claim.job.job_id
  job_id = key-find JobRow.job_id claim.job.job_id db.jobs job job_found

  attempt_id : attempt.attempt_id ≡ claim.attempt_id
  attempt_id = key-find AttemptRow.attempt_id claim.attempt_id db.attempts attempt attempt_found

  at_job : find_job job.job_id db.jobs ≡ some job
  at_job = ap (λ i. find_job i db.jobs) job_id ∙ job_found

  at_attempt : find_attempt attempt.attempt_id db.attempts ≡ some attempt
  at_attempt = ap (λ i. find_attempt i db.attempts) attempt_id ∙ attempt_found

  own : attempt.job_id ≡ job.job_id
  own = owns.same_job ∙ sym job_id

  -- An attempt that ends, in any state but RUNNING.
  ending :
      (state : AttemptState) (error : Option String)
      → attempt_running state ≡ false
      → AttemptChange db attempt (end_attempt attempt state error now)
  ending state error idle = record {
    found = at_attempt;
    same_id = refl;
    same_job = refl;
    same_number = refl;
    checks = ground (arith, c.shaped attempt.attempt_id attempt at_attempt);
    stops = λ _. idle;
  }

  -- The owned attempt is its job's last one.
  number : attempt.attempt ≡ job.attempt_count
  number =
      let h = c.owned attempt.attempt_id attempt at_attempt in
      let same : h.job ≡ job = cc (h.found, at_job, ap (λ i. find_job i db.jobs) own) in
      ground (arith, h.last, owns.attempt_runs, ap JobRow.attempt_count same)

  grows_running :
      (new : JobRow)
      → new.attempt_count ≡ job.attempt_count
      → (s : JobState) (n : ℕ) → announced job.status job.attempt_count s n ≡ true
      → announced new.status new.attempt_count s n ≡ true
  grows_running new same s n h = announced_after job.status new.status _ _ s n owns.job_runs same h

  pub beat-Consistent : (lease_end : ℕ) → Consistent (beat_rows now lease_end db (job, attempt)).1
  beat-Consistent lease_end =
      write_job-Consistent (write_attempt (beat_attempt attempt now lease_end) db) job
        (record job { updated_at = now }) beaten
        (record {
          found = at_job;
          same_id = refl;
          same_key = refl;
          same_max = refl;
          checks = c.checked job.job_id job at_job;
          room = c.roomy job.job_id job at_job;
          grows = λ s n h. h;
        })
        (λ k a e at.
          own_before (write_attempt (beat_attempt attempt now lease_end) db) job job beaten same k a
            e at)
    where
      beaten : Consistent (write_attempt (beat_attempt attempt now lease_end) db)
      beaten = write_attempt-Consistent db attempt (beat_attempt attempt now lease_end) c (record {
        found = at_attempt;
        same_id = refl;
        same_job = refl;
        same_number = refl;
        checks = ground (arith, c.shaped attempt.attempt_id attempt at_attempt, owns.attempt_runs);
        stops = λ h. h;
      })

      same : JobChange (write_attempt (beat_attempt attempt now lease_end) db) job job
      same = record {
        found = at_job;
        same_id = refl;
        same_key = refl;
        same_max = refl;
        checks = c.checked job.job_id job at_job;
        room = c.roomy job.job_id job at_job;
        grows = λ s n h. h;
      }

  succeeding : (result : String) → JobChange db job (succeed_job job result now)
  succeeding result = record {
    found = at_job;
    same_id = refl;
    same_key = refl;
    same_max = refl;
    checks = ground (arith, c.checked job.job_id job at_job);
    room = refl;
    grows = grows_running (succeed_job job result now) refl;
  }

  pub succeed_owned-Safe : (result : String) → Safe (succeed_owned result now db (job, attempt))
  unfolding succeed_owned
  succeed_owned-Safe result =
      bind-SafeDb _ _
        (finish-SafeDb db job (succeed_job job result now) attempt _ c (succeeding result)
          (ending AttemptState.succeeded attempt.error refl) own refl owns.attempt_runs refl
          succeeded now (unannounced_running job.status _ _ owns.job_runs) (ground arith))
        (λ db' c'. ok-Safe c')

  requeueing :
      (message : String) (due : ℕ)
      → ltb attempt.attempt job.max_attempts ≡ true
      → JobChange db job (requeue_job job message due now)
  requeueing message due left = record {
    found = at_job;
    same_id = refl;
    same_key = refl;
    same_max = refl;
    checks = ground (arith, c.checked job.job_id job at_job);
    room = ground (arith, number);
    grows = grows_running (requeue_job job message due now) refl;
  }

  failing : (message : String) → JobChange db job (fail_job job message now)
  failing message = record {
    found = at_job;
    same_id = refl;
    same_key = refl;
    same_max = refl;
    checks = ground (arith, c.checked job.job_id job at_job);
    room = refl;
    grows = grows_running (fail_job job message now) refl;
  }

  -- The claim carries the number of its attempt.
  pub fail_owned-Safe :
      (message : String) (retryable : Bool) (delay : ℕ)
      → attempt.attempt ≡ claim.attempt
      → Safe (fail_owned claim message retryable delay now db (job, attempt))
  unfolding fail_owned
  fail_owned-Safe message retryable delay issued =
      if-Safe (retryable && ltb claim.attempt job.max_attempts) _ _
        (λ again.
          bind-SafeDb _ _
            (finish-SafeDb db job _ attempt _ c
              (requeueing message (now + seconds delay) (ground arith))
              (ending AttemptState.failed (some message) refl) own refl owns.attempt_runs refl
              queued now (unannounced_running job.status _ _ owns.job_runs) (ground arith))
            (λ db' c'. ok-Safe c'))
        (λ dead.
          bind-SafeDb _ _
            (finish-SafeDb db job (fail_job job message now) attempt _ c (failing message)
              (ending AttemptState.failed (some message) refl) own refl owns.attempt_runs refl
              failed now (unannounced_running job.status _ _ owns.job_runs) (ground arith))
            (λ db' c'. ok-Safe c'))

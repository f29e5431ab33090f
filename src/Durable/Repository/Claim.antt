-- ===== src/Durable/Repository/Claim.antt =====
-- `claim_next` and `queued_claim_query`.
use microlens_recsys_mvp.Prelude.{
  ℕ, ◌+◌, String, Bool, true, false, ◌&&◌, ◌||◌, not, Option, none, some, List, [], ◌∷◌, ℤ, ◌==◌,
  ltb, leb, select, head?, str_mem, bounded_text, if◌then◌else◌, value_error, Result, ok, guard,
  positive, ◌>>=◌, ◌>>◌,
}
use microlens_recsys_mvp.Prelude.Sorting.{sort_by}
use microlens_recsys_mvp.Durable.Domain.{
  AttemptState, DateTime, DurableClaim, running, failed, seconds, require_aware,
}
use microlens_recsys_mvp.Durable.Rows.{
  JobRow, AttemptRow, Db, Held, is_queued, write_job, insert_attempt, job_view,
}
use microlens_recsys_mvp.Durable.Repository.Common.{add_state_outbox, mark_exhausted}
use microlens_recsys_mvp.Durable.Repository.Recover.{recover_expired}

-- `task_name IN (…)`, where there is such a filter.
abbrev pub named : Option (List String) → String → Bool
named none name = true
named (some names) name = str_mem name names

abbrev pub is_claimable : Held → ℕ → Option (List String) → JobRow → Bool
is_claimable held now task_names job =
    ((is_queued job.status && leb job.due_at now) && named task_names job.task_name)
    && not (held.jobs job.job_id)

-- ORDER BY due_at, created_at, job_id
abbrev pub due_order : JobRow → JobRow → Bool
due_order a b =
    ltb a.due_at b.due_at
    || (a.due_at == b.due_at
        && (ltb a.created_at b.created_at
            || (a.created_at == b.created_at && leb a.job_id b.job_id)))

unfoldable pub queued_claim : Held → ℕ → Option (List String) → List JobRow → Option JobRow
queued_claim held now task_names jobs =
    head? (sort_by due_order (select (is_claimable held now task_names) jobs))

-- `task_names is not None and not task_names`
abbrev pub no_names : Option (List String) → Bool
no_names none = false
no_names (some []) = true
no_names (some (x ∷ xs)) = false

abbrev pub new_attempt : ℕ → ℕ → JobRow → String → ℕ → ℕ → AttemptRow
new_attempt attempt_id fence_token job worker_id event_time lease_expires_at = record {
  attempt_id = attempt_id;
  job_id = job.job_id;
  attempt = job.attempt_count + 1;
  worker_id = worker_id;
  fence_token = fence_token;
  status = AttemptState.running;
  lease_expires_at = some lease_expires_at;
  heartbeat_at = event_time;
  error = none;
  started_at = event_time;
  completed_at = none;
}

abbrev pub claimed_job : JobRow → ℕ → JobRow
claimed_job job event_time = record job {
  status = running;
  attempt_count = job.attempt_count + 1;
  last_error = none;
  updated_at = event_time;
}

abbrev pub exhaust : JobRow → ℕ → Db → Result (Option DurableClaim × Db)
exhaust job event_time db = do
  let dead = mark_exhausted job event_time
  db' ← add_state_outbox dead failed event_time (write_job dead db)
  ok (none, db')

-- `attempt_id` and `fence_token` are the numbers that `uuid.uuid4()` returns.
module _ (attempt_id fence_token : ℕ) (worker_id : String) where
  abbrev pub start : JobRow → ℕ → ℕ → Db → Result (Option DurableClaim × Db)
  start job event_time lease_expires_at db = do
    db' ←
        insert_attempt
          (new_attempt attempt_id fence_token job worker_id event_time lease_expires_at) db
    ok (
      some (record {
        job = job_view (claimed_job job event_time);
        attempt_id = attempt_id;
        attempt = job.attempt_count + 1;
        worker_id = worker_id;
        fence_token = fence_token;
        lease_expires_at = lease_expires_at;
      }),
      write_job (claimed_job job event_time) db',
    )

  unfoldable pub claim_job : Option JobRow → ℕ → ℕ → Db → Result (Option DurableClaim × Db)
  claim_job none event_time lease_expires_at db = ok (none, db)
  claim_job (some job) event_time lease_expires_at db =
      if ltb job.max_attempts (job.attempt_count + 1)
      then exhaust job event_time db
      else start job event_time lease_expires_at db

  unfoldable pub claim_next :
      Held → DateTime → ℤ → Option (List String) → Db → Result (Option DurableClaim × Db)
  unfolding require_aware recover_expired queued_claim claim_job insert_attempt job_view
  claim_next held now lease_seconds task_names db = do
    guard (bounded_text worker_id 255) (value_error "worker_id must contain 1..255 characters")
    lease ← positive lease_seconds (value_error "lease_seconds must be positive")
    event_time ← require_aware now "now must be timezone-aware"
    db' ← recover_expired held event_time db
    if no_names task_names
        then ok (none, db')
        else claim_job (queued_claim held event_time task_names db'.jobs) event_time
            (event_time + seconds lease) db'

-- ===== src/Durable/Repository/Recover.antt =====
-- `_recover_expired`: attempts whose lease is over are closed, and their jobs queued again.
use microlens_recsys_mvp.Prelude.{
  ℕ, Bool, false, ◌&&◌, ◌||◌, not, Option, none, some, List, [], ◌∷◌, ◌==◌, ltb, leb, select,
  if◌then◌else◌, Result, ok, ◌>>=◌,
}
use microlens_recsys_mvp.Prelude.Sorting.{sort_by}
use microlens_recsys_mvp.Durable.Domain.{AttemptState, queued, failed}
use microlens_recsys_mvp.Durable.Rows.{
  JobRow, AttemptRow, Db, Held, is_running, attempt_running, find_job, write_job, write_attempt,
}
use microlens_recsys_mvp.Durable.Repository.Common.{add_state_outbox, mark_exhausted}

-- `lease_expires_at IS NOT NULL AND lease_expires_at <= now`
abbrev pub expired_at : Option ℕ → ℕ → Bool
expired_at none now = false
expired_at (some t) now = leb t now

abbrev pub is_expired : Held → ℕ → AttemptRow → Bool
is_expired held now a =
    (attempt_running a.status && expired_at a.lease_expires_at now)
    && not (held.attempts a.attempt_id)

abbrev lease_end : Option ℕ → ℕ
lease_end none = 0
lease_end (some t) = t

-- ORDER BY lease_expires_at, attempt_id
abbrev pub lease_order : AttemptRow → AttemptRow → Bool
lease_order a b =
    ltb (lease_end a.lease_expires_at) (lease_end b.lease_expires_at)
    || (lease_end a.lease_expires_at == lease_end b.lease_expires_at
        && leb a.attempt_id b.attempt_id)

unfoldable pub expired_attempts : Held → ℕ → List AttemptRow → List AttemptRow
expired_attempts held now rows = sort_by lease_order (select (is_expired held now) rows)

abbrev pub expire_attempt : AttemptRow → ℕ → AttemptRow
expire_attempt a now = record a {
  status = AttemptState.lease_expired;
  error = some "worker lease expired; recovered by database poll";
  heartbeat_at = now;
  lease_expires_at = none;
  completed_at = some now;
}

-- The job after its attempt has expired, before its new status.
abbrev pub expire_job : JobRow → ℕ → JobRow
expire_job job now = record job {
  last_error = some "worker lease expired; recovered by database poll";
  updated_at = now;
}

unfoldable pub recover_rows : ℕ → AttemptRow → JobRow → Db → Result Db
unfolding mark_exhausted
recover_rows now attempt job db =
    let db' = write_attempt (expire_attempt attempt now) db in
    let dead = mark_exhausted (expire_job job now) now in
    if leb job.max_attempts attempt.attempt
    then add_state_outbox dead failed now (write_job dead db')
    else ok (write_job (record (expire_job job now) { status = queued; due_at = now }) db')

abbrev pub recover_found : ℕ → AttemptRow → Option JobRow → Db → Result Db
recover_found now attempt none db = ok db
recover_found now attempt (some job) db =
    if is_running job.status then recover_rows now attempt job db else ok db

unfoldable pub recover_attempt : ℕ → AttemptRow → Db → Result Db
recover_attempt now attempt db = recover_found now attempt (find_job attempt.job_id db.jobs) db

unfoldable pub recover_each : ℕ → List AttemptRow → Db → Result Db
recover_each now [] db = ok db
recover_each now (a ∷ rest) db = recover_attempt now a db >>= λ db'. recover_each now rest db'

unfoldable pub recover_expired : Held → ℕ → Db → Result Db
unfolding expired_attempts recover_each recover_attempt recover_rows add_state_outbox
recover_expired held now db = recover_each now (expired_attempts held now db.attempts) db

-- ===== src/Durable/Safety/Owned.antt =====
-- Which worker owns an attempt: `_owned_attempt_rows` (apps/api/app/async_runtime/repository.py).
use microlens_recsys_mvp.Prelude.{
  ℕ, ◌<◌, true, false, ◌≡◌, refl, ap, Option, none, some, ◌==◌, ==→eq, str_eq, eq_iff, ok, arith,
}
use microlens_recsys_mvp.Durable.Domain.{DurableClaim}
use microlens_recsys_mvp.Durable.Rows.{JobRow, AttemptRow, is_running, attempt_running}
use mathlib.Core.Path.{subst₂}
use microlens_recsys_mvp.Durable.Repository.Common.{owned_rows, lease_over}

-- The claim owns the attempt: it is the running attempt of a running job, with the claim's worker
-- and fence, and its lease is not over.
pub record Owns (claim : DurableClaim) (now : ℕ) (job : JobRow) (attempt : AttemptRow)
    : Type 0 where
  pub same_job : attempt.job_id ≡ claim.job.job_id
  pub job_runs : is_running job.status ≡ true
  pub attempt_runs : attempt_running attempt.status ≡ true
  pub worker : attempt.worker_id ≡ claim.worker_id
  pub fence : attempt.fence_token ≡ claim.fence_token
  pub lease_end : ℕ
  pub leased : attempt.lease_expires_at ≡ some lease_end
  pub current : now < lease_end

module _ (job : JobRow) (attempt : AttemptRow) (claim : DurableClaim) (now : ℕ) (j : JobRow)
    (a : AttemptRow) (e : owned_rows (some job) (some attempt) claim now ≡ ok (j, a)) where
  same_rows : (job ≡ j) × (attempt ≡ a)
  unfolding owned_rows
  same_rows = ground arith

  tests :
      ((attempt.job_id == claim.job.job_id) ≡ true)
      × (is_running job.status ≡ true)
      × (attempt_running attempt.status ≡ true)
      × (str_eq attempt.worker_id claim.worker_id ≡ true)
      × ((attempt.fence_token == claim.fence_token) ≡ true)
      × (lease_over attempt.lease_expires_at now ≡ false)
  unfolding owned_rows
  tests = ground arith

leased-lt :
    (lease : Option ℕ) (now : ℕ)
    → lease_over lease now ≡ false
    → (t : ℕ) × (lease ≡ some t) × (now < t)
leased-lt none now e = cc
leased-lt (some t) now e = (t, refl, ground arith)

rows-Owns :
    (job : JobRow) (attempt : AttemptRow) (claim : DurableClaim) (now : ℕ) (j : JobRow)
    (a : AttemptRow)
    → owned_rows (some job) (some attempt) claim now ≡ ok (j, a)
    → Owns claim now job attempt
rows-Owns job attempt claim now j a e =
    let (own, runs, active, worker, fence, current) = tests job attempt claim now j a e in
    let (t, leased, before) = leased-lt attempt.lease_expires_at now current in
    record {
      same_job = ==→eq _ _ own;
      job_runs = runs;
      attempt_runs = active;
      worker = (eq_iff attempt.worker_id claim.worker_id).0 worker;
      fence = ==→eq _ _ fence;
      lease_end = t;
      leased = leased;
      current = before;
    }

-- Only an owner passes the check.
pub owned_rows-Owns :
    (job : Option JobRow) (attempt : Option AttemptRow) (claim : DurableClaim) (now : ℕ)
    (j : JobRow) (a : AttemptRow)
    → owned_rows job attempt claim now ≡ ok (j, a)
    → (job ≡ some j) × (attempt ≡ some a) × Owns claim now j a
unfolding owned_rows
owned_rows-Owns none attempt claim now j a e = ground arith
owned_rows-Owns (some job) none claim now j a e = ground arith
owned_rows-Owns (some job) (some attempt) claim now j a e =
    let (sj, sa) = same_rows job attempt claim now j a e in
    (ap some sj, ap some sa, subst₂ (Owns claim now) sj sa (rows-Owns job attempt claim now j a e))

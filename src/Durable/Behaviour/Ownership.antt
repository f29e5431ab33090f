-- ===== src/Durable/Behaviour/Ownership.antt =====
-- Fencing: who may report on a job.
use microlens_recsys_mvp.Prelude.{
  ℕ, ◌≡◌, ◌≢◌, refl, sym, ap, ◌∙◌, Option, none, some, Bool-cases, inl, inr, ok, require, >>=-eq-ok,
  arith,
}
use microlens_recsys_mvp.Prelude.Table.{key-find, replace, find-replace_self}
use microlens_recsys_mvp.Durable.Domain.{
  DateTime, DurableClaim, Completion, cancelled, require_aware,
}
use microlens_recsys_mvp.Durable.Rows.{
  JobRow, AttemptRow, Db, is_running, is_cancelled, find_job, find_attempt, write_job,
}
use microlens_recsys_mvp.Durable.Repository.Common.{owned_attempt}
use microlens_recsys_mvp.Durable.Behaviour.Announce.{announced_result}
use microlens_recsys_mvp.Durable.Repository.Manage.{
  cancel, cancel_row, cancel_open, cancel_attempt, cancelled_job, running_attempt,
}
use microlens_recsys_mvp.Durable.Invariant.{Consistent}
use microlens_recsys_mvp.Durable.Safety.Owned.{Owns, owned_rows-Owns}

module _ (db : Db) (c : Consistent db) where
  -- The number of an owned attempt is its job's count.
  owner_number :
      (claim : DurableClaim) (now : ℕ) (j : JobRow) (a : AttemptRow)
      → owned_attempt claim now db ≡ ok (j, a)
      → (find_attempt claim.attempt_id db.attempts ≡ some a)
        × (a.attempt ≡ j.attempt_count)
        × (find_job claim.job.job_id db.jobs ≡ some j)
        × Owns claim now j a
  unfolding owned_attempt
  owner_number claim now j a e =
      let (at_job, at, owns) = owned_rows-Owns _ _ claim now j a e in
      let h = c.owned claim.attempt_id a at in
      let same : h.job ≡ j = cc (h.found, at_job, ap (λ i. find_job i db.jobs) owns.same_job) in
      (at, ground (arith, h.last, owns.attempt_runs, ap JobRow.attempt_count same), at_job, owns)

  -- In consistent tables, two claims on one job that pass the ownership check, each at a time of
  -- its own, name the same attempt, the same fence and the same worker.
  pub owner_unique :
      (one two : DurableClaim) (now later : ℕ) (j k : JobRow) (a b : AttemptRow)
      → owned_attempt one now db ≡ ok (j, a)
      → owned_attempt two later db ≡ ok (k, b)
      → one.job.job_id ≡ two.job.job_id
      → (one.attempt_id ≡ two.attempt_id)
        × (one.fence_token ≡ two.fence_token)
        × (one.worker_id ≡ two.worker_id)
  owner_unique one two now later j k a b e f same_job =
      let (at_a, number_a, at_j, owns_a) = owner_number one now j a e in
      let (at_b, number_b, at_k, owns_b) = owner_number two later k b f in
      let same : j ≡ k = cc (at_j, at_k, ap (λ i. find_job i db.jobs) same_job) in
      let one_row : one.attempt_id ≡ two.attempt_id =
        c.numbered one.attempt_id two.attempt_id a b at_a at_b
          (owns_a.same_job ∙ same_job ∙ sym owns_b.same_job)
          (number_a ∙ ap JobRow.attempt_count same ∙ sym number_b) in
      let row : a ≡ b = cc (at_a, at_b, ap (λ i. find_attempt i db.attempts) one_row) in
      (
        one_row,
        sym owns_a.fence ∙ ap AttemptRow.fence_token row ∙ owns_b.fence,
        sym owns_a.worker ∙ ap AttemptRow.worker_id row ∙ owns_b.worker,
      )

cancelled_row :
    (job : JobRow) (t : ℕ) (db db' : Db) (x : Completion)
    → find_job job.job_id db.jobs ≡ some job
    → cancel_open job t db ≡ ok (x, db')
    → find_job job.job_id db'.jobs ≡ some (cancelled_job job t)
unfolding cancel_open
cancelled_row job t db db' x found e =
    let (_, jobs, _) =
      announced_result (cancelled_job job t) cancelled t
        (write_job (cancelled_job job t)
          (cancel_attempt (running_attempt job.job_id db.attempts) t db))
        db' _ x e in
    ap (find_job job.job_id) (
      jobs
      ∙ ap (replace JobRow.job_id (cancelled_job job t))
          (kept (running_attempt job.job_id db.attempts)))
    ∙ find-replace_self JobRow.job_id job.job_id (cancelled_job job t) job db.jobs found refl
  where
    kept : (a : Option AttemptRow) → (cancel_attempt a t db).jobs ≡ db.jobs
    kept none = refl
    kept (some a) = refl

cancel_row-stops :
    (job : JobRow) (t : ℕ) (db db' : Db) (x : Completion)
    → find_job job.job_id db.jobs ≡ some job
    → cancel_row job t db ≡ ok (x, db')
    → (j : JobRow) × (find_job job.job_id db'.jobs ≡ some j) × (j.status ≡ cancelled)
unfolding cancel_row
cancel_row-stops job t db db' x found e = elim (Bool-cases (is_cancelled job.status)) [
  | inl before ↦ (job, ground arith, ground arith)
  | inr open_job ↦ (cancelled_job job t, cancelled_row job t db db' x found (ground arith), refl)
]

-- Once a cancellation of a job has been committed, first or repeated, no claim on the job passes
-- the ownership check any more, at any time.
pub cancel_revokes :
    (job_id : ℕ) (now : DateTime) (db db' : Db) (x : Completion) (claim : DurableClaim) (t : ℕ)
    (rows : JobRow × AttemptRow)
    → cancel job_id now db ≡ ok (x, db')
    → claim.job.job_id ≡ job_id
    → owned_attempt claim t db' ≢ ok rows
unfolding cancel owned_attempt
cancel_revokes job_id now db db' x claim t (j, a) e same owned =
    let (t0, _, rest) = >>=-eq-ok (require_aware now _) _ e in
    let (job, at, row) = >>=-eq-ok (require (find_job job_id db.jobs) _) _ rest in
    let at' : find_job job_id db.jobs ≡ some job = ground arith in
    let own = key-find JobRow.job_id job_id db.jobs job at' in
    let (k, found, stopped) =
      cancel_row-stops job t0 db db' x (ap (λ i. find_job i db.jobs) own ∙ at') row in
    let (at_j, _, owns) = owned_rows-Owns _ _ claim t j a owned in
    let same_row : j ≡ k = cc (at_j, found, ap (λ i. find_job i db'.jobs) same) in
    cc (owns.job_runs, ap (λ (r : JobRow). is_running r.status) same_row, ap is_running stopped)

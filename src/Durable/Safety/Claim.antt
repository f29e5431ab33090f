-- ===== src/Durable/Safety/Claim.antt =====
-- The tables after `claim_next` (apps/api/app/async_runtime/repository.py).
use microlens_recsys_mvp.Prelude.{
  ℕ, ◌+◌, String, true, false, ◌≡◌, refl, ◌∙◌, Option, none, some, List, ℤ, Option-cases, All-head,
  All-select, select, inl, inr, ltb, bounded_text, arith,
}
use microlens_recsys_mvp.Prelude.Table.{find-replace_self, IsKeyed-find}
use microlens_recsys_mvp.Prelude.Sorting.{sort_by, All-sort_by}
use microlens_recsys_mvp.Durable.Domain.{DateTime, seconds}
use microlens_recsys_mvp.Durable.Rows.{
  JobRow, AttemptRow, Db, Held, is_queued, find_job, find_attempt, has_fence, write_job,
  insert_attempt,
}
use microlens_recsys_mvp.Durable.Repository.Recover.{recover_expired}
use microlens_recsys_mvp.Durable.Repository.Claim.{
  is_claimable, due_order, queued_claim, no_names, new_attempt, claimed_job, start, claim_job,
  claim_next,
}
use microlens_recsys_mvp.Durable.Invariant.{Consistent, Safe, AttemptOk}
use microlens_recsys_mvp.Durable.Invariant.Write.{JobChange, own_before, write_job-Consistent}
use microlens_recsys_mvp.Durable.Invariant.Steps.{
  ok-Safe, bind-Safe, if-Safe, require_aware-IsPlain, positive-IsPlain, guard_value-IsPlain,
  bind_recovery,
}
use microlens_recsys_mvp.Durable.Safety.Stamps.{has_fence-stamps, find-stamps_none}
use microlens_recsys_mvp.Durable.Safety.RecoverAll.{recover_expired-SafeDb, recover_expired-stamps}
use microlens_recsys_mvp.Durable.Safety.Append.{add_attempt, add_attempt-Consistent, next-absent}

-- The job that the query returns is one of the table, queued, due, named and not locked.
pub queued_claim-found :
    (db : Db) (c : Consistent db) (held : Held) (now : ℕ) (names : Option (List String))
    (job : JobRow)
    → queued_claim held now names db.jobs ≡ some job
    → (find_job job.job_id db.jobs ≡ some job) × (is_claimable held now names job ≡ true)
unfolding queued_claim
queued_claim-found db c held now names job e =
    All-head
      (λ (j : JobRow).
        (find_job j.job_id db.jobs ≡ some j) × (is_claimable held now names j ≡ true))
      (sort_by due_order (select (is_claimable held now names) db.jobs)) job
      (All-sort_by due_order _ _ (
        All-select _ (is_claimable held now names) db.jobs
          (IsKeyed-find JobRow.job_id db.jobs c.jobs_keyed)))
      e

module _ (db : Db) (c : Consistent db) (job : JobRow)
    (found : find_job job.job_id db.jobs ≡ some job) (waits : is_queued job.status ≡ true)
    (now : ℕ) where
  claiming : JobChange db job (claimed_job job now)
  claiming = record {
    found = found;
    same_id = refl;
    same_key = refl;
    same_max = refl;
    checks = ground (arith, c.checked job.job_id job found, c.roomy job.job_id job found);
    room = refl;
    grows = λ s n h. ground arith;
  }

  claimed-Consistent : Consistent (write_job (claimed_job job now) db)
  claimed-Consistent = write_job-Consistent db job (claimed_job job now) c claiming λ k a at own.
      let (counted, last) = own_before db job (claimed_job job now) c claiming k a at own in
      (omega arith, ground arith)

  module _ (attempt_id fence_token lease_end : ℕ) (worker_id : String)
      (fresh : find_attempt attempt_id db.attempts ≡ none)
      (unfenced : has_fence fence_token db.attempts ≡ false) where
    abbrev new : AttemptRow
    new = new_attempt attempt_id fence_token job worker_id now lease_end

    fits : AttemptOk (write_job (claimed_job job now) db).jobs new
    fits = record {
      job = claimed_job job now;
      found =
          find-replace_self JobRow.job_id job.job_id (claimed_job job now) job db.jobs found refl;
      counted = omega arith;
      last = ground arith;
    }

    started-Consistent : Consistent (add_attempt new (write_job (claimed_job job now) db))
    started-Consistent =
        add_attempt-Consistent (write_job (claimed_job job now) db) claimed-Consistent new fresh
          (ground arith) fits
          λ k a at own same.
            let (counted, _) = own_before db job (claimed_job job now) c claiming k a at own in
            omega arith

    start-Safe : Safe (start attempt_id fence_token worker_id job now lease_end db)
    unfolding insert_attempt
    start-Safe = rw (fresh, unfenced, next-absent db c job found) (ok-Safe started-Consistent)

    -- A queued job of a consistent table has an attempt left, so it is started.
    claim_found-Safe : Safe (claim_job attempt_id fence_token worker_id (some job) now lease_end db)
    unfolding claim_job
    claim_found-Safe =
        if-Safe (ltb job.max_attempts (job.attempt_count + 1)) _ _
          (λ over. absurd (ground (arith, c.roomy job.job_id job found))) (λ _. start-Safe)

module _ (attempt_id fence_token : ℕ) (worker_id : String) (held : Held) where
  claim_job-Safe :
      (db : Db)
      → Consistent db
      → (names : Option (List String)) (now lease_end : ℕ)
      → find_attempt attempt_id db.attempts ≡ none
      → has_fence fence_token db.attempts ≡ false
      → Safe (
          claim_job attempt_id fence_token worker_id
            (queued_claim held now names db.jobs)
            now
            lease_end
            db)
  claim_job-Safe db c names now lease_end fresh unfenced =
      elim (Option-cases (queued_claim held now names db.jobs)) [
        | inl idle ↦ rw idle (unfold claim_job in ok-Safe c)
        | inr (job, e) ↦
            let (found, test) = queued_claim-found db c held now names job e in
            rw e (
              claim_found-Safe db c job found (ground arith) now attempt_id fence_token lease_end
                worker_id fresh unfenced)
      ]

  -- With an attempt id and a fence that are not in use, a claim on consistent tables meets no
  -- constraint of the schema, and leaves the tables consistent.
  pub claim_next-Safe :
      (db : Db)
      → Consistent db
      → (now : DateTime) (lease_seconds : ℤ) (names : Option (List String))
      → find_attempt attempt_id db.attempts ≡ none
      → has_fence fence_token db.attempts ≡ false
      → Safe (claim_next attempt_id fence_token worker_id held now lease_seconds names db)
  unfolding claim_next
  claim_next-Safe db c now lease_seconds names fresh unfenced =
      bind-Safe _ _ (guard_value-IsPlain (bounded_text worker_id 255) _) λ _ _.
        bind-Safe _ _ (positive-IsPlain lease_seconds _) λ lease _.
          bind-Safe _ _ (require_aware-IsPlain now _) λ t _.
            bind_recovery (recover_expired held t db) _ (recover_expired-SafeDb db c held t)
              λ db' e c'.
                let stamps = recover_expired-stamps db c held t db' e in
                if-Safe (no_names names) _ _ (λ _. ok-Safe c')
                  λ _.
                    claim_job-Safe db' c' names t (t + seconds lease)
                      (find-stamps_none attempt_id db'.attempts db.attempts stamps fresh)
                      (has_fence-stamps fence_token db'.attempts db.attempts stamps ∙ unfenced)
